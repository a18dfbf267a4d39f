-- ===== src/HandShake/Respond/Length.antt =====
-- The Content-Length that GenerateResponse puts into the answers of a handshake.
use wlgows.Base.{◌≡◌, refl, ap, ◌∙◌, Bool, true, false, Option, none, some, [], ◌∷◌, arith, length}
use wlgows.Base.Bytes.{Bytes}
use wlgows.Errors.{Error}
use wlgows.Http.Text.{codes, same, itoa}
use wlgows.Http.Fields.{Header, canonical, get, add, values, values-set}
use wlgows.HandShake.Respond.{
  ResponseWriter, is_empty, set_if, generate_response, content_length, content_type,
  decline_by_error, upgrade_for_websocket, new_response_writer,
}

set_content_length :
    (b : Bool) (body : Bytes) (h : Header)
    → b ≡ true
    → values (set_if b content_length (itoa (length body)) h) content_length
      ≡ itoa (length body) ∷ []
unfolding canonical same
set_content_length true body h e = simp values-set
set_content_length false body h e = cc

set_content_type :
    (b : Bool) (v : Bytes) (h : Header)
    → values (set_if b content_type v h) content_length ≡ values h content_length
unfolding canonical same
set_content_type true v h = simp values-set
set_content_type false v h = refl

-- An answer whose header has no Content-Length yet gets one, the number of its body's bytes.
pub values-generate_response :
    (w : ResponseWriter)
    → get w.header content_length ≡ []
    → values (generate_response w).1.header content_length ≡ itoa (length w.body) ∷ []
unfolding generate_response
values-generate_response w unset =
    set_content_type _ (codes "text/plain") _
    ∙ set_content_length (is_empty (get w.header content_length)) w.body w.header
        (ap is_empty unset)

pub decline_unset :
    (text : Bytes) (e : Option Error)
    → get (decline_by_error text e new_response_writer).header content_length ≡ []
unfolding decline_by_error get add canonical same
decline_unset text none = refl
decline_unset text (some e) = ground arith

pub upgrade_unset :
    (key : Bytes) → get (upgrade_for_websocket key new_response_writer).header content_length ≡ []
unfolding upgrade_for_websocket get add canonical same
upgrade_unset key = refl
