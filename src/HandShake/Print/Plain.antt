-- ===== src/HandShake/Print/Plain.antt =====
-- The fields that the package itself puts into a header can be printed on lines of their own.
use wlgows.Base.{
  ℕ, ◌+◌, ◌*◌, ◌/◌, ◌%◌, ◌≡◌, refl, Bool, true, false, not, ◌&&◌, Option, none, some, List, [], ◌∷◌,
  ◌==◌, arith, All, All-append, Bool-cases, inl, inr, length,
}
use wlgows.Base.Bytes.{Bytes}
use wlgows.Errors.{Error}
use wlgows.Http.{Request, Platform}
use wlgows.Http.Text.{same, codes, itoa}
use wlgows.Http.Decimal.{All-itoa}
use wlgows.Http.Base64.{digit, encode}
use wlgows.Http.Fields.{Header, canonical, get, set, add, set_at, lines_at}
use wlgows.Http.Message.{trimmed, is_ows}
use wlgows.Http.Message.Laws.{lacks, lacks-Lacks, trimmed-eq}
use wlgows.HandShake.Respond.{
  is_empty, set_if, connection, upgrade, sec_websocket_key, sec_websocket_version,
  sec_websocket_accept, content_length, content_type, generate_sec_websocket_accept,
  generate_response, ResponseWriter, decline_by_error, upgrade_for_websocket, new_response_writer,
}
use wlgows.HandShake.Print.{put_host}
use wlgows.HandShake.Print.Fields.{IsKey, IsValue, IsField}
use wlgows.HandShake.Client.{generate_web_socket_key, upgrade_header}

digit_range :
    (v : ℕ) → (digit v == 10 ≡ false) × (digit v == 13 ≡ false) × (is_ows (digit v) ≡ false)
unfolding digit
digit_range v = (ground arith, ground arith, ground arith)

-- What holds of every digit and of the padding holds of every byte of a Base64 text.
All-encode : (P : ℕ → Type 0) (s : Bytes) → ((v : ℕ) → P (digit v)) → P b'=' → All P (encode s)
unfolding encode
All-encode P [] each pad = tt
All-encode P (a ∷ []) each pad = (each (a / 4), (each (a % 4 * 16), (pad, (pad, tt))))
All-encode P (a ∷ b ∷ []) each pad =
    (each (a / 4), (each (a % 4 * 16 + b / 16), (each (b % 16 * 4), (pad, tt))))
All-encode P (a ∷ b ∷ c ∷ s) each pad = (
  each (a / 4),
  (
    each (a % 4 * 16 + b / 16),
    (each (b % 16 * 4 + c / 64), (each (c % 64), All-encode P s each pad)),
  ),
)

pub encode-IsValue : (s : Bytes) → IsValue (encode s)
encode-IsValue s =
    (All-encode _ s (λ v. (digit_range v).0) refl, All-encode _ s (λ v. (digit_range v).1) refl)

pub trimmed-encode : (s : Bytes) → trimmed (encode s) ≡ encode s
trimmed-encode s = trimmed-eq (encode s) (All-encode _ s (λ v. (digit_range v).2) refl)

itoa-IsValue : (n : ℕ) → IsValue (itoa n)
itoa-IsValue n = (All-itoa _ n (λ d h. ground arith), All-itoa _ n (λ d h. ground arith))

set_at-IsField :
    (key : Bytes) (vs : List Bytes) (h : Header)
    → IsKey key
    → All IsValue vs
    → All IsField h
    → All IsField (set_at key vs h)
unfolding set_at
set_at-IsField key vs [] k v fields = ((k, v), tt)
set_at-IsField key vs ((k', old) ∷ h) k v fields = elim (Bool-cases (same k' key)) [
  | inl here ↦ rw here ((fields.0.0, v), fields.1)
  | inr other ↦ rw other (fields.0, set_at-IsField key vs h k v fields.1)
]

lines_at-IsValue : (key : Bytes) (h : Header) → All IsField h → All IsValue (lines_at key h)
unfolding lines_at
lines_at-IsValue key [] fields = tt
lines_at-IsValue key ((k, vs) ∷ h) fields = elim (Bool-cases (same k key)) [
  | inl here ↦ rw here fields.0.1
  | inr other ↦ rw other (lines_at-IsValue key h fields.1)
]

pub set-IsField :
    (key v : Bytes) (h : Header)
    → IsKey (canonical key)
    → IsValue v
    → All IsField h
    → All IsField (set key v h)
unfolding set
set-IsField key v h k value fields = set_at-IsField (canonical key) (v ∷ []) h k (value, tt) fields

pub add-IsField :
    (key v : Bytes) (h : Header)
    → IsKey (canonical key)
    → IsValue v
    → All IsField h
    → All IsField (add key v h)
unfolding add
add-IsField key v h k value fields =
    set_at-IsField (canonical key) _ h k
      (All-append _ (lines_at (canonical key) h) (v ∷ [])
        (lines_at-IsValue (canonical key) h fields) (value, tt))
      fields

set_if-IsField :
    (b : Bool) (key v : Bytes) (h : Header)
    → IsKey (canonical key)
    → IsValue v
    → All IsField h
    → All IsField (set_if b key v h)
set_if-IsField true key v h k value fields = set-IsField key v h k value fields
set_if-IsField false key v h k value fields = fields

-- The names that the package uses.
data Named : Bytes → Type 0 where
  at_upgrade : Named upgrade
  at_connection : Named connection
  at_key : Named sec_websocket_key
  at_version : Named sec_websocket_version
  at_accept : Named sec_websocket_accept
  at_length : Named content_length
  at_type : Named content_type
  at_host : Named (codes "Host")

lacks-IsKey :
    (key : Bytes) → lacks 10 key ≡ true → lacks b':' key ≡ true → canonical key ≡ key → IsKey key
lacks-IsKey key a b c = (lacks-Lacks 10 key a, lacks-Lacks b':' key b, c)

lacks-IsValue : (v : Bytes) → lacks 10 v ≡ true → lacks 13 v ≡ true → IsValue v
lacks-IsValue v a b = (lacks-Lacks 10 v a, lacks-Lacks 13 v b)

Named-IsKey : {key : Bytes} → Named key → IsKey (canonical key)
unfolding canonical
Named-IsKey at_upgrade = lacks-IsKey (canonical upgrade) refl refl refl
Named-IsKey at_connection = lacks-IsKey (canonical connection) refl refl refl
Named-IsKey at_key = lacks-IsKey (canonical sec_websocket_key) refl refl refl
Named-IsKey at_version = lacks-IsKey (canonical sec_websocket_version) refl refl refl
Named-IsKey at_accept = lacks-IsKey (canonical sec_websocket_accept) refl refl refl
Named-IsKey at_length = lacks-IsKey (canonical content_length) refl refl refl
Named-IsKey at_type = lacks-IsKey (canonical content_type) refl refl refl
Named-IsKey at_host = lacks-IsKey (canonical (codes "Host")) refl refl refl

websocket-IsValue : IsValue (codes "websocket")
websocket-IsValue = lacks-IsValue (codes "websocket") refl refl

upgrade-IsValue : IsValue upgrade
upgrade-IsValue = lacks-IsValue upgrade refl refl

version-IsValue : IsValue (codes "13")
version-IsValue = lacks-IsValue (codes "13") refl refl

text_plain-IsValue : IsValue (codes "text/plain")
text_plain-IsValue = lacks-IsValue (codes "text/plain") refl refl

pub upgrade_header-IsField :
    (p : Platform) (h : Header)
    → All IsField h
    → All IsField (upgrade_header (generate_web_socket_key p) h)
unfolding upgrade_header generate_web_socket_key
upgrade_header-IsField p h fields = set-IsField _ _ _ (Named-IsKey at_version) version-IsValue (
    set-IsField _ _ _ (Named-IsKey at_key) (encode-IsValue _) (
      set-IsField _ _ _ (Named-IsKey at_connection) upgrade-IsValue
        (set-IsField _ _ _ (Named-IsKey at_upgrade) websocket-IsValue fields)))

pub put_host-IsField :
    (req : Request)
    → IsValue req.url.host
    → All IsField req.header
    → All IsField (put_host req).header
unfolding put_host
put_host-IsField req host fields = set_if-IsField _ _ _ _ (Named-IsKey at_host) host fields

pub generate_response-IsField :
    (w : ResponseWriter) → All IsField w.header → All IsField (generate_response w).1.header
unfolding generate_response
generate_response-IsField w fields =
    let lacking = is_empty (get w.header content_length) in
    let sized = set_if lacking content_length (itoa (length w.body)) w.header in
    let untyped = not (is_empty w.body) && is_empty (get sized content_type) in
    set_if-IsField untyped content_type (codes "text/plain") sized (Named-IsKey at_type)
      text_plain-IsValue
      (set_if-IsField lacking content_length (itoa (length w.body)) w.header (Named-IsKey at_length)
        (itoa-IsValue (length w.body)) fields)

pub decline-IsField :
    (text : Bytes) (e : Option Error)
    → All IsField (decline_by_error text e new_response_writer).header
unfolding decline_by_error
decline-IsField text none = tt
decline-IsField text (some e) =
    let version : All IsField (add sec_websocket_version (codes "13") []) =
      add-IsField _ _ [] (Named-IsKey at_version) version-IsValue tt in
    ground (arith, version)

pub upgrade-IsField :
    (key : Bytes) → All IsField (upgrade_for_websocket key new_response_writer).header
unfolding upgrade_for_websocket generate_sec_websocket_accept
upgrade-IsField key = add-IsField _ _ _ (Named-IsKey at_accept) (encode-IsValue _) (
    add-IsField _ _ _ (Named-IsKey at_version) version-IsValue (
      add-IsField _ _ _ (Named-IsKey at_connection) upgrade-IsValue
        (add-IsField _ _ _ (Named-IsKey at_upgrade) websocket-IsValue tt)))
