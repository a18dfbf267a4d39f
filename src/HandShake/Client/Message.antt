-- ===== src/HandShake/Client/Message.antt =====
-- The request that ClientHandShake sends, as a reader of its bytes finds it.
use wlgows.Base.{
  ℕ, true, ◌≡◌, refl, sym, ap, ◌∙◌, subst, Option, none, some, List, [], ◌∷◌, ◌++◌, append-nil, map,
}
use wlgows.Base.Bytes.{Bytes}
use wlgows.Errors.{Result, Error, ok, err}
use wlgows.Http.{Body, Request, Response, Platform, read_all}
use wlgows.Http.Text.{codes, same}
use wlgows.Http.Fields.{canonical, values}
use wlgows.Http.Message.{trimmed, message_values, third_word}
use wlgows.HandShake.Respond.{connection, upgrade, sec_websocket_key, sec_websocket_version}
use wlgows.HandShake.Print.{
  with_body, with_body_of, request_head, put_host, request_to_plain_http_msg,
}
use wlgows.HandShake.Print.Fields.{IsValue}
use wlgows.HandShake.Print.Plain.{upgrade_header-IsField, put_host-IsField, trimmed-encode}
use wlgows.HandShake.Print.Reading.{Carries, IsRange, IsPrintable, request-Carries}
use wlgows.HandShake.Client.{generate_web_socket_key, client_hand_shake}
use wlgows.HandShake.Client.Rules.{IsUpgrade}
use wlgows.Frame.{MaskingKey}
use wlgows.Read.{Reader}
use wlgows.Step.{returned}
use wlgows.Writer.{Out}
use wlgows.Conn.{Conn}
use wlgows.HandShake.Agreement.{upgraded, values-put_host, values-upgrade_header}
use wlgows.HandShake.Client.Answer.{printed, client_hand_shake_sent}

with_body-ok :
    (head : Bytes) (b : Body) (read : Result Bytes) {m : Bytes}
    → (with_body head b read).0 ≡ ok m
    → (s : Bytes) × (m ≡ head ++ s)
unfolding with_body
with_body-ok head b (ok s) h = (s, cc)
with_body-ok head b (err e) h = let impossible : ⊥ = cc in absurd impossible

with_body_of-ok :
    (head : Bytes) (body : Option Body) {m : Bytes}
    → (with_body_of head body).0 ≡ ok m
    → (s : Bytes) × (m ≡ head ++ s)
unfolding with_body_of
with_body_of-ok head none {m} h =
    let same_text : head ≡ m = cc in ([], sym same_text ∙ sym (append-nil head))
with_body_of-ok head (some b) h = with_body-ok head b (read_all b) h

-- The request with its Host, as the client prints it.
abbrev hosted : Platform → Request → Request
hosted p q = put_host (upgraded p q)

printed_message :
    (p : Platform) (q : Request) {m : Bytes}
    → (printed p q).0 ≡ ok m
    → (body : Bytes) × (m ≡ request_head p (hosted p q) ++ body)
unfolding request_to_plain_http_msg
printed_message p q h = with_body_of-ok (request_head p (hosted p q)) _ h

hosted-IsPrintable :
    (p : Platform) (q : Request) → IsPrintable q → IsValue q.url.host → IsPrintable (hosted p q)
unfolding put_host
hosted-IsPrintable p q fits host = record {
  method = fits.method;
  target = fits.target;
  proto = fits.proto;
  fields =
      unfold put_host in
      put_host-IsField (upgraded p q) host (upgrade_header-IsField p q.header fits.fields);
}

-- The words of the request, its fields, and those of the handshake.
pub record IsOpening (p : Platform) (q : Request) (m : Bytes) : Type 0 where
  pub body : Bytes
  pub carries : Carries m q.method q.url.request_uri (printed p q).1.header body
  pub proto : third_word m ≡ q.proto
  pub at_upgrade : message_values m upgrade ≡ codes "websocket" ∷ []
  pub at_connection : message_values m connection ≡ codes "Upgrade" ∷ []
  pub at_key : message_values m sec_websocket_key ≡ generate_web_socket_key p ∷ []
  pub at_version : message_values m sec_websocket_version ≡ codes "13" ∷ []

-- The fields of an upgrade, as the header that is printed has them.
pub values-printed :
    (p : Platform) (q : Request)
    → let h = (printed p q).1.header in
      (values h upgrade ≡ codes "websocket" ∷ [])
      × (values h connection ≡ codes "Upgrade" ∷ [])
      × (values h sec_websocket_key ≡ generate_web_socket_key p ∷ [])
      × (values h sec_websocket_version ≡ codes "13" ∷ [])
unfolding request_to_plain_http_msg canonical same
values-printed p q =
    let (u, c, k, v) = values-upgrade_header (generate_web_socket_key p) q.header in
    (
      values-put_host (upgraded p q) upgrade refl ∙ u,
      values-put_host (upgraded p q) connection refl ∙ c,
      values-put_host (upgraded p q) sec_websocket_key refl ∙ k,
      values-put_host (upgraded p q) sec_websocket_version refl ∙ v,
    )

-- How a request may be for its handshake to be read: a start line of three words, fields with canonical
-- names and values on one line each, a host on one line, and
-- a map's iteration that meets each field once.
pub record CanPrint (p : Platform) (q : Request) : Type 1 where
  pub fits : IsPrintable q
  pub host : IsValue q.url.host
  pub range : IsRange p (printed p q).1.header

pub printed-IsOpening :
    (p : Platform) (q : Request) (m : Bytes)
    → CanPrint p q
    → (printed p q).0 ≡ ok m
    → IsOpening p q m
unfolding request_to_plain_http_msg canonical same trimmed generate_web_socket_key
printed-IsOpening p q m can is_m =
    let (body, at_m) = printed_message p q is_m in
    let (reads, proto) =
      request-Carries p (hosted p q) body (hosted-IsPrintable p q can.fits can.host) can.range in
    let carries : Carries m q.method q.url.request_uri (hosted p q).header body =
      subst (λ (x : Bytes). Carries x q.method q.url.request_uri (hosted p q).header body)
        (sym at_m) reads in
    let (u, c, k, v) = values-printed p q in
    let found = λ (key : Bytes) (vs : List Bytes) (at : values (hosted p q).header key ≡ vs).
      carries.values_are key ∙ ap (λ (ls : List Bytes). map trimmed ls) at in
    record {
      body = body;
      carries = carries;
      proto = ap third_word at_m ∙ proto;
      at_upgrade = found upgrade _ u;
      at_connection = found connection _ c;
      at_key = found sec_websocket_key _ k ∙ ap (λ (s : Bytes). s ∷ []) (trimmed-encode _);
      at_version = found sec_websocket_version _ v;
    }

-- ClientHandShake gives a Conn only if one message was sent whole and http.ReadResponse then read a
-- response that upgrades it with the key that the message carries. For a request whose start line is
-- three words, whose fields have canonical names and, as its host, no end of a line, and where the
-- iteration of its header meets each field once, a reader of the message's bytes finds the request's method, target and protocol, for every key the values of its header, and the
-- four fields of an upgrade. The Conn masks, and it reads on from where the response ended, so that no
-- byte of a first frame is lost.
pub client_hand_shake-IsUpgrade :
    (p : Platform) (keys : ℕ → Result MaskingKey) (r : Reader) (w : Out) (q : Request)
    {e : Option Error} {c : Conn}
    → CanPrint p q
    → (client_hand_shake p keys r w (some q)).0 ≡ returned e (some c)
    → (m : Bytes) × ((client_hand_shake p keys r w (some q)).1.wire.sent ≡ w.wire.sent ++ m)
      × IsOpening p q m
      × (res : Response) × (p.read_response r (printed p q).1 ≡ (ok res, c.reader))
      × (key : Bytes) × (message_values m sec_websocket_key ≡ key ∷ [])
      × IsUpgrade res key
      × ((client_hand_shake p keys r w (some q)).1.response ≡ some res)
      × (c.mask_send_frame ≡ true)
client_hand_shake-IsUpgrade p keys r w q can h =
    let (m, is_m, on_wire, res, read, upgrades, response, masks) =
      client_hand_shake_sent p keys r w q h in
    let opening = printed-IsOpening p q m can is_m in
    (
      m,
      on_wire,
      opening,
      res,
      read,
      generate_web_socket_key p,
      opening.at_key,
      upgrades,
      response,
      masks,
    )
