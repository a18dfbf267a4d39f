-- ===== src/HandShake/Client/Answer.antt =====
-- What ClientHandShake has sent, read and judged when it gives a Conn.
use wlgows.Base.{ℕ, ◌≡◌, refl, sym, ap, ◌∙◌, subst, true, Option, none, some, ◌++◌}
use wlgows.Base.Bytes.{Bytes}
use wlgows.Errors.{Error, Result, ok, err}
use wlgows.Frame.{MaskingKey}
use wlgows.Read.{Reader}
use wlgows.Step.{returned}
use wlgows.Writer.{Wire, Out}
use wlgows.Conn.{Conn}
use wlgows.Http.{Request, Response, Platform}
use wlgows.Http.Text.{same}
use wlgows.Http.Fields.{canonical, get, first_of}
use wlgows.HandShake.Respond.{sec_websocket_key}
use wlgows.HandShake.Print.{request_to_plain_http_msg, send_message}
use wlgows.HandShake.Server.Answer.{conn_unless-some, wire_write_sent}
use wlgows.HandShake.Client.{
  validate_hand_shake_response, judge_response, await_response, key_of, client_hand_shake,
  generate_web_socket_key,
}
use wlgows.HandShake.Client.Rules.{IsUpgrade, validate_hand_shake_response-IsUpgrade}
use wlgows.HandShake.Agreement.{upgraded, upgraded_key, values-put_host}

judge_response_clean :
    (req : Option Request) (wire : Wire) (result : Result Response)
    → (judge_response req wire result).error ≡ none
    → (res : Response) × (result ≡ ok res)
      × (validate_hand_shake_response res (key_of req) ≡ none)
      × ((judge_response req wire result).response ≡ some res)
unfolding judge_response
judge_response_clean req wire (ok res) h = (res, refl, h, refl)
judge_response_clean req wire (err e) h = let impossible : ⊥ = cc in absurd impossible

judge_response-wire :
    (req : Option Request) (wire : Wire) (result : Result Response)
    → (judge_response req wire result).wire ≡ wire
unfolding judge_response
judge_response-wire req wire (ok res) = refl
judge_response-wire req wire (err e) = refl

send_message_clean :
    (message : Result Bytes) (wire : Wire)
    → (send_message message wire).0 ≡ none
    → (m : Bytes) × (message ≡ ok m) × ((send_message message wire).1.sent ≡ wire.sent ++ m)
unfolding send_message
send_message_clean (ok m) wire h = (m, refl, wire_write_sent m wire.fates wire h)
send_message_clean (err e) wire h = let impossible : ⊥ = cc in absurd impossible

await_response_clean :
    (p : Platform) (r : Reader) (failed : Option Error) (req : Request) (wire : Wire)
    → (await_response p r ((failed, some req), wire)).0.error ≡ none
    → (failed ≡ none)
      × (res : Response) × (p.read_response r req
          ≡ (ok res, (await_response p r ((failed, some req), wire)).1))
      × (validate_hand_shake_response res (get req.header sec_websocket_key) ≡ none)
      × ((await_response p r ((failed, some req), wire)).0.response ≡ some res)
      × ((await_response p r ((failed, some req), wire)).0.wire ≡ wire)
unfolding await_response
await_response_clean p r (some e) req wire h = let impossible : ⊥ = cc in absurd impossible
await_response_clean p r none req wire h =
    let (res, read, valid, response) =
      judge_response_clean (some req) wire (p.read_response r req).0 h in
    (
      refl,
      res,
      ap (λ (x : Result Response). (x, (p.read_response r req).1)) read,
      valid,
      response,
      judge_response-wire _ wire _,
    )

-- The request as it is once it is printed, and the message.
abbrev pub printed : Platform → Request → Result Bytes × Request
printed p q = request_to_plain_http_msg p (upgraded p q)

pub printed_key :
    (p : Platform) (q : Request)
    → get (printed p q).1.header sec_websocket_key ≡ generate_web_socket_key p
unfolding request_to_plain_http_msg get canonical same
printed_key p q =
    ap first_of (values-put_host (upgraded p q) sec_websocket_key refl) ∙ upgraded_key p q

-- What the making of a Conn says of one call.
pub client_hand_shake_sent :
    (p : Platform) (keys : ℕ → Result MaskingKey) (r : Reader) (w : Out) (q : Request)
    {e : Option Error} {c : Conn}
    → (client_hand_shake p keys r w (some q)).0 ≡ returned e (some c)
    → (m : Bytes) × ((printed p q).0 ≡ ok m)
      × ((client_hand_shake p keys r w (some q)).1.wire.sent ≡ w.wire.sent ++ m)
      × (res : Response) × (p.read_response r (printed p q).1 ≡ (ok res, c.reader))
      × IsUpgrade res (generate_web_socket_key p)
      × ((client_hand_shake p keys r w (some q)).1.response ≡ some res)
      × (c.mask_send_frame ≡ true)
unfolding client_hand_shake
client_hand_shake_sent p keys r w q {c = c} h =
    let (clean, o, at_c) = conn_unless-some _ _ _ true keys h in
    let sending : Option Error × Wire = send_message (printed p q).0 w.wire in
    let (sent, res, read, valid, response, same_wire) =
      await_response_clean p r sending.0 (printed p q).1 sending.1 clean in
    let (m, is_m, on_wire) = send_message_clean (printed p q).0 w.wire sent in
    (
      m,
      is_m,
      ap (λ (v : Wire). v.sent) same_wire ∙ on_wire,
      res,
      read ∙ ap (λ (k : Conn). (ok res, k.reader)) (sym at_c),
      subst (IsUpgrade res) (printed_key p q)
          ((validate_hand_shake_response-IsUpgrade res _).0 valid),
      response,
      ap (λ (k : Conn). k.mask_send_frame) at_c,
    )
