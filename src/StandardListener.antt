-- ===== src/StandardListener.antt =====
-- ConnectionListener.go: the hooks that answer what RFC 6455 obliges a receiver to answer. They join
-- a connection and its listener, so a hook changes both.
pub mod Answers
use wlgows.Base.{
  ℕ, ◌+◌, ◌*◌, ◌%◌, ◌/◌, ◌^◌, ◌≤◌, ◌<◌, ◌≡◌, ◌⊎◌, refl, ap, ap₂, subst, sym, ◌∙◌, Bool, true, false,
  not, ◌&&◌, ◌||◌, Option, none, some, List, [], ◌∷◌, ◌++◌, arith, length, ltb, leb, ◌==◌, take,
  drop, if◌then◌else◌, Bool-cases, inl, inr,
}
use wlgows.Base.Bytes.{Bytes, IsByte, IsBytes, be_uint, put_be_uint}
use wlgows.Errors.{Error, Result, ok, err, sentinel, close_already_sent}
use wlgows.Opcode.{opcode_close, opcode_pong, is_control_opcode, is_data_opcode}
use wlgows.Frame.{Frame, MaskingKey, new_frame}
use wlgows.Control.{
  ClosePayload, close_payload_bytes, close_protocol_error, decode_close_payload, get_close_payload,
  new_control_frame,
}
use wlgows.Read.Laws.{wire}
use wlgows.Step.{Step, returned, stopped, within}
use wlgows.Writer.Laws.{healthy}
use wlgows.Conn.{Conn, validate_send_frame, buffered_write_frame, send_frame}
use wlgows.Conn.Write.{sent_frame, behind, IsReady, send_frame-wire}
use wlgows.Conn.Send.{send_built, send_close, send_pong}
use wlgows.Listener.{Hook, Listener, zero_config, new_listener, set_config, validate_close_payload}
use wlgows.Listener.Run.{pause_listen}

-- The hooks that NewStandardListener sets, told apart by a number.
abbrev pub ping_hook : Hook
ping_hook = 0

abbrev pub pong_hook : Hook
pong_hook = 1

abbrev pub close_hook : Hook
close_hook = 2

abbrev pub unknown_hook : Hook
unknown_hook = 3

unfoldable pub new_standard_listener : Conn → Listener
unfolding new_listener set_config
new_standard_listener c =
    set_config
      (record zero_config {
        peer_is_client = not c.mask_send_frame;
        ping = some ping_hook;
        pong = some pong_hook;
        close = some close_hook;
        unknown = some unknown_hook;
      })
      (new_listener true)

-- A call whose error the hook does not look at; one that never returns stops the hook.
abbrev pub ignoring {ℓ} : {S : Type ℓ} → Step S → Step S
ignoring (returned e s) = returned none s
ignoring (stopped x) = stopped x

unfoldable pub rfc6455_ping_hook : Frame → Conn → Step Conn
unfolding send_pong
rfc6455_ping_hook ping_frame c = ignoring (send_pong ping_frame.payload_data c)

unfoldable pub rfc6455_pong_hook : Frame → Conn → Step Conn
rfc6455_pong_hook pong_frame c = returned none c

-- payload, _ := close_frame.GetClosePayload(): nil where there is an error
unfoldable pub payload_of : Result (Option ClosePayload) → Option ClosePayload
payload_of (ok p) = p
payload_of (err e) = none

-- What both hooks that answer with a close do behind the send.
abbrev pub answer_and_pause : Listener → Step Conn → Step (Conn × Listener)
answer_and_pause l sent = within (λ (c : Conn). (c, pause_listen none l)) (ignoring sent)

unfoldable pub rfc6455_close_hook : Frame → Conn × Listener → Step (Conn × Listener)
unfolding payload_of
rfc6455_close_hook close_frame s =
    answer_and_pause s.1 (send_close (payload_of (get_close_payload close_frame)) s.0)

unfoldable pub rfc6455_unknown_hook : Frame → Conn × Listener → Step (Conn × Listener)
rfc6455_unknown_hook unknown_frame s =
    answer_and_pause s.1
      (send_close (some (record { status_code = close_protocol_error; reason = [] })) s.0)
