-- ===== src/Tests/Answers.antt =====
-- The answers to errors, pings and closes at concrete inputs.
use wlgows.Base.{◌≡◌, refl, true, false, none, some, List, [], ◌∷◌, ◌++◌, arith, inl}
use wlgows.Base.Bytes.{IsBytes}
use wlgows.Errors.{eof, ok}
use wlgows.Opcode.{opcode_pong}
use wlgows.Frame.{Frame, new_frame}
use wlgows.CloseAnswer.{IsAnswered, IsProtocolError, refusals-IsAnswered}
use wlgows.Read.Laws.{wire}
use wlgows.Step.{returned}
use wlgows.Writer.Laws.{healthy}
use wlgows.Conn.{Conn, conn_over}
use wlgows.Conn.Write.{sent_frame, behind, IsReady}
use wlgows.Listener.{
  Call, Listener, zero_config, validate_frame, validate_close_payload, valid_close_status_code,
}
use wlgows.Listener.Route.{route_frame}
use wlgows.Listener.Run.{Request, pause_with, call, pause_listen}
use wlgows.Listener.Run.Loop.{open_chan}
use wlgows.StandardListener.{rfc6455_close_hook, rfc6455_ping_hook}
use wlgows.StandardListener.Answers.{close_frame, rfc6455_close_hook-wire, rfc6455_ping_hook-wire}
use wlgows.Utf8.{utf8_valid}
use wlgows.Tests.Data.{key, hello, hello_frame, key-IsKey, hello-IsBytes}

abbrev listener : Listener
listener = record {
  has_conn = true;
  config = record zero_config { peer_is_client = true };
  current_data_frames = [];
  current_data_frame_count = 0;
  current_data_acc_length = 0;
  current_data_frame_opcode = 0;
  chans = open_chan ∷ [];
  pause_chan = some 0;
}

abbrev pausing : Call → List Request
pausing c = pause_with none ∷ []

-- A server with nothing buffered.
abbrev server : Conn
server = conn_over (record { pending = []; ending = eof }) false (λ _. ok key) (healthy 16 [] [])

server-IsReady : IsReady server key 16 [] []
server-IsReady = record {
  out = refl;
  size = omega arith;
  fits = omega arith;
  key = key-IsKey;
  drawn = inl refl;
}

-- Status 1000 and a reason.
abbrev bye : Frame
bye = record hello_frame { opcode = 8; payload_data = 3 ∷ 232 ∷ 98 ∷ 121 ∷ 101 ∷ [] }

bye-IsBytes : IsBytes bye.payload_data
bye-IsBytes = omega arith

bye_valid : validate_close_payload bye.payload_data ≡ none
unfolding validate_close_payload valid_close_status_code utf8_valid
bye_valid = refl

refusals-IsAnswered_example :
    IsProtocolError (validate_frame listener bye)
    × IsAnswered (route_frame (call pausing) bye listener).0
refusals-IsAnswered_example = refusals-IsAnswered (call pausing) listener bye

rfc6455_close_hook-wire_example :
    let g = sent_frame false key (close_frame bye.payload_data) in
    rfc6455_close_hook bye (server, listener)
    ≡ returned none (
      record (behind false server (healthy 16 [] (([] ++ []) ++ wire g))) { close_sent = true },
      pause_listen none listener,
    )
rfc6455_close_hook-wire_example =
    rfc6455_close_hook-wire bye server listener bye-IsBytes refl (omega arith) bye_valid key 16 []
      [] server-IsReady refl

rfc6455_ping_hook-wire_example :
    let g =
      sent_frame false key
        (new_frame (record { payload_data = hello; opcode = opcode_pong; fin = true })) in
    rfc6455_ping_hook (record hello_frame { opcode = 9 }) server
    ≡ returned none
        (record (behind false server (healthy 16 [] (([] ++ []) ++ wire g))) { close_sent = false })
rfc6455_ping_hook-wire_example =
    rfc6455_ping_hook-wire (record hello_frame { opcode = 9 }) server key 16 [] [] server-IsReady
      hello-IsBytes (omega arith)
