-- ===== src/Tests/Sending.antt =====
-- The sending side, and both ends together, at concrete inputs.
use wlgows.Base.{
  ℕ, suc, ◌≤◌, ◌≡◌, refl, true, false, ◌||◌, none, some, List, [], ◌∷◌, ◌++◌, map, arith, inl, inr,
  ◌==◌, length, All,
}
use wlgows.Errors.{ok, sentinel, external, unexpected_eof, eof, close_already_sent}
use wlgows.Opcode.{is_data_opcode, is_control_opcode, opcode_close}
use wlgows.Frame.{Frame, zero_frame}
use wlgows.Message.{Frames}
use wlgows.Message.Laws.{payload}
use wlgows.Utf8.{utf8_valid}
use wlgows.Step.{returned, Always}
use wlgows.Writer.{Out, fails_after}
use wlgows.Writer.Ends.{Ends}
use wlgows.Conn.Write.Ends.{Kept, send_frame-Ends}
use wlgows.Writer.Laws.{healthy}
use wlgows.Read.Header.{reader}
use wlgows.Read.Laws.{wire}
use wlgows.Conn.{Conn, conn_over, validate_send_frame, send_frame}
use wlgows.Conn.Write.{sent_frame, behind, IsReady, send_frame-wire}
use wlgows.Conn.Closing.{sent_close, send_frame-sent_close}
use wlgows.Conn.Send.{send_data, send_text, start_long_data_transmission}
use wlgows.Conn.Send.Fragments.{wires, IsSent, CanSend}
use wlgows.Conn.Send.Data.{send_data-wires}
use wlgows.Conn.Send.Closed.{close_ends_messages}
use wlgows.Listener.{Call, frames_call, Listener, zero_config, reset_current_data_frames}
use wlgows.Listener.Run.{Request, pause_with, call, listen_frames}
use wlgows.Listener.Run.Loop.{open_chan, quiet}
use wlgows.Listener.Run.Delivery.{IsMessage, held}
use wlgows.Peer.{Reads, CanReach, send_text_reaches_hook}
use wlgows.Tests.Data.{key, hello, key-IsKey, hello-IsBytes}

-- A client with a buffer of 16 bytes, of which 3 are taken.
abbrev out : Out
out = healthy 16 (1 ∷ 2 ∷ 3 ∷ []) []

abbrev client : Conn
client = conn_over (record { pending = []; ending = eof }) true (λ _. ok key) out

abbrev closed : Conn
closed = record client { close_sent = true }

abbrev transmitting : Conn
transmitting = record closed {
  data_frames_locked = true;
  current_transmit_data_msg_opcode = 2;
  current_transmit_data_msg_opened = true;
}

-- The text frame that SendText would build.
abbrev text : Frame
text = record zero_frame { fin = true; opcode = 1; payload_data = hello }

client-IsReady : IsReady client key 16 (1 ∷ 2 ∷ 3 ∷ []) []
client-IsReady = record {
  out = refl;
  size = omega arith;
  fits = omega arith;
  key = key-IsKey;
  drawn = inr refl;
}

text_passes : validate_send_frame text false ≡ none
unfolding validate_send_frame is_data_opcode is_control_opcode
text_passes = refl

client-CanSend : CanSend client (λ _. key) 16
client-CanSend = record {
  key = λ _. key-IsKey;
  drawn = inr (λ _. refl);
  size = omega arith;
  unclosed = refl;
}

send_frame-wire_example :
    let g = sent_frame true key text in
    send_frame text client
    ≡ returned none (
      g,
      record (behind true client (healthy 16 [] (([] ++ (1 ∷ 2 ∷ 3 ∷ [])) ++ wire g))) {
        close_sent = text.opcode == opcode_close || false;
      },
    )
send_frame-wire_example =
    send_frame-wire text client key 16 (1 ∷ 2 ∷ 3 ∷ []) [] client-IsReady hello-IsBytes text_passes

send_frame-sent_close_example :
    Always
      (λ e s. (s.0.opcode ≡ 8) × (s.1.close_sent ≡ sent_close false 8 e))
      (send_frame (record text { opcode = 8; payload_data = [] }) client)
send_frame-sent_close_example =
    send_frame-sent_close (record text { opcode = 8; payload_data = [] }) client

-- A connection that fails two bytes into its first Write.
abbrev failing : Conn
failing = record client {
  out = record out {
    wire = record { sent = []; fates = fails_after 2 (external unexpected_eof) ∷ [] };
  };
}

send_frame-Ends_example : Ends (Kept 16) (send_frame text failing)
send_frame-Ends_example = send_frame-Ends text failing 16 (omega arith) refl (omega arith)

close_ends_messages_example :
    (send_data 1 hello 2 closed ≡ returned (some (sentinel close_already_sent)) closed)
    × (start_long_data_transmission 1 closed ≡ returned (some (sentinel close_already_sent)) closed)
close_ends_messages_example = close_ends_messages closed 1 hello 2 refl refl (inl refl)

-- Chunks of two bytes: three frames.
send_data-wires_example :
    (fs : Frames) × (draws : ℕ) × (send_data 1 hello 2 client
      ≡ returned none (record client {
        draws = draws;
        out = healthy 16 [] (([] ++ (1 ∷ 2 ∷ 3 ∷ [])) ++ wires fs);
      }))
    × IsMessage 1 fs
    × (payload fs ≡ hello)
    × (length fs ≤ suc (length hello))
    × All (IsSent true) fs
send_data-wires_example =
    send_data-wires client (λ _. key) 16 1 hello 2 (1 ∷ 2 ∷ 3 ∷ []) [] client-CanSend refl
      (omega arith) refl (inl refl) hello-IsBytes (omega arith)

-- The server's listener on the other side, which a hook pauses after the message.
abbrev server : Listener
server = record {
  has_conn = true;
  config = record zero_config {
    max_msg_payload_byte_len = 1000;
    peer_is_client = true;
    text = some 7;
    binary = some 8;
  };
  current_data_frames = [];
  current_data_frame_count = 0;
  current_data_acc_length = 0;
  current_data_frame_opcode = 0;
  chans = open_chan ∷ [];
  pause_chan = some 0;
}

abbrev pausing : Call → List Request
pausing c = pause_with none ∷ []

hello-CanReach : CanReach client (λ _. key) 16 0 server hello
hello-CanReach = record {
  can = client-CanSend;
  unlocked = refl;
  bytes = hello-IsBytes;
  size = omega arith;
  listening = refl;
  idle = (refl, refl, refl, refl);
  no_data_hook = refl;
  sides = refl;
  payload_budget = inr (omega arith);
  frame_budget = inl refl;
}

hello_valid : utf8_valid hello ≡ true
unfolding utf8_valid
hello_valid = refl

send_text_reaches_hook_example :
    (fs : Frames) × (draws : ℕ) × (send_text hello 2 client
      ≡ returned none (record client {
        draws = draws;
        out = healthy 16 [] (([] ++ (1 ∷ 2 ∷ 3 ∷ [])) ++ wires fs);
      }))
    × Reads 125 (reader (wires fs ++ (9 ∷ [])) eof) fs (reader (9 ∷ []) eof)
    × (listen_frames pausing 0 (map quiet fs ++ []) server
        ≡ listen_frames pausing 0 []
            (call pausing (frames_call 7 (held fs)) (reset_current_data_frames server)))
    × (payload (held fs) ≡ hello)
send_text_reaches_hook_example =
    send_text_reaches_hook client (λ _. key) 16 0 server (1 ∷ 2 ∷ 3 ∷ []) [] refl (omega arith)
      pausing [] 7 hello 2 hello-CanReach 125 (inr (omega arith)) (9 ∷ []) eof hello_valid refl
