-- ===== src/Tests/Streams.antt =====
-- A long transmission at concrete inputs, and the theorems at them: a text that is cut inside a rune.
use wlgows.Base.{ℕ, ◌≡◌, refl, true, none, some, List, [], ◌∷◌, ◌++◌, map, arith, inr}
use wlgows.Base.Bytes.{Bytes}
use wlgows.Errors.{ok, eof}
use wlgows.Message.{Frames}
use wlgows.Message.Laws.{payload}
use wlgows.Utf8.{utf8_valid}
use wlgows.Read.Header.{reader}
use wlgows.Writer.Laws.{healthy}
use wlgows.Step.{returned}
use wlgows.Conn.{Conn, conn_over}
use wlgows.Conn.Send.Fragments.{wires}
use wlgows.Conn.Send.Transmission.{transmission, joined}
use wlgows.Listener.{Call, frames_call, Listener, zero_config, reset_current_data_frames}
use wlgows.Listener.Run.{Request, pause_with, call, listen_frames}
use wlgows.Listener.Run.Loop.{open_chan, quiet}
use wlgows.Listener.Run.Delivery.{held}
use wlgows.Peer.{Reads}
use wlgows.Peer.Stream.{CanStream, transmission_reaches_hook}
use wlgows.Tests.Data.{key, key-IsKey}

abbrev client : Conn
client =
    conn_over (record { pending = []; ending = eof }) true (λ _. ok key) (healthy 16 [] (5 ∷ []))

abbrev pieces : List Bytes
pieces = (0x48 ∷ 0xC3 ∷ []) ∷ [] ∷ (0xA9 ∷ []) ∷ []

abbrev last : Bytes
last = 0x21 ∷ []

abbrev server : Listener
server = record {
  has_conn = true;
  config = record zero_config {
    max_msg_payload_byte_len = 1000;
    max_msg_frame_count = 10;
    peer_is_client = true;
    text = some 7;
  };
  current_data_frames = [];
  current_data_frame_count = 0;
  current_data_acc_length = 0;
  current_data_frame_opcode = 0;
  chans = open_chan ∷ [];
  pause_chan = some 0;
}

abbrev pausing : Call → List Request
pausing c = pause_with none ∷ []

pieces-CanStream : CanStream client (λ _. key) 16 0 server pieces last
pieces-CanStream = record {
  can = record {
    key = λ _. key-IsKey;
    drawn = inr (λ _. refl);
    size = omega arith;
    unclosed = refl;
  };
  unlocked = refl;
  fresh = refl;
  pieces = omega arith;
  last_piece = omega arith;
  size = omega arith;
  number = omega arith;
  listening = refl;
  idle = (refl, refl, refl, refl);
  no_data_hook = refl;
  sides = refl;
  payload_budget = inr (omega arith);
  frame_budget = inr (omega arith);
}

joined_valid : utf8_valid (joined pieces last) ≡ true
unfolding utf8_valid
joined_valid = refl

transmission_reaches_hook_example :
    (fs : Frames) × (draws : ℕ) × (transmission 1 pieces last client
      ≡ returned none (record client { draws = draws; out = healthy 16 [] ((5 ∷ []) ++ wires fs) }))
    × Reads 125 (reader (wires fs ++ 9 ∷ []) eof) fs (reader (9 ∷ []) eof)
    × (listen_frames pausing 0 (map quiet fs ++ []) server
        ≡ listen_frames pausing 0 []
            (call pausing (frames_call 7 (held fs)) (reset_current_data_frames server)))
    × (payload (held fs) ≡ joined pieces last)
transmission_reaches_hook_example =
    transmission_reaches_hook client (λ _. key) 16 0 server (5 ∷ []) pausing [] 7 pieces last 125
      (9 ∷ []) eof refl pieces-CanStream (inr (omega arith)) joined_valid refl
