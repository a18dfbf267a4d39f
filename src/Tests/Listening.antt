-- ===== src/Tests/Listening.antt =====
-- The listener at concrete inputs.
use wlgows.Base.{
  ◌<◌, ℕ, ◌+◌, ◌≤◌, ◌≡◌, ◌⊎◌, ◌↔◌, refl, true, false, none, some, List, [], ◌∷◌, ◌++◌, map, arith,
  inl, inr, if◌then◌else◌, All,
}
use wlgows.Errors.{ok, sentinel, listener_is_listening, invalid_utf8}
use wlgows.Opcode.{is_data_opcode, is_control_opcode}
use wlgows.Message.{Frames}
use wlgows.Message.Laws.{payload}
use wlgows.Utf8.{utf8_valid}
use wlgows.Listener.{
  Call, frames_call, Listener, ListenerConfig, zero_config, validate_frame, next_frame_byte_limit,
  reset_current_data_frames,
}
use wlgows.Listener.Rules.{IsLegal, validate_frame-IsLegal, next_frame_byte_limit_bounds}
use wlgows.Listener.Route.{route_frame}
use wlgows.Listener.Route.Assembly.{IsIdle, IsAssembling, SameAssembly, route_frame-SameAssembly}
use wlgows.Listener.Route.Budget.{IsWithin, route_frame-IsAssembling, route_frame-IsWithin}
use wlgows.Listener.Run.{
  Request, pause_with, call, finished, claim_listen, pause_listen, poll_pause, listen_frames,
  set_config_to, serve_all, listen,
}
use wlgows.Listener.Run.Hooks.{call-SameAssembly}
use wlgows.Listener.Run.Loop.{open_chan, quiet}
use wlgows.Listener.Run.Delivery.{IsClean, IsMessage, HasRoomFor, held}
use wlgows.Listener.Run.Messages.{listen_frames_text}
use wlgows.Listener.Run.Claim.{
  claim_listen_exclusive, pause_listen_first, stale_release_stops_next_run,
}
use wlgows.Tests.Data.{hello_frame}

-- A server's listener with both budgets set and a hook for each kind of message.
abbrev config : ListenerConfig
config = record zero_config {
  max_msg_payload_byte_len = 1000;
  max_msg_frame_count = 10;
  peer_is_client = true;
  text = some 7;
  binary = some 8;
}

abbrev unclaimed : Listener
unclaimed = record {
  has_conn = true;
  config = config;
  current_data_frames = [];
  current_data_frame_count = 0;
  current_data_acc_length = 0;
  current_data_frame_opcode = 0;
  chans = [];
  pause_chan = none;
}

abbrev claimed : Listener
claimed = record unclaimed { chans = open_chan ∷ []; pause_chan = some 0 }

abbrev no_requests : Call → List Request
no_requests c = []

-- "Hello" in three fragments, one of them empty.
abbrev fragments : ℕ → Frames
fragments opcode =
    record hello_frame { fin = false; opcode = opcode }
    ∷ record hello_frame { fin = false; opcode = 0; payload_data = [] }
    ∷ record hello_frame { opcode = 0 }
    ∷ []

idle : IsIdle claimed
idle = (refl, refl, refl, refl)

fragment_clean : ((false ≡ false) × (false ≡ false) × (false ≡ false)) × (true ≡ true)
fragment_clean = ((refl, refl, refl), refl)

fragments-IsClean : (opcode : ℕ) → All (IsClean true) (fragments opcode)
fragments-IsClean opcode = (fragment_clean, (fragment_clean, (fragment_clean, tt)))

fragments-HasRoomFor : (opcode : ℕ) → HasRoomFor (fragments opcode) claimed
unfolding payload
fragments-HasRoomFor opcode = ((inr (omega arith), omega arith), (inr (omega arith), omega arith))

fragments-IsMessage : (opcode : ℕ) → IsMessage opcode (fragments opcode)
fragments-IsMessage opcode = (refl, refl, (refl, refl, (refl, refl)))

listen_frames_text_example :
    (listen_frames no_requests 0 (map quiet (fragments 1) ++ []) claimed ≡ (
      if utf8_valid (payload (fragments 1))
      then listen_frames no_requests 0 [] (
          call no_requests (frames_call 7 (held (fragments 1))) (reset_current_data_frames claimed))
      else finished (some (sentinel invalid_utf8)) (reset_current_data_frames claimed)))
    × (payload (held (fragments 1)) ≡ payload (fragments 1))
listen_frames_text_example =
    listen_frames_text no_requests 0 [] claimed (fragments 1) 7 refl idle refl (fragments-IsClean 1)
      (fragments-HasRoomFor 1) refl (fragments-IsMessage 1)

validate_frame-IsLegal_example :
    (validate_frame claimed hello_frame ≡ none) ↔ IsLegal claimed hello_frame
validate_frame-IsLegal_example = validate_frame-IsLegal claimed hello_frame

-- A budget that was lowered below what the message holds already.
abbrev lowered : Listener
lowered = record claimed {
  config = record config { max_msg_payload_byte_len = 1000 };
  current_data_frame_count = 1;
  current_data_acc_length = 5000;
}

next_frame_byte_limit_bounds_example :
    let budget = lowered.config.max_msg_payload_byte_len in
    ((next_frame_byte_limit lowered ≡ 0) ↔ (budget ≡ 0))
    × ((budget ≡ 0)
        ⊎ ((125 ≤ next_frame_byte_limit lowered)
            × ((next_frame_byte_limit lowered ≡ 125)
                ⊎ (5000 + next_frame_byte_limit lowered ≡ budget))))
next_frame_byte_limit_bounds_example = next_frame_byte_limit_bounds lowered (omega arith)

-- Hooks that pause the listener they are called from.
abbrev pausing : Call → List Request
pausing c = pause_with none ∷ []

first_fragment_passes : validate_frame claimed (record hello_frame { fin = false }) ≡ none
unfolding validate_frame is_control_opcode is_data_opcode
first_fragment_passes = ground arith

route_frame-IsAssembling_example :
    IsAssembling (route_frame (call pausing) (record hello_frame { fin = false }) claimed).1
route_frame-IsAssembling_example =
    route_frame-IsAssembling (call pausing) (call-SameAssembly pausing)
      (record hello_frame { fin = false }) claimed (inl idle) first_fragment_passes (omega arith)
      (omega arith)

route_frame-IsWithin_example :
    IsWithin 1000 10 (route_frame (call pausing) (record hello_frame { fin = false }) claimed).1
route_frame-IsWithin_example =
    route_frame-IsWithin (call pausing) (call-SameAssembly pausing) 1000 10
      (record hello_frame { fin = false }) claimed refl refl (omega arith) (omega arith)
      (omega arith)

ping_data : is_data_opcode 9 ≡ false
unfolding is_data_opcode
ping_data = refl

route_frame-SameAssembly_example :
    SameAssembly (route_frame (call pausing) (record hello_frame { opcode = 9 }) claimed).1 claimed
route_frame-SameAssembly_example =
    route_frame-SameAssembly (call pausing) (call-SameAssembly pausing)
      (record hello_frame { opcode = 9 }) claimed ping_data

claim : claim_listen unclaimed ≡ (ok 0, claimed)
unfolding claim_listen
claim = refl

abbrev slower : ListenerConfig
slower = record config { frame_read_timeout = 60 }

-- The configuration is replaced while the run lasts.
abbrev reset_running : Listener
reset_running = serve_all (set_config_to slower ∷ []) claimed

claim_listen_exclusive_example :
    (unclaimed.pause_chan ≡ none)
    × (unclaimed.has_conn ≡ true)
    × ((poll_pause 0 reset_running).0 ≡ none)
    × (listen no_requests [] reset_running
        ≡ finished (some (sentinel listener_is_listening)) reset_running)
    × (d : ℕ) × (m : Listener) × (claim_listen (pause_listen none reset_running) ≡ (ok d, m))
    × (0 < d)
claim_listen_exclusive_example =
    claim_listen_exclusive unclaimed claimed 0 (set_config_to slower ∷ []) no_requests [] none claim
      (tt, tt)

pause_listen_first_example :
    ((poll_pause 0 (pause_listen (some (sentinel invalid_utf8)) claimed)).0
      ≡ some (some (sentinel invalid_utf8)))
    × ((pause_listen (some (sentinel invalid_utf8)) claimed).pause_chan ≡ none)
    × (pause_listen none (pause_listen (some (sentinel invalid_utf8)) claimed)
        ≡ pause_listen (some (sentinel invalid_utf8)) claimed)
pause_listen_first_example =
    pause_listen_first 0 (some (sentinel invalid_utf8)) none claimed (refl, refl)

stale_release_stops_next_run_example :
    (d : ℕ) × (m : Listener) × (claim_listen (pause_listen none claimed) ≡ (ok d, m))
    × ((poll_pause d m).0 ≡ none)
    × ((poll_pause d (pause_listen none m)).0 ≡ some none)
    × ((pause_listen none m).pause_chan ≡ none)
stale_release_stops_next_run_example = stale_release_stops_next_run 0 none claimed (refl, refl) refl
