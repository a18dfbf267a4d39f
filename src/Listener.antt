-- ===== src/Listener.antt =====
-- ListenerConfig.go, Listener.go, ListenerRouter.go: the listener's configuration, the message that
-- it is assembling, and what it does with one frame. The locks around the configuration make each
-- read and each replacement of it one step, which a function is.
pub mod Rules
pub mod Route
pub mod Run
use wlgows.Base.{
  ℕ, ◌+◌, ◌-◌, ◌%◌, ◌^◌, max, Bool, true, false, not, ◌&&◌, ◌||◌, Option, none, some, List, [], ◌∷◌,
  ◌++◌, ltb, leb, ◌==◌, length, take, drop, if◌then◌else◌,
}
use wlgows.Base.Bytes.{Bytes, be_uint}
use wlgows.Errors.{
  Sentinel, Error, sentinel, frame_byte_length_exceeded, control_frame_payload_too_long,
  close_payload_too_short, continuation_frame_without_msg, data_frame_during_msg, invalid_utf8,
  invalid_close_status_code, msg_frame_count_exceeded, reserved_bits_set, control_frame_fragmented,
  frame_not_masked, frame_masked,
}
use wlgows.Opcode.{
  is_control_opcode, is_data_opcode, opcode_continuation, opcode_text, opcode_binary, opcode_close,
  opcode_ping, opcode_pong,
}
use wlgows.Frame.{Frame}
use wlgows.Control.{control_frame_payload_max_byte_length}
use wlgows.Message.{Frames, bytes}
use wlgows.Utf8.{utf8_valid}

-- A hook is a function value of the caller: the code compares it to nil, and calls it.
abbrev pub Hook : Type 0
Hook = ℕ

-- A call of a hook, with its argument.
pub data Call : Type 0 where
  frame_call : Hook → Frame → Call
  frames_call : Hook → Frames → Call

-- A duration below 0 means no timeout, as 0 does.
pub record ListenerConfig : Type 0 where
  pub frame_read_timeout : ℕ
  pub max_msg_payload_byte_len : ℕ
  pub max_msg_frame_count : ℕ
  pub peer_is_client : Bool
  pub ping : Option Hook
  pub pong : Option Hook
  pub close : Option Hook
  pub data_hook : Option Hook
  pub text : Option Hook
  pub binary : Option Hook
  pub unknown : Option Hook

-- A `chan error` with room for one: what waits in it, and whether it is closed.
pub record Chan : Type 0 where
  pub held : Option Error
  pub closed : Bool

-- Channels are shared by reference: `pause_chan` is the place of one in `chans`, which holds all
-- that were made. `has_conn` says that conn is not nil.
pub record Listener : Type 0 where
  pub has_conn : Bool
  pub config : ListenerConfig
  pub current_data_frames : Frames
  pub current_data_frame_count : ℕ
  pub current_data_acc_length : ℕ
  pub current_data_frame_opcode : ℕ
  pub chans : List Chan
  pub pause_chan : Option ℕ

abbrev pub zero_config : ListenerConfig
zero_config = record {
  frame_read_timeout = 0;
  max_msg_payload_byte_len = 0;
  max_msg_frame_count = 0;
  peer_is_client = false;
  ping = none;
  pong = none;
  close = none;
  data_hook = none;
  text = none;
  binary = none;
  unknown = none;
}

unfoldable pub new_listener : Bool → Listener
new_listener has_conn = record {
  has_conn = has_conn;
  config = zero_config;
  current_data_frames = [];
  current_data_frame_count = 0;
  current_data_acc_length = 0;
  current_data_frame_opcode = 0;
  chans = [];
  pause_chan = none;
}

unfoldable pub get_config : Listener → ListenerConfig
get_config l = l.config

unfoldable pub set_config : ListenerConfig → Listener → Listener
set_config config l = record l { config = config }

unfoldable pub get_current_msg_opcode : Listener → ℕ
get_current_msg_opcode l = l.current_data_frame_opcode

-- `a - b` on uint64, which wraps.
abbrev pub minus_uint64 : ℕ → ℕ → ℕ
minus_uint64 a b = (a + 2 ^ 64 - b) % 2 ^ 64

unfoldable pub next_frame_byte_limit : Listener → ℕ
unfolding get_config
next_frame_byte_limit l =
    let max_len = (get_config l).max_msg_payload_byte_len in
    if max_len == 0
    then 0
    else if ltb max_len l.current_data_acc_length
    then control_frame_payload_max_byte_length
    else max (minus_uint64 max_len l.current_data_acc_length) control_frame_payload_max_byte_length

-- a != b on bool
abbrev pub differs : Bool → Bool → Bool
differs true b = not b
differs false b = b

unfoldable pub validate_frame : Listener → Frame → Option Error
unfolding get_config
validate_frame l f =
    let peer_is_client = (get_config l).peer_is_client in
    if f.rsv1 || (f.rsv2 || f.rsv3)
    then some (sentinel reserved_bits_set)
    else if differs f.mask peer_is_client
    then (if peer_is_client then some (sentinel frame_not_masked) else some (sentinel frame_masked))
    else if is_control_opcode f.opcode
    then (if not f.fin
        then some (sentinel control_frame_fragmented)
        else if ltb control_frame_payload_max_byte_length (length f.payload_data)
        then some (sentinel control_frame_payload_too_long)
        else none)
    else if not (is_data_opcode f.opcode)
    then none
    else if ltb 0 l.current_data_frame_count
    then (if not (f.opcode == opcode_continuation)
        then some (sentinel data_frame_during_msg)
        else none)
    else if f.opcode == opcode_continuation
    then some (sentinel continuation_frame_without_msg)
    else none

unfoldable pub valid_close_status_code : ℕ → Bool
valid_close_status_code status_code =
    if leb 3000 status_code && leb status_code 4999
    then true
    else if leb 1000 status_code && leb status_code 1015
    then not (status_code == 1004)
      && (not (status_code == 1005) && (not (status_code == 1006) && not (status_code == 1015)))
    else false

unfoldable pub validate_close_payload : Bytes → Option Error
validate_close_payload payload =
    if length payload == 1
    then some (sentinel close_payload_too_short)
    else if leb 2 (length payload) && not (valid_close_status_code (be_uint (take 2 payload)))
    then some (sentinel invalid_close_status_code)
    else if ltb 2 (length payload) && not (utf8_valid (drop 2 payload))
    then some (sentinel invalid_utf8)
    else none

unfoldable pub valid_text_utf8 : Frames → Bool
valid_text_utf8 (f ∷ []) = utf8_valid f.payload_data
valid_text_utf8 frames = utf8_valid (bytes frames)

unfoldable pub reset_current_data_frames : Listener → Listener
reset_current_data_frames l = record l {
  current_data_frames = [];
  current_data_frame_count = 0;
  current_data_acc_length = 0;
  current_data_frame_opcode = opcode_continuation;
}
