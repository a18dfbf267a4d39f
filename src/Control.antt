-- ===== src/Control.antt =====
-- FrameControl.go and FrameData.go: the checked constructors of a control and of a data frame,
-- and the body of a close frame.
pub mod Close
use wlgows.Base.{
  ℕ, suc, ◌+◌, ◌%◌, ◌^◌, Bool, true, not, Option, none, some, List, [], ◌∷◌, ◌++◌, ltb, ◌==◌,
  length, if◌then◌else◌,
}
use wlgows.Base.Bytes.{Bytes, be_uint, put_be_uint}
use wlgows.Errors.{
  Error, Result, ok, err, sentinel, wrapped, opcode_is, control_payload_is,
  not_control_frame_opcode, control_frame_payload_too_long, not_data_frame_opcode,
  not_close_frame_opcode, close_payload_too_short,
}
use wlgows.Opcode.{is_control_opcode, is_data_opcode, opcode_close}
use wlgows.Frame.{Frame, NewFrameConfig, new_frame}

abbrev pub control_frame_payload_max_byte_length : ℕ
control_frame_payload_max_byte_length = 125

pub record NewControlFrameConfig : Type 0 where
  pub opcode : ℕ
  pub payload_data : Bytes

unfoldable pub new_control_frame : NewControlFrameConfig → Result Frame
new_control_frame config =
    if not (is_control_opcode config.opcode)
    then err (wrapped (opcode_is config.opcode) (sentinel not_control_frame_opcode))
    else if ltb control_frame_payload_max_byte_length (length config.payload_data)
    then err (
        wrapped (control_payload_is (length config.payload_data))
          (sentinel control_frame_payload_too_long))
    else ok (
        new_frame
          (record { payload_data = config.payload_data; opcode = config.opcode; fin = true }))

unfoldable pub new_data_frame : NewFrameConfig → Result Frame
new_data_frame config =
    if not (is_data_opcode config.opcode)
    then err (wrapped (opcode_is config.opcode) (sentinel not_data_frame_opcode))
    else ok (new_frame config)

-- Close status codes from RFC 6455 7.4.1.
abbrev pub close_normal_closure : ℕ
close_normal_closure = 1000

abbrev pub close_going_away : ℕ
close_going_away = 1001

abbrev pub close_protocol_error : ℕ
close_protocol_error = 1002

abbrev pub close_unsupported_data : ℕ
close_unsupported_data = 1003

abbrev pub close_invalid_frame_payload_data : ℕ
close_invalid_frame_payload_data = 1007

abbrev pub close_policy_violation : ℕ
close_policy_violation = 1008

abbrev pub close_message_too_big : ℕ
close_message_too_big = 1009

abbrev pub close_mandatory_extension : ℕ
close_mandatory_extension = 1010

abbrev pub close_internal_server_err : ℕ
close_internal_server_err = 1011

-- The code calls this through a pointer, and nil stands for no body: `Option ClosePayload`.
pub record ClosePayload : Type 0 where
  pub status_code : ℕ
  pub reason : Bytes

unfoldable pub close_payload_bytes : Option ClosePayload → Bytes
close_payload_bytes none = []
close_payload_bytes (some c) = put_be_uint 2 c.status_code ++ c.reason

-- The switch on the payload's length.
unfoldable pub decode_close_payload : Bytes → Result (Option ClosePayload)
decode_close_payload [] = ok none
decode_close_payload (b ∷ []) = err (sentinel close_payload_too_short)
decode_close_payload (b0 ∷ b1 ∷ reason) =
    ok (some (record { status_code = be_uint (b0 ∷ b1 ∷ []); reason = reason }))

unfoldable pub get_close_payload : Frame → Result (Option ClosePayload)
unfolding decode_close_payload
get_close_payload f =
    if not (f.opcode == opcode_close)
    then err (wrapped (opcode_is f.opcode) (sentinel not_close_frame_opcode))
    else decode_close_payload f.payload_data
