-- ===== src/Errors.antt =====
-- Errors.go: the sentinel errors, what wraps them, and errors.Is. The text of a message is not
-- modelled: a wrapped error keeps the values that its format prints.
use wlgows.Base.Bytes.{Bytes}
use wlgows.Base.{ℕ, Bool, false, ◌||◌, ◌==◌, Option, none, some}

pub data Sentinel : Type 0 where
  frame_byte_length_exceeded : Sentinel
  control_frame_payload_too_long : Sentinel
  not_control_frame_opcode : Sentinel
  not_data_frame_opcode : Sentinel
  not_close_frame_opcode : Sentinel
  close_payload_too_short : Sentinel
  listener_is_listening : Sentinel
  listener_conn_is_nil : Sentinel
  continuation_frame_without_msg : Sentinel
  data_frame_during_msg : Sentinel
  invalid_utf8 : Sentinel
  invalid_close_status_code : Sentinel
  msg_frame_count_exceeded : Sentinel
  reserved_bits_set : Sentinel
  control_frame_fragmented : Sentinel
  frame_not_masked : Sentinel
  frame_masked : Sentinel
  long_data_transmission_not_started : Sentinel
  close_already_sent : Sentinel
  http_msg_formation_invalid : Sentinel
  http_method_not_allowed : Sentinel
  http_protocol_or_version_not_allowed : Sentinel
  http_sec_websocket_key_header_not_set : Sentinel
  http_connection_header_not_upgrade : Sentinel
  http_upgrade_header_not_websocket : Sentinel
  http_sec_websocket_version_not_supported : Sentinel
  http_request_has_response : Sentinel
  handshake_request_nil : Sentinel
  handshake_response_status_code_invalid : Sentinel
  handshake_response_proto_invalid : Sentinel
  handshake_response_connection_header_invalid : Sentinel
  handshake_response_upgrade_header_invalid : Sentinel
  handshake_response_accept_header_missing : Sentinel
  handshake_response_accept_header_mismatch : Sentinel
  handshake_response_nil : Sentinel

-- Each `errors.New` is a value of its own: the sentinels are told apart by a number.
abbrev pub identity : Sentinel → ℕ
identity frame_byte_length_exceeded = 0
identity control_frame_payload_too_long = 1
identity not_control_frame_opcode = 2
identity not_data_frame_opcode = 3
identity not_close_frame_opcode = 4
identity close_payload_too_short = 5
identity listener_is_listening = 6
identity listener_conn_is_nil = 7
identity continuation_frame_without_msg = 8
identity data_frame_during_msg = 9
identity invalid_utf8 = 10
identity invalid_close_status_code = 11
identity msg_frame_count_exceeded = 12
identity reserved_bits_set = 13
identity control_frame_fragmented = 14
identity frame_not_masked = 15
identity frame_masked = 16
identity long_data_transmission_not_started = 17
identity close_already_sent = 18
identity http_msg_formation_invalid = 19
identity http_method_not_allowed = 20
identity http_protocol_or_version_not_allowed = 21
identity http_sec_websocket_key_header_not_set = 22
identity http_connection_header_not_upgrade = 23
identity http_upgrade_header_not_websocket = 24
identity http_sec_websocket_version_not_supported = 25
identity http_request_has_response = 26
identity handshake_request_nil = 27
identity handshake_response_status_code_invalid = 28
identity handshake_response_proto_invalid = 29
identity handshake_response_connection_header_invalid = 30
identity handshake_response_upgrade_header_invalid = 31
identity handshake_response_accept_header_missing = 32
identity handshake_response_accept_header_mismatch = 33
identity handshake_response_nil = 34

-- Errors of the packages below: io's, and those of a connection, a caller or crypto/rand, which
-- the code only passes on.
pub data External : Type 0 where
  eof : External
  unexpected_eof : External
  short_write : External
  foreign : ℕ → External

-- What a `fmt.Errorf("…: %w", …)` prints in front of the error that it wraps.
pub data Context : Type 0 where
  opcode_is : ℕ → Context
  control_payload_is : ℕ → Context
  header_declares : ℕ → ℕ → Context
  -- a fixed text; a text and the value behind it; the two keys that a client compares
  saying : Bytes → Context
  value_is : Bytes → Bytes → Context
  status_is : ℕ → Context
  accept_is : Bytes → Bytes → Context

pub data Error : Type 0 where
  sentinel : Sentinel → Error
  external : External → Error
  -- errors.New where it is returned: a value of its own
  fresh : Bytes → Error
  wrapped : Context → Error → Error
  -- errors.Join, of two errors and of one beside a nil
  joined : Error → Error → Error
  joined_one : Error → Error

-- errors.Is at a sentinel: it unwraps to any depth.
unfoldable pub error_is : Error → Sentinel → Bool
error_is (sentinel s) t = identity s == identity t
error_is (external x) t = false
error_is (fresh s) t = false
error_is (wrapped c e) t = error_is e t
error_is (joined d e) t = error_is d t || error_is e t
error_is (joined_one e) t = error_is e t

-- errors.Join(first, second), which drops a nil.
unfoldable pub join : Option Error → Error → Error
join none e = joined_one e
join (some d) e = joined d e

-- A call that returns a value or an error.
pub data Result {ℓ} (A : Type ℓ) : Type ℓ where
  ok : A → Result A
  err : Error → Result A
