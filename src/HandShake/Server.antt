-- ===== src/HandShake/Server.antt =====
-- HandShakeServer.go: the server's half of the opening handshake.
pub mod Answer
pub mod Length
pub mod Message
pub mod Rules
pub mod Verdicts
use wlgows.Base.{ℕ, Bool, true, false, not, Option, none, some, [], ◌∷◌, ◌++◌, if◌then◌else◌}
use wlgows.Base.Bytes.{Bytes}
use wlgows.Errors.{
  Error, Result, sentinel, wrapped, saying, value_is, handshake_request_nil, handshake_response_nil,
  http_method_not_allowed, http_protocol_or_version_not_allowed,
  http_sec_websocket_key_header_not_set, http_connection_header_not_upgrade,
  http_upgrade_header_not_websocket, http_sec_websocket_version_not_supported,
}
use wlgows.Frame.{MaskingKey}
use wlgows.Read.{Reader}
use wlgows.Step.{Step}
use wlgows.Writer.{Wire, Out}
use wlgows.Conn.{Conn}
use wlgows.Http.{Request, Response, Platform}
use wlgows.Http.Text.{codes, same, join_values}
use wlgows.Http.Fields.{get, values}
use wlgows.HandShake.Token.{header_has_token}
use wlgows.HandShake.Respond.{
  ResponseWriter, new_response_writer, decline_by_error, upgrade_for_websocket, generate_response,
  is_empty, connection, upgrade, sec_websocket_key, sec_websocket_version,
}
use wlgows.HandShake.Outcome.{Shaken, conn_unless}
use wlgows.HandShake.Print.{response_to_plain_http_msg, send_message}

-- "validate handshake: " and the value that the format prints before the sentinel.
abbrev pub refused : Error → Error
refused e = wrapped (saying (codes "validate handshake")) e

abbrev pub refused_value : Bytes → Bytes → Error → Error
refused_value what value e = refused (wrapped (value_is what value) e)

unfoldable pub validate_hand_shake_request : Request → Option Error
validate_hand_shake_request r =
    if not (same r.method (codes "GET"))
    then some (refused_value (codes "method") r.method (sentinel http_method_not_allowed))
    else if not (same r.proto (codes "HTTP/1.1"))
    then some
        (refused_value (codes "protocol") r.proto (sentinel http_protocol_or_version_not_allowed))
    else if is_empty (get r.header sec_websocket_key)
    then some (refused (sentinel http_sec_websocket_key_header_not_set))
    else if not (header_has_token r.header connection (codes "upgrade"))
    then some (
        refused_value connection (join_values (values r.header connection))
          (sentinel http_connection_header_not_upgrade))
    else if not (header_has_token r.header upgrade (codes "websocket"))
    then some (
        refused_value upgrade (join_values (values r.header upgrade))
          (sentinel http_upgrade_header_not_websocket))
    else if not (same (get r.header sec_websocket_version) (codes "13"))
    then some (
        refused_value sec_websocket_version (get r.header sec_websocket_version)
          (sentinel http_sec_websocket_version_not_supported))
    else none

-- SendHandShakeResponse, with the response after it: its body is read and closed.
unfoldable pub send_hand_shake_response :
    Platform → Option Response → Wire → (Option Error × Option Response) × Wire
unfolding response_to_plain_http_msg send_message
send_hand_shake_response p none wire = (
  (some (wrapped (saying (codes "SendHandShakeResponse")) (sentinel handshake_response_nil)), none),
  wire,
)
send_hand_shake_response p (some res) wire =
    let (message, res') = response_to_plain_http_msg p res in
    let (e, wire') = send_message message wire in ((e, some res'), wire')

-- The answer to a request, by what validation says of it.
unfoldable pub answer_to : Platform → Request → Option Error → ResponseWriter
unfolding decline_by_error upgrade_for_websocket
answer_to p req (some e) = decline_by_error (p.error_text e) (some e) new_response_writer
answer_to p req none =
    upgrade_for_websocket (get req.header (codes "Sec-Websocket-Key")) new_response_writer

-- `if err == nil && invalid != nil { err = invalid }`
abbrev pub or_invalid : Option Error → Option Error → Option Error
or_invalid none invalid = invalid
or_invalid (some e) invalid = some e

-- serverHandShake
unfoldable pub server_hand_shake_inner : Platform → Option Request → Wire → Shaken
unfolding validate_hand_shake_request answer_to generate_response send_hand_shake_response
server_hand_shake_inner p none wire = record {
  request = none;
  response = none;
  error = some (wrapped (saying (codes "ServerHandShake")) (sentinel handshake_request_nil));
  wire = wire;
}
server_hand_shake_inner p (some req) wire =
    let invalid = validate_hand_shake_request req in
    let (w, res) = generate_response (answer_to p req invalid) in
    let ((e, res'), wire') = send_hand_shake_response p (some res) wire in
    record {
      request = some (record req { response = res' });
      response = res';
      error = or_invalid e invalid;
      wire = wire';
    }

-- ServerHandShake: `w` writes to the connection that is answered.
unfoldable pub server_hand_shake :
    Platform → (ℕ → Result MaskingKey) → Reader → Out → Option Request → Step (Option Conn) × Shaken
unfolding server_hand_shake_inner conn_unless
server_hand_shake p keys r w req =
    let shaken = server_hand_shake_inner p req w.wire in
    (conn_unless shaken.error r (record w { wire = shaken.wire }) false keys, shaken)
