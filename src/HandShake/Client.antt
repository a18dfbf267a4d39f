-- ===== src/HandShake/Client.antt =====
-- HandShakeClient.go: the client's half of the opening handshake.
pub mod Rules
pub mod Answer
pub mod Message
use wlgows.Base.{ℕ, Bool, true, not, Option, none, some, [], ◌∷◌, replicate, ◌==◌, if◌then◌else◌}
use wlgows.Base.Bytes.{Bytes}
use wlgows.Errors.{
  Error, Result, ok, err, sentinel, wrapped, saying, value_is, status_is, accept_is,
  handshake_request_nil, handshake_response_status_code_invalid, handshake_response_proto_invalid,
  handshake_response_connection_header_invalid, handshake_response_upgrade_header_invalid,
  handshake_response_accept_header_missing, handshake_response_accept_header_mismatch,
}
use wlgows.Frame.{MaskingKey}
use wlgows.Read.{Reader}
use wlgows.Step.{Step}
use wlgows.Writer.{Wire, Out}
use wlgows.Conn.{Conn}
use wlgows.Http.{Request, Response, Platform}
use wlgows.Http.Text.{codes, same, join_values}
use wlgows.Http.Fields.{Header, get, set, values}
use wlgows.Http.Base64.{encode}
use wlgows.HandShake.Token.{header_has_token}
use wlgows.HandShake.Respond.{
  generate_sec_websocket_accept, is_empty, connection, upgrade, sec_websocket_key,
  sec_websocket_version, sec_websocket_accept,
}
use wlgows.HandShake.Outcome.{Shaken, conn_unless}
use wlgows.HandShake.Print.{request_to_plain_http_msg, send_message}

-- Sixteen bytes of crypto/rand; its error is dropped.
unfoldable pub generate_web_socket_key : Platform → Bytes
generate_web_socket_key p = encode (p.rand_read (replicate 16 0)).0

-- The four keys differ, so the order in which the loop meets them does not matter.
unfoldable pub upgrade_header : Bytes → Header → Header
upgrade_header key h = set sec_websocket_version (codes "13") (
    set sec_websocket_key key
      (set connection (codes "Upgrade") (set upgrade (codes "websocket") h)))

unfoldable pub upgrade_request : Platform → Option Request → Result Request
unfolding upgrade_header generate_web_socket_key
upgrade_request p none =
    err (wrapped (saying (codes "UpgradeRequest")) (sentinel handshake_request_nil))
upgrade_request p (some req) =
    ok (record req { header = upgrade_header (generate_web_socket_key p) req.header })

-- SendHandShakeRequest, with the request after it.
unfoldable pub send_hand_shake_request :
    Platform → Option Request → Wire → (Option Error × Option Request) × Wire
unfolding request_to_plain_http_msg send_message
send_hand_shake_request p none wire = (
  (some (wrapped (saying (codes "SendHandShakeRequest")) (sentinel handshake_request_nil)), none),
  wire,
)
send_hand_shake_request p (some req) wire =
    let (message, req') = request_to_plain_http_msg p req in
    let (e, wire') = send_message message wire in ((e, some req'), wire')

unfoldable pub read_hand_shake_response :
    Platform → Reader → Option Request → Result Response × Reader
read_hand_shake_response p r none =
    (err (wrapped (saying (codes "ReadHandShakeResponse")) (sentinel handshake_request_nil)), r)
read_hand_shake_response p r (some req) = p.read_response r req

abbrev response_value : Bytes → Bytes → Error → Option Error
response_value what value e =
    some (wrapped (saying (codes "invalid handshake response")) (wrapped (value_is what value) e))

unfoldable pub validate_hand_shake_response : Response → Bytes → Option Error
validate_hand_shake_response res key =
    if not (res.status_code == 101)
    then some
        (wrapped (status_is res.status_code) (sentinel handshake_response_status_code_invalid))
    else if not (same res.proto (codes "HTTP/1.1"))
    then response_value (codes "proto") res.proto (sentinel handshake_response_proto_invalid)
    else if not (header_has_token res.header connection (codes "upgrade"))
    then response_value (codes "header Connection") (join_values (values res.header connection))
        (sentinel handshake_response_connection_header_invalid)
    else if not (header_has_token res.header upgrade (codes "websocket"))
    then response_value (codes "header Upgrade") (join_values (values res.header upgrade))
        (sentinel handshake_response_upgrade_header_invalid)
    else if is_empty (get res.header sec_websocket_accept)
    then some (
        wrapped (saying (codes "invalid handshake response header Sec-WebSocket-Accept"))
          (sentinel handshake_response_accept_header_missing))
    else if not (same (get res.header sec_websocket_accept) (generate_sec_websocket_accept key))
    then some (
        wrapped
          (accept_is (get res.header sec_websocket_accept) (generate_sec_websocket_accept key))
          (sentinel handshake_response_accept_header_mismatch))
    else none

-- req.Header.Get("Sec-WebSocket-Key"); the request is there once it is upgraded.
abbrev pub key_of : Option Request → Bytes
key_of none = []
key_of (some req) = get req.header sec_websocket_key

-- The end of clientHandShake, with the request and the connection as they are then.
unfoldable pub judge_response : Option Request → Wire → Result Response → Shaken
unfolding validate_hand_shake_response
judge_response req wire (err e) = record {
  request = req;
  response = none;
  error = some e;
  wire = wire;
}
judge_response req wire (ok res) = record {
  request = req;
  response = some res;
  error = validate_hand_shake_response res (key_of req);
  wire = wire;
}

unfoldable pub await_response :
    Platform → Reader → (Option Error × Option Request) × Wire → Shaken × Reader
unfolding read_hand_shake_response judge_response
await_response p r ((some e, req), wire) =
    (record { request = req; response = none; error = some e; wire = wire }, r)
await_response p r ((none, req), wire) =
    let (res, r') = read_hand_shake_response p r req in (judge_response req wire res, r')

-- clientHandShake, with the reader behind the response.
unfoldable pub after_upgrade :
    Platform → Reader → Wire → Option Request → Result Request → Shaken × Reader
unfolding send_hand_shake_request await_response
after_upgrade p r wire old (err e) =
    (record { request = old; response = none; error = some e; wire = wire }, r)
after_upgrade p r wire old (ok req) = await_response p r (send_hand_shake_request p (some req) wire)

unfoldable pub client_hand_shake_inner : Platform → Reader → Option Request → Wire → Shaken × Reader
unfolding upgrade_request after_upgrade
client_hand_shake_inner p r req wire = after_upgrade p r wire req (upgrade_request p req)

-- ClientHandShake: the Conn reads on where the response ended.
unfoldable pub client_hand_shake :
    Platform → (ℕ → Result MaskingKey) → Reader → Out → Option Request → Step (Option Conn) × Shaken
unfolding client_hand_shake_inner conn_unless
client_hand_shake p keys r w req =
    let (shaken, r') = client_hand_shake_inner p r req w.wire in
    (conn_unless shaken.error r' (record w { wire = shaken.wire }) true keys, shaken)
