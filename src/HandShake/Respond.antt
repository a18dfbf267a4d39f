-- ===== src/HandShake/Respond.antt =====
-- ResponseWriter.go: the server's answer to an opening request, a refusal or an upgrade.
pub mod Length
use wlgows.Base.{
  ℕ, Bool, true, false, not, ◌&&◌, ◌||◌, Option, none, some, [], ◌∷◌, ◌++◌, length, if◌then◌else◌,
}
use wlgows.Base.Bytes.{Bytes}
use wlgows.Errors.{
  Error, error_is, http_msg_formation_invalid, http_method_not_allowed,
  http_protocol_or_version_not_allowed, http_sec_websocket_key_header_not_set,
  http_connection_header_not_upgrade, http_upgrade_header_not_websocket,
  http_sec_websocket_version_not_supported,
}
use wlgows.Http.{Response, Body}
use wlgows.Http.Text.{codes, itoa}
use wlgows.Http.Fields.{Header, get, set, add}
use wlgows.Http.Base64.{encode}
use wlgows.Http.Sha1.{sum}

pub record ResponseWriter : Type 0 where
  pub status_code : ℕ
  pub header : Header
  pub body : Bytes

abbrev pub new_response_writer : ResponseWriter
new_response_writer = record { status_code = 0; header = []; body = [] }

-- Write never fails; the count that it returns is the length of `s`.
unfoldable pub write : Bytes → ResponseWriter → ResponseWriter
write s w = record w { body = w.body ++ s }

unfoldable pub write_header : ℕ → ResponseWriter → ResponseWriter
write_header code w = record w { status_code = code }

unfoldable pub add_header : Bytes → Bytes → ResponseWriter → ResponseWriter
add_header key value w = record w { header = add key value w.header }

abbrev pub content_length : Bytes
content_length = codes "Content-Length"

abbrev pub content_type : Bytes
content_type = codes "Content-Type"

abbrev pub sec_websocket_key : Bytes
sec_websocket_key = codes "Sec-WebSocket-Key"

abbrev pub sec_websocket_version : Bytes
sec_websocket_version = codes "Sec-WebSocket-Version"

abbrev pub sec_websocket_accept : Bytes
sec_websocket_accept = codes "Sec-WebSocket-Accept"

abbrev pub connection : Bytes
connection = codes "Connection"

abbrev pub upgrade : Bytes
upgrade = codes "Upgrade"

abbrev pub is_empty : Bytes → Bool
is_empty [] = true
is_empty (c ∷ s) = false

abbrev pub set_if : Bool → Bytes → Bytes → Header → Header
set_if true key value h = set key value h
set_if false key value h = h

-- The defaults that GenerateResponse puts into the header.
unfoldable pub generate_header : Header → Bytes → Header
generate_header h body =
    let sized = set_if (is_empty (get h content_length)) content_length (itoa (length body)) h in
    set_if (not (is_empty body) && is_empty (get sized content_type)) content_type
      (codes "text/plain") sized

-- The header of the response is the writer's own map, so the writer has the defaults too.
unfoldable pub generate_response : ResponseWriter → ResponseWriter × Response
unfolding generate_header
generate_response w =
    let h = generate_header w.header w.body in
    (
      record w { header = h },
      record {
        proto = codes "HTTP/1.1";
        status_code = w.status_code;
        header = h;
        body = some (record { left = w.body; ending = none; closed = false });
      },
    )

-- DeclineByError; `text` is what the error prints, `none` is a nil error.
unfoldable pub decline_by_error : Bytes → Option Error → ResponseWriter → ResponseWriter
unfolding error_is write write_header add_header
decline_by_error text none w = write_header 500 w
decline_by_error text (some e) w =
    if error_is e http_msg_formation_invalid
    then write_header 400 w
    else if error_is e http_method_not_allowed
    then write_header 405 w
    else if error_is e http_protocol_or_version_not_allowed
    then write_header 505 w
    else if error_is e http_sec_websocket_version_not_supported
    then write text (add_header sec_websocket_version (codes "13") (write_header 426 w))
    else if error_is e http_sec_websocket_key_header_not_set
        || error_is e http_connection_header_not_upgrade
        || error_is e http_upgrade_header_not_websocket
    then write text (write_header 400 w)
    else write_header 500 w

abbrev pub accept_guid : Bytes
accept_guid = codes "258EAFA5-E914-47DA-95CA-C5AB0DC85B11"

unfoldable pub generate_sec_websocket_accept : Bytes → Bytes
generate_sec_websocket_accept key = encode (sum (key ++ accept_guid))

-- The four keys differ, so the order in which the loop meets them does not matter.
unfoldable pub upgrade_for_websocket : Bytes → ResponseWriter → ResponseWriter
unfolding write_header add_header
upgrade_for_websocket key w = add_header sec_websocket_accept (generate_sec_websocket_accept key) (
    add_header sec_websocket_version (codes "13") (
      add_header connection (codes "Upgrade")
        (add_header upgrade (codes "websocket") (write_header 101 w))))
