-- ===== src/HandShake/Print.antt =====
-- How HandShakeServer.go and HandShakeClient.go print a message: a first line, the header's lines, an
-- empty line and the body, read to its end and closed.
pub mod Fields
pub mod Reading
pub mod Plain
use wlgows.Base.{Option, none, some, List, [], ◌∷◌, ◌++◌}
use wlgows.Base.Bytes.{Bytes}
use wlgows.Errors.{Error, Result, ok, err}
use wlgows.Http.{Body, Request, Response, Platform, read_all, read_out, close_body}
use wlgows.Http.Text.{codes, itoa}
use wlgows.Http.Status.{status_text}
use wlgows.Http.Fields.{Header, get}
use wlgows.HandShake.Respond.{is_empty, set_if}
use wlgows.Writer.{Wire, wire_write}

abbrev pub crlf : Bytes
crlf = 13 ∷ 10 ∷ []

-- The inner loop over the lines of one key, and the loop over the keys.
unfoldable pub key_lines : Bytes → List Bytes → Bytes
key_lines key [] = []
key_lines key (value ∷ rest) = key ++ codes ": " ++ value ++ crlf ++ key_lines key rest

unfoldable pub header_lines : Header → Bytes
unfolding key_lines
header_lines [] = []
header_lines ((key, lines) ∷ h) = key_lines key lines ++ header_lines h

-- The body behind the head, if it can be read; an error of its reading leaves it open.
unfoldable pub with_body : Bytes → Body → Result Bytes → Result Bytes × Body
with_body head b (ok s) = (ok (head ++ s), close_body (read_out b))
with_body head b (err e) = (err e, read_out b)

unfoldable pub with_body_of : Bytes → Option Body → Result Bytes × Option Body
unfolding with_body read_all
with_body_of head none = (ok head, none)
with_body_of head (some b) = let (message, b') = with_body head b (read_all b) in (message, some b')

abbrev pub status_line : Response → Bytes
status_line res =
    res.proto
    ++ codes " "
    ++ itoa res.status_code
    ++ codes " "
    ++ status_text res.status_code
    ++ crlf

abbrev pub response_head : Platform → Response → Bytes
response_head p res = status_line res ++ header_lines (p.range res.header) ++ crlf

unfoldable pub response_to_plain_http_msg : Platform → Response → Result Bytes × Response
unfolding header_lines with_body_of
response_to_plain_http_msg p res =
    let (message, body) = with_body_of (response_head p res) res.body in
    (message, record res { body = body })

-- A request without a Host header gets its URL's host.
unfoldable pub put_host : Request → Request
put_host req = record req {
  header = set_if (is_empty (get req.header (codes "Host"))) (codes "Host") req.url.host req.header;
}

abbrev pub request_line : Request → Bytes
request_line req = req.method ++ codes " " ++ req.url.request_uri ++ codes " " ++ req.proto ++ crlf

abbrev pub request_head : Platform → Request → Bytes
request_head p req = request_line req ++ header_lines (p.range req.header) ++ crlf

unfoldable pub request_to_plain_http_msg : Platform → Request → Result Bytes × Request
unfolding header_lines with_body_of put_host
request_to_plain_http_msg p req =
    let hosted = put_host req in
    let (message, body) = with_body_of (request_head p hosted) hosted.body in
    (message, record hosted { body = body })

-- One Write of the printed message; what was printed with an error is not sent.
unfoldable pub send_message : Result Bytes → Wire → Option Error × Wire
unfolding wire_write
send_message (ok message) wire =
    let ((n, e), wire') = wire_write message wire.fates wire in (e, wire')
send_message (err e) wire = (some e, wire)
