-- ===== src/Tests/Requests.antt =====
-- Requests, a response and a platform that the handshakes' tests share.
use wlgows.Base.{ℕ, none, [], ◌∷◌}
use wlgows.Base.Bytes.{Bytes}
use wlgows.Errors.{Result, ok, eof}
use wlgows.Frame.{MaskingKey}
use wlgows.Read.{Reader}
use wlgows.Writer.{Out}
use wlgows.Writer.Laws.{healthy}
use wlgows.Http.{Url, Request, Response, Platform}
use wlgows.Http.Text.{codes}
use wlgows.Http.Fields.{Header}
use wlgows.Tests.Data.{key}

-- The key and the accept value of RFC 6455, 1.3.
abbrev pub sample_key : Bytes
sample_key = codes "dGhlIHNhbXBsZSBub25jZQ=="

-- A proxy has added to the list, in a line with white space; the names are not in canonical form.
abbrev pub fields : Header
fields =
    (codes "Upgrade", codes "WebSocket" ∷ [])
    ∷ (codes "Connection", codes "keep-alive" ∷ codes " x,\tUpgrade " ∷ [])
    ∷ (codes "Sec-Websocket-Key", sample_key ∷ [])
    ∷ (codes "Sec-Websocket-Version", codes "13" ∷ [])
    ∷ []

abbrev pub url : Url
url = record {
  scheme = codes "ws";
  host = codes "localhost:8001";
  request_uri = codes "/chat";
  text = codes "ws://localhost:8001/chat";
}

abbrev pub request : Request
request = record {
  method = codes "GET";
  proto = codes "HTTP/1.1";
  url = url;
  header = fields;
  body = none;
  response = none;
}

-- "no-websocket" has the token's letters and is another token.
abbrev pub other_request : Request
other_request = record request {
  header =
      (codes "Connection", codes "upgrade" ∷ [])
      ∷ (codes "Upgrade", codes "no-websocket" ∷ [])
      ∷ (codes "Sec-Websocket-Key", sample_key ∷ [])
      ∷ [];
}

abbrev pub bare_request : Request
bare_request = record request { header = [] }

abbrev pub switching : Response
switching = record {
  proto = codes "HTTP/1.1";
  status_code = 101;
  header =
      (codes "Upgrade", codes "websocket" ∷ [])
      ∷ (codes "Connection", codes "Upgrade" ∷ [])
      ∷ (codes "Sec-Websocket-Accept", codes "s3pPLMBiTxaQ9kYGzzhZRbK+xOo=" ∷ [])
      ∷ [];
  body = none;
}

abbrev pub first_frame : Reader
first_frame = record { pending = 0x81 ∷ 0x00 ∷ []; ending = eof }

abbrev pub platform : Platform
platform = record {
  range = λ h. h;
  error_text = λ e. codes "refused";
  rand_read = λ s. (codes "the sample nonce", none);
  read_response = λ r req. (ok switching, first_frame);
}

abbrev pub reader : Reader
reader = record { pending = []; ending = eof }

abbrev pub keys : ℕ → Result MaskingKey
keys n = ok key

abbrev pub out : Out
out = healthy 16 [] []
