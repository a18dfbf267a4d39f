-- ===== src/Http.antt =====
-- The values of net/http and net/url that the handshakes handle: requests, responses, URLs and
-- bodies, with the fields that the package reads or writes.
pub mod Text
pub mod Status
pub mod Fields
pub mod Decimal
pub mod Base64
pub mod Sha1
pub mod Message
use wlgows.Base.{ℕ, Option, none, some, List, [], Bool, true, false}
use wlgows.Base.Bytes.{Bytes}
use wlgows.Errors.{Error, Result, ok, err}
use wlgows.Http.Fields.{Header}
use wlgows.Read.{Reader}

-- *url.URL: RequestURI() and String() are texts that net/url computes from its other fields.
pub record Url : Type 0 where
  pub scheme : Bytes
  pub host : Bytes
  pub request_uri : Bytes
  pub text : Bytes

-- An io.ReadCloser: what is left to read, how reading ends (`none` is io.EOF), whether it is closed.
pub record Body : Type 0 where
  pub left : Bytes
  pub ending : Option Error
  pub closed : Bool

-- The Response field of a Request is set by the server's handshake; the Request field of a Response
-- is that request, and is not kept a second time.
pub record Response : Type 0 where
  pub proto : Bytes
  pub status_code : ℕ
  pub header : Header
  pub body : Option Body

pub record Request : Type 0 where
  pub method : Bytes
  pub proto : Bytes
  pub url : Url
  pub header : Header
  pub body : Option Body
  pub response : Option Response

-- io.ReadAll: everything that is left, or the error that ended the reading. Either way the body is
-- read to its end.
unfoldable pub read_all : Body → Result Bytes
read_all b = elim b.ending [ none ↦ ok b.left | some e ↦ err e ]

abbrev pub read_out : Body → Body
read_out b = record b { left = [] }

abbrev pub close_body : Body → Body
close_body b = record b { closed = true }

-- What the handshakes take from Go: the order in which a `range` meets a map's entries, the text of
-- an error, crypto/rand's Read over a buffer, and http.ReadResponse, with the reader behind what it
-- has consumed.
pub record Platform : Type 0 where
  pub range : Header → Header
  pub error_text : Error → Bytes
  pub rand_read : Bytes → Bytes × Option Error
  pub read_response : Reader → Request → Result Response × Reader
