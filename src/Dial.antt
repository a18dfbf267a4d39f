-- ===== src/Dial.antt =====
-- Client.go: Dial, which checks the URL, connects in the clear or over TLS, and builds the opening
-- request. http.NewRequest, net.Dial and tls.Dial are parameters.
pub mod Laws
use wlgows.Base.{
  Bool, true, false, not, ◌||◌, Option, none, some, List, [], ◌∷◌, ◌++◌, if◌then◌else◌,
}
use wlgows.Base.Bytes.{Bytes}
use wlgows.Errors.{Error, Result, ok, err, fresh}
use wlgows.Http.{Url, Request}
use wlgows.Http.Text.{codes, same}
use wlgows.HandShake.Respond.{is_empty}

-- slices.Contains
unfoldable pub contains : List Bytes → Bytes → Bool
contains [] s = false
contains (t ∷ ts) s = same t s || contains ts s

abbrev pub schemes : List Bytes
schemes = codes "http" ∷ codes "https" ∷ codes "ws" ∷ codes "wss" ∷ []

abbrev pub scheme_message : Bytes
scheme_message =
    codes
      "The url scheme is not valid to websocket.\n\t\t\tOnly validate in ('http', 'https', 'ws', 'wss').\n\t\t\tRaw url => "

unfoldable pub validate_websocket_url : Url → Option Error
unfolding contains
validate_websocket_url u =
    if not (contains schemes u.scheme)
    then some (fresh (scheme_message ++ u.text))
    else if is_empty u.host
    then some (fresh (codes "The url host is empty. Raw url => " ++ u.text))
    else none

-- `C` is a connection, and `K` a TLS configuration.
pub record Dialer (C K : Type 0) : Type 0 where
  pub new_request : Bytes → Bytes → Result Request
  pub net_dial : Bytes → Bytes → Result C
  pub tls_dial : Bytes → Bytes → K → Result C

module _ {C K : Type 0} (d : Dialer C K) where
  abbrev pub connected : Result C → Request → Result (Option C × Request)
  connected (ok c) req = ok (some c, req)
  connected (err e) req = err e

  -- The switch on the scheme: a scheme that neither case has leaves a nil connection.
  unfoldable pub connect : K → Request → Result (Option C × Request)
  connect config req =
      if same req.url.scheme (codes "http") || same req.url.scheme (codes "ws")
      then connected (d.net_dial (codes "tcp") req.url.host) req
      else if same req.url.scheme (codes "https") || same req.url.scheme (codes "wss")
      then connected (d.tls_dial (codes "tcp") req.url.host config) req
      else ok (none, req)

  unfoldable pub connect_valid : Option Error → K → Request → Result (Option C × Request)
  unfolding connect
  connect_valid (some e) config req = err e
  connect_valid none config req = connect config req

  unfoldable pub dial_request : Result Request → K → Result (Option C × Request)
  unfolding connect_valid validate_websocket_url
  dial_request (err e) config = err e
  dial_request (ok req) config = connect_valid (validate_websocket_url req.url) config req

  unfoldable pub dial : Bytes → K → Result (Option C × Request)
  unfolding dial_request
  dial raw_url config = dial_request (d.new_request (codes "GET") raw_url) config
