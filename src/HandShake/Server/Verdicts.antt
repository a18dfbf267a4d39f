-- ===== src/HandShake/Server/Verdicts.antt =====
-- ValidateHandShakeRequest by the rules: what it accepts, and how the first broken rule is answered.
use wlgows.Base.{◌≡◌, refl, ◌↔◌, true, none, some, arith}
use wlgows.Errors.{
  Error, sentinel, error_is, http_method_not_allowed, http_protocol_or_version_not_allowed,
  http_sec_websocket_key_header_not_set, http_connection_header_not_upgrade,
  http_upgrade_header_not_websocket, http_sec_websocket_version_not_supported,
}
use wlgows.Http.{Request, Platform}
use wlgows.Http.Text.{codes, join_values}
use wlgows.Http.Fields.{get, values}
use wlgows.HandShake.Respond.{connection, upgrade, sec_websocket_version}
use wlgows.HandShake.Server.{validate_hand_shake_request, answer_to, refused, refused_value}
use wlgows.HandShake.Server.Rules.{
  Rule, method_rule, protocol_rule, key_rule, connection_rule, upgrade_rule, version_rule, IsLegal,
  FirstBroken, sentinel_of, status_of, test, test-Keeps, passes, fails,
}

-- What acceptance says of the tests, and how they give it.
all_tests :
    (r : Request)
    → validate_hand_shake_request r ≡ none
    → (test method_rule r ≡ true)
      × (test protocol_rule r ≡ true)
      × (test key_rule r ≡ true)
      × (test connection_rule r ≡ true)
      × (test upgrade_rule r ≡ true)
      × (test version_rule r ≡ true)
unfolding validate_hand_shake_request
all_tests r h = ground arith

-- ValidateHandShakeRequest accepts a request exactly if its method is GET, its protocol is HTTP/1.1, its
-- Sec-WebSocket-Key is not empty, its Connection list has the token upgrade and its Upgrade list the
-- token websocket, both compared as strings.EqualFold compares, and its Sec-WebSocket-Version is 13.
pub validate_hand_shake_request-IsLegal :
    (r : Request) → (validate_hand_shake_request r ≡ none) ↔ IsLegal r
unfolding validate_hand_shake_request
validate_hand_shake_request-IsLegal r = (
  λ h.
      let (a, b, c, d, e, f) = all_tests r h in
      record {
        by_method = (test-Keeps method_rule r).0 a;
        by_protocol = (test-Keeps protocol_rule r).0 b;
        by_key = (test-Keeps key_rule r).0 c;
        by_connection = (test-Keeps connection_rule r).0 d;
        by_upgrade = (test-Keeps upgrade_rule r).0 e;
        by_version = (test-Keeps version_rule r).0 f;
      },
  λ l. ground (
    arith,
    passes method_rule r l.by_method,
    passes protocol_rule r l.by_protocol,
    passes key_rule r l.by_key,
    passes connection_rule r l.by_connection,
    passes upgrade_rule r l.by_upgrade,
    passes version_rule r l.by_version,
  ),
)

-- The error that a rule's breach is reported with.
abbrev refusal : Rule → Request → Error
refusal method_rule r = refused_value (codes "method") r.method (sentinel http_method_not_allowed)
refusal protocol_rule r =
    refused_value (codes "protocol") r.proto (sentinel http_protocol_or_version_not_allowed)
refusal key_rule r = refused (sentinel http_sec_websocket_key_header_not_set)
refusal connection_rule r =
    refused_value connection (join_values (values r.header connection))
      (sentinel http_connection_header_not_upgrade)
refusal upgrade_rule r =
    refused_value upgrade (join_values (values r.header upgrade))
      (sentinel http_upgrade_header_not_websocket)
refusal version_rule r =
    refused_value sec_websocket_version (get r.header sec_websocket_version)
      (sentinel http_sec_websocket_version_not_supported)

refusal_lem :
    (rule : Rule) (r : Request)
    → FirstBroken rule r
    → validate_hand_shake_request r ≡ some (refusal rule r)
unfolding validate_hand_shake_request
refusal_lem method_rule r broken = ground (arith, fails method_rule r broken)
refusal_lem protocol_rule r (m, broken) =
    ground (arith, passes method_rule r m, fails protocol_rule r broken)
refusal_lem key_rule r (m, q, broken) =
    ground (arith, passes method_rule r m, passes protocol_rule r q, fails key_rule r broken)
refusal_lem connection_rule r (m, q, k, broken) = ground (
  arith,
  passes method_rule r m,
  passes protocol_rule r q,
  passes key_rule r k,
  fails connection_rule r broken,
)
refusal_lem upgrade_rule r (m, q, k, c, broken) = ground (
  arith,
  passes method_rule r m,
  passes protocol_rule r q,
  passes key_rule r k,
  passes connection_rule r c,
  fails upgrade_rule r broken,
)
refusal_lem version_rule r (m, q, k, c, u, broken) = ground (
  arith,
  passes method_rule r m,
  passes protocol_rule r q,
  passes key_rule r k,
  passes connection_rule r c,
  passes upgrade_rule r u,
  fails version_rule r broken,
)

refusal_sentinel : (rule : Rule) (r : Request) → error_is (refusal rule r) (sentinel_of rule) ≡ true
unfolding error_is
refusal_sentinel method_rule r = refl
refusal_sentinel protocol_rule r = refl
refusal_sentinel key_rule r = refl
refusal_sentinel connection_rule r = refl
refusal_sentinel upgrade_rule r = refl
refusal_sentinel version_rule r = refl

refusal_status :
    (p : Platform) (rule : Rule) (r : Request)
    → (answer_to p r (some (refusal rule r))).status_code ≡ status_of rule
unfolding answer_to
refusal_status p method_rule r = refl
refusal_status p protocol_rule r = refl
refusal_status p key_rule r = refl
refusal_status p connection_rule r = refl
refusal_status p upgrade_rule r = refl
refusal_status p version_rule r = refl

-- A request that breaks a rule is refused with the sentinel of the first rule that it breaks, and
-- answered with that rule's status: 405, 505, 400 or 426, never the 500 of an unknown error.
pub validate_hand_shake_request-FirstBroken :
    (p : Platform) (rule : Rule) (r : Request)
    → FirstBroken rule r
    → (e : Error) × (validate_hand_shake_request r ≡ some e)
      × (error_is e (sentinel_of rule) ≡ true)
      × ((answer_to p r (some e)).status_code ≡ status_of rule)
validate_hand_shake_request-FirstBroken p rule r broken =
    (refusal rule r, refusal_lem rule r broken, refusal_sentinel rule r, refusal_status p rule r)
