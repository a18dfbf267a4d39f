-- ===== src/HandShake/Client/Rules.antt =====
-- The rules that ValidateHandShakeResponse has for the server's response.
use wlgows.Base.{◌≡◌, refl, ◌↔◌, true, false, none, [], ◌∷◌, ◌++◌, arith, length}
use wlgows.Base.Bytes.{Bytes}
use wlgows.Http.{Response}
use wlgows.Http.Text.{codes, same}
use wlgows.Http.Base64.{length-encode}
use wlgows.Http.Sha1.{sum, length-sum}
use wlgows.Http.Fields.{get, values, same_refl, same-eq}
use wlgows.HandShake.Token.{header_has_token}
use wlgows.HandShake.Token.Laws.{HasToken, header_has_token_lem}
use wlgows.HandShake.Respond.{
  generate_sec_websocket_accept, accept_guid, is_empty, connection, upgrade, sec_websocket_accept,
}
use wlgows.HandShake.Client.{validate_hand_shake_response}

-- The response of a server that has upgraded the request with this key.
pub record IsUpgrade (res : Response) (key : Bytes) : Type 0 where
  pub by_status : res.status_code ≡ 101
  pub by_proto : res.proto ≡ codes "HTTP/1.1"
  pub by_connection : HasToken (codes "upgrade") (values res.header connection)
  pub by_upgrade : HasToken (codes "websocket") (values res.header upgrade)
  pub by_accept : get res.header sec_websocket_accept ≡ generate_sec_websocket_accept key

-- Base64 of a digest has 28 digits.
pub length-generate_sec_websocket_accept :
    (key : Bytes) → length (generate_sec_websocket_accept key) ≡ 28
unfolding generate_sec_websocket_accept
length-generate_sec_websocket_accept key =
    omega (arith, length-encode (sum (key ++ accept_guid)), length-sum (key ++ accept_guid))

is_empty-of_length : (s : Bytes) → length s ≡ 28 → is_empty s ≡ false
is_empty-of_length [] h = absurd (omega arith)
is_empty-of_length (c ∷ s) h = refl

all_tests :
    (res : Response) (key : Bytes)
    → validate_hand_shake_response res key ≡ none
    → (res.status_code ≡ 101)
      × (same res.proto (codes "HTTP/1.1") ≡ true)
      × (header_has_token res.header connection (codes "upgrade") ≡ true)
      × (header_has_token res.header upgrade (codes "websocket") ≡ true)
      × (same (get res.header sec_websocket_accept) (generate_sec_websocket_accept key) ≡ true)
unfolding validate_hand_shake_response
all_tests res key h = ground arith

-- A response is accepted exactly if it upgrades the request.
pub validate_hand_shake_response-IsUpgrade :
    (res : Response) (key : Bytes)
    → (validate_hand_shake_response res key ≡ none) ↔ IsUpgrade res key
unfolding validate_hand_shake_response
validate_hand_shake_response-IsUpgrade res key = (
  λ h.
      let (a, b, c, d, e) = all_tests res key h in
      record {
        by_status = a;
        by_proto = same-eq _ _ b;
        by_connection = (header_has_token_lem _ _ _).0 c;
        by_upgrade = (header_has_token_lem _ _ _).0 d;
        by_accept = same-eq _ _ e;
      },
  λ u. ground (
    arith,
    u.by_status,
    u.by_proto,
    same_refl res.proto,
    u.by_accept,
    is_empty-of_length _ (length-generate_sec_websocket_accept key),
    same_refl (generate_sec_websocket_accept key),
    (header_has_token_lem res.header connection (codes "upgrade")).1 u.by_connection,
    (header_has_token_lem res.header upgrade (codes "websocket")).1 u.by_upgrade,
  ),
)
