-- ===== src/HandShake/Server/Rules.antt =====
-- The rules that ValidateHandShakeRequest has for an opening request, in the order in which it tries
-- them (of the key it asks less than RFC 6455, 4.2.1: that it is there), and the sentinel and the status that the first broken one is answered with.
use wlgows.Base.{ℕ, ◌≡◌, refl, ◌≢◌, ◌↔◌, inl, inr, Bool, true, false, not, [], ◌∷◌, Bool-cases}
use wlgows.Base.Bytes.{Bytes}
use wlgows.Errors.{
  Sentinel, http_method_not_allowed, http_protocol_or_version_not_allowed,
  http_sec_websocket_key_header_not_set, http_connection_header_not_upgrade,
  http_upgrade_header_not_websocket, http_sec_websocket_version_not_supported,
}
use wlgows.Http.{Request}
use wlgows.Http.Text.{codes, same}
use wlgows.Http.Fields.{get, values, same_refl, same-eq}
use wlgows.HandShake.Token.{header_has_token}
use wlgows.HandShake.Token.Laws.{HasToken, header_has_token_lem}
use wlgows.HandShake.Respond.{
  is_empty, connection, upgrade, sec_websocket_key, sec_websocket_version,
}

pub data Rule : Type 0 where
  method_rule protocol_rule key_rule connection_rule upgrade_rule version_rule : Rule

abbrev pub Keeps : Rule → Request → Type 0
Keeps method_rule r = r.method ≡ codes "GET"
Keeps protocol_rule r = r.proto ≡ codes "HTTP/1.1"
Keeps key_rule r = get r.header sec_websocket_key ≢ []
Keeps connection_rule r = HasToken (codes "upgrade") (values r.header connection)
Keeps upgrade_rule r = HasToken (codes "websocket") (values r.header upgrade)
Keeps version_rule r = get r.header sec_websocket_version ≡ codes "13"

pub record IsLegal (r : Request) : Type 0 where
  pub by_method : Keeps method_rule r
  pub by_protocol : Keeps protocol_rule r
  pub by_key : Keeps key_rule r
  pub by_connection : Keeps connection_rule r
  pub by_upgrade : Keeps upgrade_rule r
  pub by_version : Keeps version_rule r

-- The test that the code makes for a rule.
abbrev pub test : Rule → Request → Bool
test method_rule r = same r.method (codes "GET")
test protocol_rule r = same r.proto (codes "HTTP/1.1")
test key_rule r = not (is_empty (get r.header sec_websocket_key))
test connection_rule r = header_has_token r.header connection (codes "upgrade")
test upgrade_rule r = header_has_token r.header upgrade (codes "websocket")
test version_rule r = same (get r.header sec_websocket_version) (codes "13")

is_empty-ne-nil_iff : (s : Bytes) → (not (is_empty s) ≡ true) ↔ (s ≢ [])
is_empty-ne-nil_iff [] = (λ h. cc, λ h. absurd (h refl))
is_empty-ne-nil_iff (c ∷ s) = (λ h e. cc, λ h. refl)

same_iff : (s t : Bytes) → (same s t ≡ true) ↔ (s ≡ t)
same_iff s t = (same-eq s t, λ e. rw e (same_refl t))

pub test-Keeps : (rule : Rule) (r : Request) → (test rule r ≡ true) ↔ Keeps rule r
test-Keeps method_rule r = same_iff _ _
test-Keeps protocol_rule r = same_iff _ _
test-Keeps key_rule r = is_empty-ne-nil_iff _
test-Keeps connection_rule r = header_has_token_lem _ _ _
test-Keeps upgrade_rule r = header_has_token_lem _ _ _
test-Keeps version_rule r = same_iff _ _

-- Every rule before it is kept, and the rule itself is not.
abbrev pub FirstBroken : Rule → Request → Type 0
FirstBroken method_rule r = ¬ Keeps method_rule r
FirstBroken protocol_rule r = Keeps method_rule r × ¬ Keeps protocol_rule r
FirstBroken key_rule r = Keeps method_rule r × Keeps protocol_rule r × ¬ Keeps key_rule r
FirstBroken connection_rule r =
    Keeps method_rule r × Keeps protocol_rule r × Keeps key_rule r × ¬ Keeps connection_rule r
FirstBroken upgrade_rule r =
    Keeps method_rule r
    × Keeps protocol_rule r
    × Keeps key_rule r
    × Keeps connection_rule r
    × ¬ Keeps upgrade_rule r
FirstBroken version_rule r =
    Keeps method_rule r
    × Keeps protocol_rule r
    × Keeps key_rule r
    × Keeps connection_rule r
    × Keeps upgrade_rule r
    × ¬ Keeps version_rule r

abbrev pub sentinel_of : Rule → Sentinel
sentinel_of method_rule = http_method_not_allowed
sentinel_of protocol_rule = http_protocol_or_version_not_allowed
sentinel_of key_rule = http_sec_websocket_key_header_not_set
sentinel_of connection_rule = http_connection_header_not_upgrade
sentinel_of upgrade_rule = http_upgrade_header_not_websocket
sentinel_of version_rule = http_sec_websocket_version_not_supported

abbrev pub status_of : Rule → ℕ
status_of method_rule = 405
status_of protocol_rule = 505
status_of key_rule = 400
status_of connection_rule = 400
status_of upgrade_rule = 400
status_of version_rule = 426

pub passes : (rule : Rule) (r : Request) → Keeps rule r → test rule r ≡ true
passes rule r = (test-Keeps rule r).1

pub fails : (rule : Rule) (r : Request) → ¬ Keeps rule r → test rule r ≡ false
fails rule r broken = elim (Bool-cases (test rule r)) [
  | inl yes_it ↦ absurd (broken ((test-Keeps rule r).0 yes_it))
  | inr no_it ↦ no_it
]
