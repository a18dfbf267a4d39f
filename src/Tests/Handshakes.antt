-- ===== src/Tests/Handshakes.antt =====
-- The server's handshake at concrete inputs, and its theorems at them.
use wlgows.Base.Bytes.{Bytes}
use wlgows.Base.{◌≡◌, refl, ◌↔◌, true, false, none, some, ◌++◌}
use wlgows.Errors.{Error, error_is}
use wlgows.Step.{returned}
use wlgows.Conn.{Conn, conn_over}
use wlgows.Http.{Request}
use wlgows.Http.Text.{codes, same, trim_space, equal_fold, split, itoa}
use wlgows.Http.Status.{status_text}
use wlgows.Http.Base64.{encode}
use wlgows.Http.Sha1.{sum}
use wlgows.Http.Fields.{set, get, values, canonical}
use wlgows.HandShake.Token.{header_has_token}
use wlgows.HandShake.Token.Laws.{HasToken, header_has_token_lem}
use wlgows.HandShake.Respond.{connection, upgrade, generate_sec_websocket_accept}
use wlgows.HandShake.Server.{
  validate_hand_shake_request, server_hand_shake_inner, server_hand_shake, answer_to,
}
use wlgows.HandShake.Server.Rules.{upgrade_rule, IsLegal, FirstBroken, sentinel_of}
use wlgows.HandShake.Server.Verdicts.{
  validate_hand_shake_request-IsLegal, validate_hand_shake_request-FirstBroken,
}
use wlgows.HandShake.Server.Answer.{answer_message, server_hand_shake-IsLegal}
use wlgows.Tests.Requests.{sample_key, fields, request, other_request, platform, reader, keys, out}

accept_of_rfc : generate_sec_websocket_accept sample_key ≡ codes "s3pPLMBiTxaQ9kYGzzhZRbK+xOo="
unfolding generate_sec_websocket_accept encode sum
accept_of_rfc = refl

legal : IsLegal request
unfolding validate_hand_shake_request same get canonical header_has_token split equal_fold
    trim_space
legal = (validate_hand_shake_request-IsLegal request).0 refl

refusal_sent :
    (server_hand_shake_inner platform (some other_request) out.wire).wire.sent
    ≡ codes
        "HTTP/1.1 400 Bad Request\r\nContent-Length: 7\r\nContent-Type: text/plain\r\n\r\nrefused"
unfolding server_hand_shake_inner itoa status_text set same get canonical header_has_token split
    equal_fold trim_space
refusal_sent = refl

-- The theorems.
header_has_token_lem_example :
    (header_has_token fields connection (codes "upgrade") ≡ true)
    ↔ HasToken (codes "upgrade") (values fields connection)
header_has_token_lem_example = header_has_token_lem fields connection (codes "upgrade")

validate_hand_shake_request-IsLegal_example :
    (validate_hand_shake_request request ≡ none) ↔ IsLegal request
validate_hand_shake_request-IsLegal_example = validate_hand_shake_request-IsLegal request

no_websocket : FirstBroken upgrade_rule other_request
unfolding same get canonical header_has_token split equal_fold trim_space
no_websocket = (
  refl,
  refl,
  λ e. cc,
  (header_has_token_lem other_request.header connection (codes "upgrade")).0 refl,
  λ has.
      let found : header_has_token other_request.header upgrade (codes "websocket") ≡ true =
        (header_has_token_lem other_request.header upgrade (codes "websocket")).1 has in
      cc,
)

validate_hand_shake_request-FirstBroken_example :
    (e : Error) × (validate_hand_shake_request other_request ≡ some e)
    × (error_is e (sentinel_of upgrade_rule) ≡ true)
    × ((answer_to platform other_request (some e)).status_code ≡ 400)
validate_hand_shake_request-FirstBroken_example =
    validate_hand_shake_request-FirstBroken platform upgrade_rule other_request no_websocket

abbrev server : Conn
server = conn_over reader false keys (record out {
  wire = record out.wire { sent = out.wire.sent ++ answer_message platform request };
})

server_conn :
    (server_hand_shake platform keys reader out (some request)).0 ≡ returned none (some server)
unfolding server_hand_shake validate_hand_shake_request same get canonical header_has_token split
    equal_fold trim_space
server_conn = refl

server_hand_shake-IsLegal_example :
    (q : Request) × (some request ≡ some q)
    × IsLegal q
    × ((server_hand_shake platform keys reader out (some request)).1.wire.sent
        ≡ out.wire.sent ++ answer_message platform q)
    × (server.mask_send_frame ≡ false)
    × (server.reader ≡ reader)
server_hand_shake-IsLegal_example =
    server_hand_shake-IsLegal platform keys reader out (some request) server_conn
