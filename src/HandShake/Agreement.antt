-- ===== src/HandShake/Agreement.antt =====
-- HandShakeClient.go against HandShakeServer.go: each side's message satisfies the other's rules.
use wlgows.Base.{
  ◌≡◌, refl, sym, ap, subst, ◌≢◌, ◌∙◌, Bool, true, false, Option, none, some, List, [], ◌∷◌,
  replicate,
}
use wlgows.Base.Bytes.{Bytes}
use wlgows.Errors.{Error, ok}
use wlgows.Http.{Request, Response, Platform}
use wlgows.Http.Text.{codes, same, split, trim_space, equal_fold}
use wlgows.Http.Base64.{encode}
use wlgows.Http.Fields.{Header, canonical, get, set, add, values, values-set, first_of}
use wlgows.HandShake.Token.{any_value}
use wlgows.HandShake.Token.Laws.{HasToken, any_value-HasToken}
use wlgows.HandShake.Respond.{
  is_empty, set_if, connection, upgrade, sec_websocket_key, sec_websocket_version,
  sec_websocket_accept, generate_sec_websocket_accept, generate_response, upgrade_for_websocket,
  new_response_writer,
}
use wlgows.HandShake.Print.{put_host}
use wlgows.HandShake.Server.{validate_hand_shake_request, answer_to}
use wlgows.HandShake.Server.Rules.{IsLegal}
use wlgows.HandShake.Server.Verdicts.{validate_hand_shake_request-IsLegal}
use wlgows.HandShake.Server.Answer.{answer_response}
use wlgows.HandShake.Client.{
  validate_hand_shake_response, generate_web_socket_key, upgrade_header, upgrade_request,
}
use wlgows.HandShake.Client.Rules.{IsUpgrade, validate_hand_shake_response-IsUpgrade}

-- What the parser of the other side must keep of a message: its first line's parts, and the lines of
-- the fields that the handshake reads.
pub record RequestArrives (sent got : Request) : Type 0 where
  pub same_method : got.method ≡ sent.method
  pub same_proto : got.proto ≡ sent.proto
  pub at_upgrade : values got.header upgrade ≡ values sent.header upgrade
  pub at_connection : values got.header connection ≡ values sent.header connection
  pub at_key : values got.header sec_websocket_key ≡ values sent.header sec_websocket_key
  pub at_version :
      values got.header sec_websocket_version ≡ values sent.header sec_websocket_version

pub record ResponseArrives (sent got : Response) : Type 0 where
  pub same_status : got.status_code ≡ sent.status_code
  pub same_proto : got.proto ≡ sent.proto
  pub at_upgrade : values got.header upgrade ≡ values sent.header upgrade
  pub at_connection : values got.header connection ≡ values sent.header connection
  pub at_accept : values got.header sec_websocket_accept ≡ values sent.header sec_websocket_accept

values-set_if :
    (b : Bool) (key j v : Bytes) (h : Header)
    → same (canonical key) (canonical j) ≡ false
    → values (set_if b key v h) j ≡ values h j
values-set_if true key j v h other = rw values-set (rw other refl)
values-set_if false key j v h other = refl

-- The Host header is none of these fields.
pub values-put_host :
    (req : Request) (j : Bytes)
    → same (canonical (codes "Host")) (canonical j) ≡ false
    → values (put_host req).header j ≡ values req.header j
unfolding put_host
values-put_host req j other =
    values-set_if (is_empty (get req.header (codes "Host"))) (codes "Host") j req.url.host
      req.header other

pub values-upgrade_header :
    (key : Bytes) (h : Header)
    → (values (upgrade_header key h) upgrade ≡ codes "websocket" ∷ [])
      × (values (upgrade_header key h) connection ≡ codes "Upgrade" ∷ [])
      × (values (upgrade_header key h) sec_websocket_key ≡ key ∷ [])
      × (values (upgrade_header key h) sec_websocket_version ≡ codes "13" ∷ [])
unfolding upgrade_header canonical same
values-upgrade_header key h = (simp values-set, simp values-set, simp values-set, simp values-set)

abbrev pub upgrade_answer : Bytes → Response
upgrade_answer key = (generate_response (upgrade_for_websocket key new_response_writer)).1

pub answer_fields :
    (key : Bytes)
    → let h = (upgrade_answer key).header in
      (values h upgrade ≡ codes "websocket" ∷ [])
      × (values h connection ≡ codes "Upgrade" ∷ [])
      × (values h sec_websocket_accept ≡ generate_sec_websocket_accept key ∷ [])
unfolding generate_response upgrade_for_websocket values get set add canonical same
answer_fields key = (refl, refl, refl)

encode-ne-nil : (s : Bytes) → s ≢ [] → encode s ≢ []
unfolding encode
encode-ne-nil [] h e = h refl
encode-ne-nil (a ∷ []) h e = cc
encode-ne-nil (a ∷ b ∷ []) h e = cc
encode-ne-nil (a ∷ b ∷ c ∷ s) h e = cc

abbrev pub upgraded : Platform → Request → Request
upgraded p req = record req { header = upgrade_header (generate_web_socket_key p) req.header }

-- The four fields as the server reads them.
arrived_fields :
    (p : Platform) (req q : Request)
    → RequestArrives (put_host (upgraded p req)) q
    → (values q.header upgrade ≡ codes "websocket" ∷ [])
      × (values q.header connection ≡ codes "Upgrade" ∷ [])
      × (values q.header sec_websocket_key ≡ generate_web_socket_key p ∷ [])
      × (values q.header sec_websocket_version ≡ codes "13" ∷ [])
unfolding canonical same
arrived_fields p req q arrives =
    let (u, c, k, v) = values-upgrade_header (generate_web_socket_key p) req.header in
    (
      arrives.at_upgrade ∙ values-put_host (upgraded p req) upgrade refl ∙ u,
      arrives.at_connection ∙ values-put_host (upgraded p req) connection refl ∙ c,
      arrives.at_key ∙ values-put_host (upgraded p req) sec_websocket_key refl ∙ k,
      arrives.at_version ∙ values-put_host (upgraded p req) sec_websocket_version refl ∙ v,
    )

upgrade_fits : any_value (codes "upgrade") (codes "Upgrade" ∷ []) ≡ true
unfolding any_value split equal_fold trim_space
upgrade_fits = refl

websocket_fits : any_value (codes "websocket") (codes "websocket" ∷ []) ≡ true
unfolding any_value split equal_fold trim_space
websocket_fits = refl

lone_token :
    (token value : Bytes) (lines : List Bytes)
    → lines ≡ value ∷ []
    → any_value token (value ∷ []) ≡ true
    → HasToken token lines
lone_token token value lines e h = rw e (any_value-HasToken token (value ∷ []) h)

pub upgraded-IsLegal :
    (p : Platform) (req q : Request)
    → req.method ≡ codes "GET"
    → req.proto ≡ codes "HTTP/1.1"
    → (p.rand_read (replicate 16 0)).0 ≢ []
    → RequestArrives (put_host (upgraded p req)) q
    → IsLegal q × (get q.header sec_websocket_key ≡ generate_web_socket_key p)
unfolding get put_host generate_web_socket_key
upgraded-IsLegal p req q get_method proto drawn arrives =
    let (u, c, k, v) = arrived_fields p req q arrives in
    let key_is : get q.header sec_websocket_key ≡ generate_web_socket_key p = ap first_of k in
    (
      record {
        by_method = arrives.same_method ∙ get_method;
        by_protocol = arrives.same_proto ∙ proto;
        by_key = λ e. encode-ne-nil _ drawn (sym key_is ∙ e);
        by_connection = lone_token (codes "upgrade") (codes "Upgrade") _ c upgrade_fits;
        by_upgrade = lone_token (codes "websocket") (codes "websocket") _ u websocket_fits;
        by_version = ap first_of v;
      },
      key_is,
    )

pub upgraded_key :
    (p : Platform) (req : Request)
    → get (upgraded p req).header sec_websocket_key ≡ generate_web_socket_key p
unfolding get
upgraded_key p req =
    let (u, c, k, v) = values-upgrade_header (generate_web_socket_key p) req.header in ap first_of k

-- The two spellings of the key's name have one canonical form.
pub answer_eq :
    (p : Platform) (q : Request)
    → IsLegal q
    → answer_response p q ≡ upgrade_answer (get q.header sec_websocket_key)
unfolding answer_to get canonical
answer_eq p q legal =
    ap (λ (v : Option Error). (generate_response (answer_to p q v)).1)
      ((validate_hand_shake_request-IsLegal q).1 legal)

upgrade_answer-IsUpgrade :
    (key : Bytes) (res : Response) → ResponseArrives (upgrade_answer key) res → IsUpgrade res key
unfolding get generate_response upgrade_for_websocket
upgrade_answer-IsUpgrade key res arrives =
    let (u, c, a) = answer_fields key in
    record {
      by_status = arrives.same_status;
      by_proto = arrives.same_proto;
      by_connection =
          lone_token (codes "upgrade") (codes "Upgrade") _ (arrives.at_connection ∙ c) upgrade_fits;
      by_upgrade =
          lone_token (codes "websocket") (codes "websocket") _ (arrives.at_upgrade ∙ u)
            websocket_fits;
      by_accept = ap first_of (arrives.at_accept ∙ a);
    }

-- Whatever client sent a legal request, the server's answer to it satisfies the client that sent its
-- key, once the response arrives with its status, protocol and the fields of the handshake as they were sent.
pub answer_response-IsUpgrade :
    (p : Platform) (q : Request) (res : Response)
    → IsLegal q
    → ResponseArrives (answer_response p q) res
    → IsUpgrade res (get q.header sec_websocket_key)
answer_response-IsUpgrade p q res legal arrives =
    upgrade_answer-IsUpgrade (get q.header sec_websocket_key) res
      (subst (λ (a : Response). ResponseArrives a res) (answer_eq p q legal) arrives)

-- The two sides agree. A GET request of HTTP/1.1 that UpgradeRequest has prepared is accepted by the
-- server, and the server's answer to it is accepted by the client, wherever the request line, the
-- status and the fields of the handshake arrive as they were sent and crypto/rand gives at least one byte.
pub upgrade_request_accepted :
    (p : Platform) (req q : Request) (res : Response) {sent : Request}
    → req.method ≡ codes "GET"
    → req.proto ≡ codes "HTTP/1.1"
    → (p.rand_read (replicate 16 0)).0 ≢ []
    → upgrade_request p (some req) ≡ ok sent
    → RequestArrives (put_host sent) q
    → ResponseArrives (answer_response p q) res
    → (validate_hand_shake_request q ≡ none)
      × (validate_hand_shake_response res (get sent.header sec_websocket_key) ≡ none)
unfolding upgrade_request
upgrade_request_accepted p req q res {sent} get_method proto drawn up arrives back =
    let is_sent : upgraded p req ≡ sent = cc in
    let (legal, key_is) =
      upgraded-IsLegal p req q get_method proto drawn
        (subst (λ (s : Request). RequestArrives (put_host s) q) (sym is_sent) arrives) in
    let sent_key : get sent.header sec_websocket_key ≡ get q.header sec_websocket_key =
      ap (λ (s : Request). get s.header sec_websocket_key) (sym is_sent)
      ∙ upgraded_key p req
      ∙ sym key_is in
    (
      (validate_hand_shake_request-IsLegal q).1 legal,
      (validate_hand_shake_response-IsUpgrade res _).1
          (subst (IsUpgrade res) (sym sent_key) (answer_response-IsUpgrade p q res legal back)),
    )
