-- ===== src/HandShake/Opening.antt =====
-- ClientHandShake and ServerHandShake at the two ends of one connection.
use wlgows.HandShake.Client.Message.{IsOpening, CanPrint, values-printed, printed-IsOpening}
use wlgows.HandShake.Server.Message.{answer_message-Carries}
use wlgows.HandShake.Print.Reading.{Carries, IsRange}
use wlgows.HandShake.Print.Plain.{trimmed-encode}
use wlgows.Http.Message.{message_values, first_word, second_word, third_word, trimmed}
use wlgows.Http.Decimal.{decimal, decimal-itoa}
use wlgows.HandShake.Respond.{
  connection, upgrade, sec_websocket_version, sec_websocket_accept, generate_response,
  generate_sec_websocket_accept, sec_websocket_key,
}
use wlgows.HandShake.Agreement.{
  answer_eq, answer_fields, upgrade_answer, RequestArrives, ResponseArrives, upgraded,
  upgraded-IsLegal, answer_response-IsUpgrade,
}
use wlgows.Http.Fields.{Header, values, get}
use wlgows.Http.Text.{itoa, codes}
use wlgows.Base.{
  refl, List, map, ◌∷◌, ℕ, ◌≤◌, ◌≡◌, ap, sym, subst, ◌∙◌, ◌≢◌, true, false, Option, none, some, [],
  ◌++◌, replicate,
}
use wlgows.Base.Bytes.{Bytes}
use wlgows.Errors.{Error, Result, ok}
use wlgows.Frame.{MaskingKey}
use wlgows.Read.{Reader}
use wlgows.Step.{Step, returned}
use wlgows.Writer.{Wire, Out}
use wlgows.Conn.{Conn, conn_over}
use wlgows.Http.{Request, Response, Platform}
use wlgows.HandShake.Outcome.{conn_unless}
use wlgows.HandShake.Print.{put_host, request_to_plain_http_msg, send_message}
use wlgows.HandShake.Server.{server_hand_shake}
use wlgows.HandShake.Server.Answer.{
  answer_response, answer_message, server_hand_shake_upgrades, wire_write-takes_all, new_conn_room,
}
use wlgows.HandShake.Client.{
  validate_hand_shake_response, judge_response, await_response, client_hand_shake,
  generate_web_socket_key,
}
use wlgows.HandShake.Client.Rules.{IsUpgrade, validate_hand_shake_response-IsUpgrade}
use wlgows.HandShake.Server.Rules.{IsLegal}
use wlgows.HandShake.Client.Answer.{printed, printed_key}

-- The writer, and its connection behind one more message.
abbrev pub sent_behind : Out → Bytes → Out
sent_behind w m = record w { wire = record w.wire { sent = w.wire.sent ++ m } }

module _ (p : Platform) (keys : ℕ → Result MaskingKey) (r : Reader) (w : Out) (req : Request) where
  -- What follows the request's Write, and what follows the response.
  abbrev behind_write : Option Error × Wire → Step (Option Conn)
  behind_write x =
      let (shaken, r') = await_response p r ((x.0, some (printed p req).1), x.1) in
      conn_unless shaken.error r' (record w { wire = shaken.wire }) true keys

  abbrev behind_response : Wire → Result Response × Reader → Step (Option Conn)
  behind_response wire y =
      let shaken = judge_response (some (printed p req).1) wire y.0 in
      conn_unless shaken.error y.1 (record w { wire = shaken.wire }) true keys

  written :
      (m : Bytes)
      → (printed p req).0 ≡ ok m
      → w.wire.fates ≡ []
      → send_message (printed p req).0 w.wire ≡ (none, (sent_behind w m).wire)
  unfolding send_message
  written m is_m takes =
      ap (λ (x : Result Bytes). send_message x w.wire) is_m
      ∙ ap (λ (x : (ℕ × Option Error) × Wire). (x.0.1, x.1))
          (wire_write-takes_all m w.wire.fates w.wire takes)

  pub client_hand_shake_upgrades :
      (m : Bytes) (res : Response) (r' : Reader)
      → (printed p req).0 ≡ ok m
      → w.wire.fates ≡ []
      → 14 ≤ w.writer.size
      → p.read_response r (printed p req).1 ≡ (ok res, r')
      → validate_hand_shake_response res (get (printed p req).1.header sec_websocket_key) ≡ none
      → (client_hand_shake p keys r w (some req)).0
        ≡ returned none (some (conn_over r' true keys (sent_behind w m)))
  unfolding client_hand_shake judge_response conn_unless
  client_hand_shake_upgrades m res r' is_m takes room read valid =
      ap behind_write (written m is_m takes)
      ∙ ap (behind_response (sent_behind w m).wire) read
      ∙ ap (λ (e : Option Error). conn_unless e r' (sent_behind w m) true keys) valid
      ∙ new_conn_room r' (sent_behind w m) true keys room

-- What http.ReadRequest keeps of the bytes that it reads: the method and the protocol, and the values
-- of the fields that the handshake asks for.
pub record RequestReads (m : Bytes) (q : Request) : Type 0 where
  pub method : q.method ≡ first_word m
  pub proto : q.proto ≡ third_word m
  pub at_upgrade : values q.header upgrade ≡ message_values m upgrade
  pub at_connection : values q.header connection ≡ message_values m connection
  pub at_key : values q.header sec_websocket_key ≡ message_values m sec_websocket_key
  pub at_version : values q.header sec_websocket_version ≡ message_values m sec_websocket_version

-- What http.ReadResponse keeps of them.
pub record ResponseReads (m : Bytes) (res : Response) : Type 0 where
  pub proto : res.proto ≡ first_word m
  pub status : res.status_code ≡ decimal (second_word m)
  pub at_upgrade : values res.header upgrade ≡ message_values m upgrade
  pub at_connection : values res.header connection ≡ message_values m connection
  pub at_accept : values res.header sec_websocket_accept ≡ message_values m sec_websocket_accept

request_arrives :
    (p : Platform) (req q : Request) (m : Bytes)
    → IsOpening p req m
    → RequestReads m q
    → RequestArrives (put_host (upgraded p req)) q
unfolding request_to_plain_http_msg put_host
request_arrives p req q m opening reads =
    let (u, c, k, v) = values-printed p req in
    record {
      same_method = reads.method ∙ opening.carries.first_is;
      same_proto = reads.proto ∙ opening.proto;
      at_upgrade = reads.at_upgrade ∙ opening.at_upgrade ∙ sym u;
      at_connection = reads.at_connection ∙ opening.at_connection ∙ sym c;
      at_key = reads.at_key ∙ opening.at_key ∙ sym k;
      at_version = reads.at_version ∙ opening.at_version ∙ sym v;
    }

-- One value that has no white space around it.
kept_values :
    (name : Bytes) (h : Header) (v : Bytes)
    → values h name ≡ v ∷ []
    → trimmed v ≡ v
    → map trimmed (values h name) ≡ values h name
kept_values name h v at kept =
    ap (λ (ls : List Bytes). map trimmed ls) at ∙ ap (λ (x : Bytes). x ∷ []) kept ∙ sym at

response_arrives :
    (p : Platform) (q : Request) (m body : Bytes) (res : Response)
    → IsLegal q
    → Carries m
        (codes "HTTP/1.1")
        (itoa (answer_response p q).status_code)
        (answer_response p q).header
        body
    → ResponseReads m res
    → ResponseArrives (answer_response p q) res
unfolding generate_response trimmed generate_sec_websocket_accept
response_arrives p q m body res legal carries reads =
    let key = get q.header sec_websocket_key in
    let (u, c, a) = answer_fields key in
    let at_answer = answer_eq p q legal in
    let found =
      λ (name : Bytes) (vs : List Bytes) (at : values (upgrade_answer key).header name ≡ vs).
        ap (λ (r : Response). values r.header name) at_answer ∙ at in
    record {
      same_status =
          reads.status
          ∙ ap decimal carries.second_is
          ∙ decimal-itoa (answer_response p q).status_code;
      same_proto = reads.proto ∙ carries.first_is;
      at_upgrade =
          reads.at_upgrade
          ∙ carries.values_are upgrade
          ∙ kept_values upgrade _ (codes "websocket") (found upgrade _ u) refl;
      at_connection =
          reads.at_connection
          ∙ carries.values_are connection
          ∙ kept_values connection _ (codes "Upgrade") (found connection _ c) refl;
      at_accept =
          reads.at_accept
          ∙ carries.values_are sec_websocket_accept
          ∙ kept_values sec_websocket_accept _ (generate_sec_websocket_accept key)
              (found sec_websocket_accept _ a) (trimmed-encode _);
    }

-- The server's answer satisfies the client that has drawn the key.
answer_accepted :
    (pc ps : Platform) (req q : Request) (res : Response)
    → IsLegal q
    → get q.header sec_websocket_key ≡ generate_web_socket_key pc
    → ResponseArrives (answer_response ps q) res
    → validate_hand_shake_response res (get (printed pc req).1.header sec_websocket_key) ≡ none
answer_accepted pc ps req q res legal key_is back =
    (validate_hand_shake_response-IsUpgrade res _).1 (
      subst (IsUpgrade res) (key_is ∙ sym (printed_key pc req))
        (answer_response-IsUpgrade ps q res legal back))

-- Both ends of a connection come up. ClientHandShake sends a GET request of HTTP/1.1, http.ReadRequest
-- reads its bytes and ServerHandShake answers the request that it read, and http.ReadResponse reads
-- the bytes of that answer. Where the request's start line is three words, its fields have canonical
-- names and, as its host, no end of a line, the iterations of both headers meet each field once, the
-- two parsers find the start line's words and the values of the handshake's fields as a reader of the
-- bytes does, both wires take every byte, both writers hold 14 bytes and crypto/rand gives at least
-- one, the server gives a Conn that does not mask, writes behind its answer and reads on from its
-- reader, and the client one that masks, writes behind its request and reads on behind the response.
pub opening_connects :
    (pc ps : Platform) (keys_c keys_s : ℕ → Result MaskingKey) (rc rs r' : Reader) (wc ws : Out)
    (req q : Request) (m : Bytes) (res : Response)
    → req.method ≡ codes "GET"
    → req.proto ≡ codes "HTTP/1.1"
    → (pc.rand_read (replicate 16 0)).0 ≢ []
    → CanPrint pc req
    → (printed pc req).0 ≡ ok m
    → RequestReads m q
    → IsRange ps (answer_response ps q).header
    → ResponseReads (answer_message ps q) res
    → pc.read_response rc (printed pc req).1 ≡ (ok res, r')
    → wc.wire.fates ≡ []
    → ws.wire.fates ≡ []
    → 14 ≤ wc.writer.size
    → 14 ≤ ws.writer.size
    → ((server_hand_shake ps keys_s rs ws (some q)).0
        ≡ returned none (some (conn_over rs false keys_s (sent_behind ws (answer_message ps q)))))
      × ((client_hand_shake pc keys_c rc wc (some req)).0
          ≡ returned none (some (conn_over r' true keys_c (sent_behind wc m))))
opening_connects pc ps keys_c keys_s rc rs r' wc ws req q m res get_method proto drawn can is_m
      arrives range back read takes_c takes_s room_c room_s =
    let (legal, key_is) =
      upgraded-IsLegal pc req q get_method proto drawn
        (request_arrives pc req q m (printed-IsOpening pc req m can is_m) arrives) in
    (
      server_hand_shake_upgrades ps keys_s rs ws q legal takes_s room_s,
      client_hand_shake_upgrades pc keys_c rc wc req m res r' is_m takes_c room_c read (
          answer_accepted pc ps req q res legal key_is (
            response_arrives ps q (answer_message ps q) _ res legal
              (answer_message-Carries ps q range) back)),
    )
