-- ===== src/Tests/Clients.antt =====
-- The client's handshake and dialling at concrete inputs, and their theorems at them.
use wlgows.Base.{arith, ◌≡◌, refl, ◌≢◌, ◌∷◌, true, false, none, some, [], ◌++◌, replicate}
use wlgows.Base.Bytes.{Bytes}
use wlgows.Errors.{ok, err, fresh}
use wlgows.Step.{returned}
use wlgows.Conn.{Conn, conn_over}
use wlgows.Http.{Request, Response}
use wlgows.Http.Text.{codes, same, trim_space, equal_fold, split, itoa}
use wlgows.Http.Base64.{encode}
use wlgows.Http.Sha1.{sum}
use wlgows.Http.Fields.{set, add, get, values, canonical, lines_at}
use wlgows.HandShake.Token.{header_has_token}
use wlgows.HandShake.Respond.{generate_response, sec_websocket_key, generate_sec_websocket_accept}
use wlgows.HandShake.Print.{put_host, request_to_plain_http_msg, header_lines}
use wlgows.HandShake.Server.{validate_hand_shake_request, answer_to, server_hand_shake}
use wlgows.HandShake.Server.Answer.{answer_response, answer_message}
use wlgows.HandShake.Client.{
  generate_web_socket_key, upgrade_header, upgrade_request, validate_hand_shake_response,
  client_hand_shake,
}
use wlgows.HandShake.Client.Rules.{IsUpgrade}
use wlgows.HandShake.Client.Answer.{printed}
use wlgows.HandShake.Client.Message.{IsOpening, CanPrint, client_hand_shake-IsUpgrade}
use wlgows.HandShake.Print.Reading.{IsWord, IsRange}
use wlgows.Http.Status.{status_text}
use wlgows.Http.Message.{message_values, first_word, second_word, third_word, trimmed}
use wlgows.Http.Message.Laws.{lacks, lacks-Lacks}
use wlgows.HandShake.Agreement.{RequestArrives, ResponseArrives, upgraded, upgrade_request_accepted}
use wlgows.HandShake.Opening.{sent_behind, opening_connects, RequestReads, ResponseReads}
use wlgows.Dial.{Dialer, dial}
use wlgows.Dial.Laws.{Connects, dial_lem}
use wlgows.Tests.Requests.{
  request, bare_request, switching, first_frame, platform, reader, keys, out,
}

abbrev client_request : Request
client_request = upgraded platform bare_request

drawn : (platform.rand_read (replicate 16 0)).0 ≢ []
drawn e = cc

request_arrives : RequestArrives (put_host client_request) client_request
unfolding put_host generate_web_socket_key upgrade_header values get set canonical same
request_arrives = record {
  same_method = refl;
  same_proto = refl;
  at_upgrade = refl;
  at_connection = refl;
  at_key = refl;
  at_version = refl;
}

response_arrives : ResponseArrives (answer_response platform client_request) switching
unfolding generate_web_socket_key upgrade_header values get set add canonical same
    validate_hand_shake_request header_has_token split equal_fold trim_space answer_to
    generate_response itoa generate_sec_websocket_accept encode sum
response_arrives = record {
  same_status = refl;
  same_proto = refl;
  at_upgrade = refl;
  at_connection = refl;
  at_accept = refl;
}

upgrade_request_accepted_example :
    (validate_hand_shake_request client_request ≡ none)
    × (validate_hand_shake_response switching (get client_request.header sec_websocket_key) ≡ none)
unfolding upgrade_request
upgrade_request_accepted_example =
    upgrade_request_accepted platform bare_request client_request switching refl refl drawn refl
      request_arrives response_arrives

abbrev client : Conn
client =
    conn_over first_frame true keys (record out {
      wire = (client_hand_shake platform keys reader out (some bare_request)).1.wire;
    })

client_conn :
    (client_hand_shake platform keys reader out (some bare_request)).0 ≡ returned none (some client)
unfolding client_hand_shake same header_has_token values canonical split equal_fold trim_space get
    generate_sec_websocket_accept encode sum set
client_conn = refl

word : (w : Bytes) → lacks 10 w ≡ true → lacks 13 w ≡ true → lacks b' ' w ≡ true → IsWord w
word w a b c = (lacks-Lacks 10 w a, lacks-Lacks 13 w b, lacks-Lacks b' ' w c)

-- The platform's iteration keeps the order of the header, which has each key once.
can_print : CanPrint platform bare_request
unfolding request_to_plain_http_msg put_host upgrade_header set get canonical same lines_at
can_print = record {
  fits = record {
    method = word (codes "GET") refl refl refl;
    target = word (codes "/chat") refl refl refl;
    proto = word (codes "HTTP/1.1") refl refl refl;
    fields = tt;
  };
  host =
      (lacks-Lacks 10 (codes "localhost:8001") refl, lacks-Lacks 13 (codes "localhost:8001") refl);
  range = record {
    only = λ P h. h;
    once = (refl, (refl, (refl, (refl, (refl, tt)))));
    at = λ name. refl;
  };
}

client_hand_shake-IsUpgrade_example :
    (m : Bytes) × ((client_hand_shake platform keys reader out (some bare_request)).1.wire.sent
      ≡ out.wire.sent ++ m)
    × IsOpening platform bare_request m
    × (res : Response) × (platform.read_response reader (printed platform bare_request).1
        ≡ (ok res, client.reader))
    × (k : Bytes) × (message_values m sec_websocket_key ≡ k ∷ [])
    × IsUpgrade res k
    × ((client_hand_shake platform keys reader out (some bare_request)).1.response ≡ some res)
    × (client.mask_send_frame ≡ true)
client_hand_shake-IsUpgrade_example =
    client_hand_shake-IsUpgrade platform keys reader out bare_request can_print client_conn

-- The whole request, as it is sent.
abbrev client_message : Bytes
client_message = (client_hand_shake platform keys reader out (some bare_request)).1.wire.sent

printed_message : (printed platform bare_request).0 ≡ ok client_message
unfolding request_to_plain_http_msg client_hand_shake
printed_message = refl

-- The bytes that were sent are read as the request, and those of the answer as the response.
request_read : RequestReads client_message client_request
unfolding client_hand_shake request_to_plain_http_msg put_host generate_web_socket_key
    upgrade_header values get set canonical same first_word third_word message_values trimmed encode
request_read = record {
  method = refl;
  proto = refl;
  at_upgrade = refl;
  at_connection = refl;
  at_key = refl;
  at_version = refl;
}

response_read : ResponseReads (answer_message platform client_request) switching
unfolding generate_web_socket_key upgrade_header values get set add canonical same
    validate_hand_shake_request header_has_token split equal_fold trim_space answer_to
    generate_response itoa generate_sec_websocket_accept encode sum first_word second_word
    message_values trimmed status_text header_lines
response_read = record {
  proto = refl;
  status = refl;
  at_upgrade = refl;
  at_connection = refl;
  at_accept = refl;
}

answer-IsRange : IsRange platform (answer_response platform client_request).header
unfolding generate_web_socket_key upgrade_header values get set add canonical same
    validate_hand_shake_request header_has_token split equal_fold trim_space answer_to
    generate_response itoa encode
answer-IsRange = record {
  only = λ P h. h;
  once = (refl, (refl, (refl, (refl, (refl, tt)))));
  at = λ name. refl;
}

opening_connects_example :
    ((server_hand_shake platform keys reader out (some client_request)).0
      ≡ returned none (
          some (
            conn_over reader false keys
              (sent_behind out (answer_message platform client_request)))))
    × ((client_hand_shake platform keys reader out (some bare_request)).0
        ≡ returned none (some (conn_over first_frame true keys (sent_behind out client_message))))
opening_connects_example =
    opening_connects platform platform keys keys reader reader first_frame out out bare_request
      client_request client_message switching refl refl drawn can_print printed_message request_read
      answer-IsRange response_read refl refl refl (omega arith) (omega arith)

-- A network whose connections are the addresses that they were dialled at.
abbrev dialer : Dialer Bytes (Unit {0})
dialer = record {
  new_request = λ method raw_url. ok request;
  net_dial = λ network address. ok address;
  tls_dial = λ network address config. err (fresh (codes "no TLS"));
}

dialled :
    dial dialer (codes "ws://localhost:8001/chat") tt ≡ ok (some (codes "localhost:8001"), request)
unfolding dial same
dialled = refl

dial_lem_example :
    (dialer.new_request (codes "GET") (codes "ws://localhost:8001/chat") ≡ ok request)
    × (request.url.host ≢ [])
    × (c : Bytes) × (some (codes "localhost:8001") ≡ some c)
    × Connects dialer tt request c
dial_lem_example = dial_lem dialer (codes "ws://localhost:8001/chat") tt dialled
