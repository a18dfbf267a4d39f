-- ===== src/HandShake/Server/Message.antt =====
-- The answer that ServerHandShake sends, as a reader of its bytes finds it.
use wlgows.Base.{refl, Option, none, some, All}
use wlgows.Base.Bytes.{Bytes}
use wlgows.Errors.{Error}
use wlgows.Http.{Request, Platform}
use wlgows.Http.Text.{codes, itoa}
use wlgows.Http.Fields.{get}
use wlgows.Http.Message.Laws.{lacks-Lacks}
use wlgows.HandShake.Respond.{generate_response}
use wlgows.HandShake.Print.Fields.{IsField}
use wlgows.HandShake.Print.Plain.{generate_response-IsField, decline-IsField, upgrade-IsField}
use wlgows.HandShake.Print.Reading.{Carries, IsRange, IsWord, response-Carries}
use wlgows.HandShake.Server.{validate_hand_shake_request, answer_to}
use wlgows.HandShake.Server.Answer.{answer_writer, answer_response, answer_message}

answer_to-IsField :
    (p : Platform) (q : Request) (invalid : Option Error)
    → All IsField (answer_to p q invalid).header
unfolding answer_to
answer_to-IsField p q none = upgrade-IsField (get q.header (codes "Sec-Websocket-Key"))
answer_to-IsField p q (some e) = decline-IsField (p.error_text e) (some e)

proto-IsWord : IsWord (codes "HTTP/1.1")
proto-IsWord = (
  lacks-Lacks 10 (codes "HTTP/1.1") refl,
  lacks-Lacks 13 (codes "HTTP/1.1") refl,
  lacks-Lacks b' ' (codes "HTTP/1.1") refl,
)

-- Whatever the request, the answer reads as its status, its header and its body.
pub answer_message-Carries :
    (p : Platform) (q : Request)
    → IsRange p (answer_response p q).header
    → Carries
        (answer_message p q)
        (codes "HTTP/1.1")
        (itoa (answer_response p q).status_code)
        (answer_response p q).header
        (answer_writer p q).body
unfolding generate_response
answer_message-Carries p q range =
    response-Carries p (answer_response p q) (answer_writer p q).body proto-IsWord
      (generate_response-IsField (answer_writer p q)
        (answer_to-IsField p q (validate_hand_shake_request q)))
      range
