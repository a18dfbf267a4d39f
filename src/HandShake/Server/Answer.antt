-- ===== src/HandShake/Server/Answer.antt =====
-- What ServerHandShake sends and returns, on every branch.
use wlgows.Base.{
  ℕ, ◌≤◌, ◌≡◌, refl, ap, List, Bool, true, false, Option, none, some, [], ◌∷◌, ◌++◌, length, arith,
}
use wlgows.Base.Bytes.{Bytes}
use wlgows.Errors.{Error, Result}
use wlgows.Frame.{MaskingKey}
use wlgows.Read.{Reader}
use wlgows.Step.{Step, returned, stopped}
use wlgows.Writer.{Wire, Out, Fate, takes_all, fails_after, wire_write}
use wlgows.Conn.{Conn, conn_over, conn_from, new_conn, fit_writer}
use wlgows.Http.{Request, Response, Body, Platform}
use wlgows.HandShake.Respond.{ResponseWriter, generate_response}
use wlgows.HandShake.Outcome.{conn_unless}
use wlgows.HandShake.Print.{response_head, response_to_plain_http_msg, send_message}
use wlgows.HandShake.Server.{
  validate_hand_shake_request, answer_to, send_hand_shake_response, server_hand_shake_inner,
  server_hand_shake, or_invalid,
}
use wlgows.HandShake.Server.Rules.{IsLegal}
use wlgows.HandShake.Server.Verdicts.{validate_hand_shake_request-IsLegal}

-- The response to a request, and the message that it is printed as.
abbrev pub answer_writer : Platform → Request → ResponseWriter
answer_writer p req = answer_to p req (validate_hand_shake_request req)

abbrev pub answer_response : Platform → Request → Response
answer_response p req = (generate_response (answer_writer p req)).1

abbrev pub answer_message : Platform → Request → Bytes
answer_message p req = response_head p (answer_response p req) ++ (answer_writer p req).body

abbrev pub spent : Body
spent = record { left = []; ending = none; closed = true }

-- A Write that reports no error has sent the whole message.
pub wire_write_sent :
    (message : Bytes) (fates : List Fate) (wire : Wire)
    → (wire_write message fates wire).0.1 ≡ none
    → (wire_write message fates wire).1.sent ≡ wire.sent ++ message
unfolding wire_write
wire_write_sent message [] wire h = refl
wire_write_sent message (takes_all ∷ fates) wire h = refl
wire_write_sent message (fails_after n e ∷ fates) wire h = cc

pub wire_write-takes_all :
    (message : Bytes) (fates : List Fate) (wire : Wire)
    → fates ≡ []
    → wire_write message fates wire
      ≡ ((length message, none), record wire { sent = wire.sent ++ message })
unfolding wire_write
wire_write-takes_all message [] wire h = refl
wire_write-takes_all message (f ∷ fates) wire h = cc

-- serverHandShake at a request: one Write of the printed answer, and then the request's verdict.
inner_eq :
    (p : Platform) (req : Request) (wire : Wire)
    → let out = wire_write (answer_message p req) wire.fates wire in
      let res' = some (record (answer_response p req) { body = some spent }) in
      server_hand_shake_inner p (some req) wire ≡ record {
        request = some (record req { response = res' });
        response = res';
        error = or_invalid out.0.1 (validate_hand_shake_request req);
        wire = out.1;
      }
unfolding server_hand_shake_inner send_hand_shake_response response_to_plain_http_msg
    generate_response send_message
inner_eq p req wire = refl

pub server_hand_shake_inner_eq :
    (p : Platform) (req : Request) (wire : Wire)
    → wire.fates ≡ []
    → let shaken = server_hand_shake_inner p (some req) wire in
      (shaken.wire.sent ≡ wire.sent ++ answer_message p req)
      × (shaken.error ≡ validate_hand_shake_request req)
      × (shaken.response ≡ some (record (answer_response p req) { body = some spent }))
server_hand_shake_inner_eq p req wire h =
    rw (inner_eq p req wire, wire_write-takes_all (answer_message p req) wire.fates wire h)
      (refl, refl, refl)

conn_from-some :
    (make : Out → Conn) (r : Step Out) {e : Option Error} {c : Conn}
    → conn_from make r ≡ returned e (some c)
    → (o : Out) × (c ≡ make o)
unfolding conn_from
conn_from-some make (returned none o) h = (o, cc)
conn_from-some make (returned (some e) o) h = cc
conn_from-some make (stopped x) h = cc

or_invalid-none :
    (e invalid : Option Error) → or_invalid e invalid ≡ none → (e ≡ none) × (invalid ≡ none)
or_invalid-none none invalid h = (refl, h)
or_invalid-none (some e) invalid h = cc

pub conn_unless-some :
    (error : Option Error) (r : Reader) (w : Out) (mask : Bool) (keys : ℕ → Result MaskingKey)
    {e : Option Error} {c : Conn}
    → conn_unless error r w mask keys ≡ returned e (some c)
    → (error ≡ none) × (o : Out) × (c ≡ conn_over r mask keys o)
unfolding conn_unless new_conn
conn_unless-some none r w mask keys h =
    let (o, at_c) = conn_from-some (conn_over r mask keys) (fit_writer w) h in (refl, o, at_c)
conn_unless-some (some x) r w mask keys h = cc

-- Whatever the connection does, ServerHandShake gives a Conn only for a request that keeps every rule
-- and once the answer to it is sent whole; the Conn does not mask, and reads on from the reader.
pub server_hand_shake-IsLegal :
    (p : Platform) (keys : ℕ → Result MaskingKey) (r : Reader) (w : Out) (req : Option Request)
    {e : Option Error} {c : Conn}
    → (server_hand_shake p keys r w req).0 ≡ returned e (some c)
    → (q : Request) × (req ≡ some q)
      × IsLegal q
      × ((server_hand_shake p keys r w req).1.wire.sent ≡ w.wire.sent ++ answer_message p q)
      × (c.mask_send_frame ≡ false)
      × (c.reader ≡ r)
unfolding server_hand_shake
server_hand_shake-IsLegal p keys r w none h = let impossible : ⊥ = cc in absurd impossible
server_hand_shake-IsLegal p keys r w (some q) h =
    let (clean, o, at_c) = conn_unless-some _ r _ false keys h in
    let out : (ℕ × Option Error) × Wire = wire_write (answer_message p q) w.wire.fates w.wire in
    let (sent, valid) = or_invalid-none out.0.1 (validate_hand_shake_request q) clean in
    (
      q,
      refl,
      (validate_hand_shake_request-IsLegal q).0 valid,
      wire_write_sent (answer_message p q) w.wire.fates w.wire sent,
      ap (λ (k : Conn). k.mask_send_frame) at_c,
      ap (λ (k : Conn). k.reader) at_c,
    )

pub new_conn_room :
    (r : Reader) (o : Out) (mask : Bool) (keys : ℕ → Result MaskingKey)
    → 14 ≤ o.writer.size
    → new_conn r o mask keys ≡ returned none (some (conn_over r mask keys o))
unfolding new_conn
new_conn_room r o mask keys room = ground arith

pub conn_unless_clean :
    (message : Bytes) (invalid : Option Error) (r : Reader) (w : Out) (mask : Bool)
    (keys : ℕ → Result MaskingKey)
    → invalid ≡ none
    → w.wire.fates ≡ []
    → 14 ≤ w.writer.size
    → let out : (ℕ × Option Error) × Wire = wire_write message w.wire.fates w.wire in
      conn_unless (or_invalid out.0.1 invalid) r (record w { wire = out.1 }) mask keys
      ≡ returned none (
          some (
            conn_over r mask keys
              (record w { wire = record w.wire { sent = w.wire.sent ++ message } })))
unfolding conn_unless
conn_unless_clean message invalid r w mask keys valid takes room =
    rw (valid, wire_write-takes_all message w.wire.fates w.wire takes)
      (new_conn_room r _ mask keys room)

-- ServerHandShake does give a Conn: for every legal request, on a connection that takes every byte and
-- with a writer of at least 14 bytes. The Conn writes behind the answer.
pub server_hand_shake_upgrades :
    (p : Platform) (keys : ℕ → Result MaskingKey) (r : Reader) (w : Out) (q : Request)
    → IsLegal q
    → w.wire.fates ≡ []
    → 14 ≤ w.writer.size
    → (server_hand_shake p keys r w (some q)).0
      ≡ returned none (
          some (
            conn_over r false keys
              (record w { wire = record w.wire { sent = w.wire.sent ++ answer_message p q } })))
unfolding server_hand_shake
server_hand_shake_upgrades p keys r w q legal takes room =
    conn_unless_clean (answer_message p q) (validate_hand_shake_request q) r w false keys
      ((validate_hand_shake_request-IsLegal q).1 legal) takes room
