-- ===== src/Conn/Closing.antt =====
-- The close handshake on the sending side: when a close counts as sent, and what is refused behind
-- it (RFC 6455 5.5.1).
use wlgows.Base.{
  ℕ, ◌+◌, ◌≡◌, refl, ap₂, ◌∙◌, Bool, true, false, ◌||◌, Option, none, some, arith, ◌==◌,
  if◌then◌else◌, Bool-cases, inl, inr,
}
use wlgows.Errors.{Error, Result, ok, err}
use wlgows.Frame.{Frame, MaskingKey, zero_key, fill_payload_length}
use wlgows.Opcode.{opcode_close}
use wlgows.Step.{Step, returned, ◌>>=◌, within, Always, Always->>=, Always-within}
use wlgows.Writer.{Out, flush}
use wlgows.Conn.{
  Conn, settle_fields, prepare_side, fill_masking_key, validate_send_frame, prepare_send_frame,
  write_frame_header, write_frame_payload, buffered_write_frame, send_frame,
}

-- The call keeps the opcode, and leaves the record of a close as `flag` has it.
abbrev Leaves : (flag : Option Error → Bool) → ℕ → Option Error → Frame × Conn → Type 0
Leaves flag opcode e s = (s.0.opcode ≡ opcode) × (s.1.close_sent ≡ flag e)

settle_fields_opcode : (m : Bool) (f : Frame) → (settle_fields m f).opcode ≡ f.opcode
unfolding settle_fields fill_payload_length
settle_fields_opcode m f = ground arith

drawn-Leaves :
    (r : Result MaskingKey) (f : Frame) (c : Conn)
    → Always (Leaves (λ _. c.close_sent) f.opcode) (
        within (λ f'. (f', record c { draws = c.draws + 1 })) (fill_masking_key r f) >>= λ s.
        returned none (settle_fields true s.0, s.1))
unfolding fill_masking_key
drawn-Leaves (ok k) f c = (settle_fields_opcode true (record f { masking_key = k }), refl)
drawn-Leaves (err e) f c = (refl, refl)

prepare_side-Leaves :
    (m : Bool) (f : Frame) (c : Conn)
    → Always (Leaves (λ _. c.close_sent) f.opcode) (prepare_side m f c)
unfolding prepare_side
prepare_side-Leaves true f c = drawn-Leaves (c.keys c.draws) f c
prepare_side-Leaves false f c =
    (settle_fields_opcode false (record f { masking_key = zero_key }), refl)

written-Leaves :
    (f : Frame) (c : Conn) (s : Frame × Conn) (r : Step Out)
    → Leaves (λ _. c.close_sent) f.opcode none s
    → Always (Leaves (λ _. c.close_sent) f.opcode) (within (λ o. (s.0, record s.1 { out = o })) r)
written-Leaves f c s r h =
    Always-within (Leaves (λ _. c.close_sent) f.opcode) (λ o. (s.0, record s.1 { out = o })) r
      (λ e o. h)

checked-Leaves :
    (e : Option Error) (f : Frame) (c : Conn)
    → Always
        (Leaves (λ _. c.close_sent) f.opcode)
        (returned e (f, c) >>= λ s. prepare_send_frame s.0 s.1)
unfolding prepare_send_frame
checked-Leaves (some e) f c = (refl, refl)
checked-Leaves none f c = prepare_side-Leaves c.mask_send_frame f c

buffered_write_frame-Leaves :
    (f : Frame) (c : Conn) → Always (Leaves (λ _. c.close_sent) f.opcode) (buffered_write_frame f c)
unfolding buffered_write_frame
buffered_write_frame-Leaves f c =
    let P = Leaves (λ _. c.close_sent) f.opcode in
    Always->>= P P
      (returned (validate_send_frame f c.close_sent) (f, c) >>= λ s. prepare_send_frame s.0 s.1) _
      (checked-Leaves (validate_send_frame f c.close_sent) f c) (λ e s h. h)
      (λ s h. written-Leaves f c s (write_frame_header s.0 s.1.out >>= write_frame_payload s.0) h)

-- The record of a close behind a send that returned `e`: only a success sets it.
abbrev pub sent_close : Bool → ℕ → Option Error → Bool
sent_close close_sent opcode none = opcode == opcode_close || close_sent
sent_close close_sent opcode (some e) = close_sent

close_flag :
    (opcode : ℕ) (c : Conn)
    → (if opcode == opcode_close then record c { close_sent = true } else c).close_sent
      ≡ (opcode == opcode_close || c.close_sent)
close_flag opcode c = elim (Bool-cases (opcode == opcode_close)) [
  | inl closing ↦ simp closing
  | inr other ↦ simp other
]

-- Whatever the connection does and whatever the frame is: a send that returns leaves the record of
-- a close as it was, save a close frame's that returned no error, which sets it. A close that was
-- refused, or whose write or flush failed, does not count as sent.
pub send_frame-sent_close :
    (f : Frame) (c : Conn)
    → Always
        (λ e s. (s.0.opcode ≡ f.opcode) × (s.1.close_sent ≡ sent_close c.close_sent f.opcode e))
        (send_frame f c)
unfolding send_frame
send_frame-sent_close f c =
    let P = Leaves (λ _. c.close_sent) f.opcode in
    let Q = Leaves (sent_close c.close_sent f.opcode) f.opcode in
    Always->>= Q P
      (buffered_write_frame f c >>= λ s.
        within (λ o. (s.0, record s.1 { out = o })) (flush s.1.out))
      _
      (Always->>= P P (buffered_write_frame f c) _ (buffered_write_frame-Leaves f c) (λ e s h. h)
        (λ s h. written-Leaves f c s (flush s.1.out) h))
      (λ e s h. h)
      (λ s h. (h.0, close_flag s.0.opcode s.1 ∙ ap₂ (λ op b. op == opcode_close || b) h.0 h.1))
