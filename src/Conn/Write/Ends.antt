-- ===== src/Conn/Write/Ends.antt =====
-- Whatever the connection does, the writing of a frame returns.
use wlgows.Base.{
  ℕ, zero, suc, ◌+◌, ◌-◌, ◌*◌, ◌≤◌, ◌≡◌, ap, subst, sym, ◌∙◌, Bool, true, false, Option, none, some,
  [], ◌∷◌, arith, length, take, drop, ltb, ◌==◌, if◌then◌else◌, Bool-cases, inl, inr,
}
use wlgows.Base.Bytes.{Bytes}
use wlgows.Errors.{Error, Result, ok, err}
use wlgows.Frame.{Frame, MaskingKey, append_sealed_header, get_header_size}
use wlgows.Frame.Mask.{mask_payload}
use wlgows.Step.{Step, returned, stopped, ◌>>=◌, within}
use wlgows.Writer.{Out, available, flush, write}
use wlgows.Writer.Ends.{Ends, Ends->>=, Flushed, Written, flush-Ends, write-Ends}
use wlgows.Conn.{
  Conn, prepare_side, fill_masking_key, settle_fields, validate_send_frame, prepare_send_frame,
  buffered_write_frame, send_frame, min_writer_size, piece_size, write_frame_header, write_masked,
  write_frame_payload,
}
use wlgows.Conn.Write.Pieces.{Enough, Enough-flush, Enough-drop, piece_size_bounds}

write_masked-Ends :
    (fuel : ℕ) (p : Bytes) (k : MaskingKey) (n : ℕ) (o : Out)
    → o.writer.size ≡ n
    → 4 ≤ n
    → length o.writer.buf ≤ n
    → Enough fuel p o.writer.buf
    → Ends (Written n) (write_masked fuel p k o)
unfolding write_masked available
write_masked-Ends fuel [] k n o e wide fits enough = (e, fits)
write_masked-Ends zero (x ∷ p) k n o e wide fits enough = absurd (ground arith)
write_masked-Ends (suc fuel) (x ∷ p) k n o e wide fits enough =
    let size = piece_size (o.writer.size - length o.writer.buf) (length (x ∷ p)) in
    let small : length o.writer.buf ≤ o.writer.size = omega (arith, e) in
    elim (Bool-cases (size == 0)) [
      | inl nothing ↦ simp nothing (
          Ends->>= (Written n) (Flushed o.writer.size) (flush o) (write_masked fuel (x ∷ p) k)
            (flush-Ends o) (λ e s q. tt)
            (λ s q.
              write_masked-Ends fuel (x ∷ p) k n s (q.0 ∙ e) wide
                (omega (arith, ap (λ (b : Bytes). length b) q.1))
                (subst (λ b. Enough fuel (x ∷ p) b) (sym q.1)
                  (Enough-flush o.writer.size fuel (x ∷ p) o.writer.buf enough nothing
                    (ground arith) (omega (arith, e))))))
      | inr something ↦ simp something (
          Ends->>= (Written n) (Written o.writer.size)
            (write (mask_payload (take size (x ∷ p)) k) o) (write_masked fuel (drop size (x ∷ p)) k)
            (write-Ends (mask_payload (take size (x ∷ p)) k) o small) (λ e s q. tt)
            (λ s q.
              write_masked-Ends fuel (drop size (x ∷ p)) k n s (q.0 ∙ e) wide
                (omega (arith, e, q.1))
                (Enough-drop size fuel (x ∷ p) o.writer.buf s.writer.buf enough (ground arith)
                  (piece_size_bounds _ _).0)))
    ]

write_frame_header-Ends :
    (f : Frame) (o : Out)
    → length o.writer.buf ≤ o.writer.size
    → Ends (Written o.writer.size) (write_frame_header f o)
unfolding write_frame_header
write_frame_header-Ends f o h =
    let n = o.writer.size in
    let header = append_sealed_header f [] in
    elim (Bool-cases (ltb (available o.writer) (get_header_size f))) [
      | inl narrow ↦ simp narrow (
          Ends->>= (Written n) (Flushed n) (flush o) (write header) (flush-Ends o) (λ e s q. tt)
            (λ s q.
              subst (λ m. Ends (Written m) (write header s)) q.0
                (write-Ends header s (omega (arith, ap (λ (b : Bytes). length b) q.1)))))
      | inr wide ↦ simp wide (write-Ends header o h)
    ]

write_frame_payload-Ends :
    (f : Frame) (n : ℕ) (o : Out)
    → o.writer.size ≡ n
    → 4 ≤ n
    → length o.writer.buf ≤ n
    → Ends (Written n) (write_frame_payload f o)
unfolding write_frame_payload
write_frame_payload-Ends f n o e wide fits = elim (Bool-cases f.mask) [
  | inl masked ↦ simp masked (
      write_masked-Ends (2 * length f.payload_data) f.payload_data f.masking_key n o e wide fits
        (inl (omega arith)))
  | inr plain ↦ simp plain (
      subst (λ m. Ends (Written m) (write f.payload_data o)) e
        (write-Ends f.payload_data o (omega (arith, e))))
]

-- Behind a send: the connection's writer, where there was no error.
abbrev pub Kept : ℕ → Option Error → Frame × Conn → Type 0
Kept n e s = Written n e s.1.out

drawn-Ends :
    (r : Result MaskingKey) (f : Frame) (c : Conn) (n : ℕ)
    → Written n none c.out
    → Ends (Kept n) (
        within (λ f'. (f', record c { draws = c.draws + 1 })) (fill_masking_key r f) >>= λ s.
        returned none (settle_fields true s.0, s.1))
unfolding fill_masking_key
drawn-Ends (ok k) f c n h = h
drawn-Ends (err e) f c n h = tt

prepare_side-Ends :
    (m : Bool) (f : Frame) (c : Conn) (n : ℕ)
    → Written n none c.out
    → Ends (Kept n) (prepare_side m f c)
unfolding prepare_side
prepare_side-Ends true f c n h = drawn-Ends (c.keys c.draws) f c n h
prepare_side-Ends false f c n h = h

checked-Ends :
    (e : Option Error) (f : Frame) (c : Conn) (n : ℕ)
    → Written n none c.out
    → Ends (Kept n) (returned e (f, c) >>= λ s. prepare_send_frame s.0 s.1)
unfolding prepare_send_frame
checked-Ends (some e) f c n h = tt
checked-Ends none f c n h = prepare_side-Ends c.mask_send_frame f c n h

within-Ends :
    (f : Frame) (c : Conn) (n : ℕ) (r : Step Out)
    → Ends (Written n) r
    → Ends (Kept n) (within (λ o. (f, record c { out = o })) r)
within-Ends f c n (returned none o) h = h
within-Ends f c n (returned (some e) o) h = h
within-Ends f c n (stopped x) h = h

buffered_write_frame-Ends :
    (f : Frame) (c : Conn) (n : ℕ)
    → 4 ≤ n
    → Written n none c.out
    → Ends (Kept n) (buffered_write_frame f c)
unfolding buffered_write_frame
buffered_write_frame-Ends f c n wide h =
    Ends->>= (Kept n) (Kept n)
      (returned (validate_send_frame f c.close_sent) (f, c) >>= λ s. prepare_send_frame s.0 s.1) _
      (checked-Ends (validate_send_frame f c.close_sent) f c n h) (λ e s q. tt)
      (λ s q. within-Ends s.0 s.1 n (write_frame_header s.0 s.1.out >>= write_frame_payload s.0) (
        Ends->>= (Written n) (Written n) (write_frame_header s.0 s.1.out) (write_frame_payload s.0)
          (subst (λ m. Ends (Written m) (write_frame_header s.0 s.1.out)) q.0
            (write_frame_header-Ends s.0 s.1.out (omega (arith, q))))
          (λ e o t. tt) (λ o t. write_frame_payload-Ends s.0 n o t.0 wide t.1)))

flushed_conn-Ends :
    (s : Frame × Conn) (n : ℕ)
    → Kept n none s
    → Ends (Kept n) (within (λ o. (s.0, record s.1 { out = o })) (flush s.1.out))
flushed_conn-Ends s n q = within-Ends s.0 s.1 n (flush s.1.out) (
    weaken (flush s.1.out) (subst (λ m. Ends (Flushed m) (flush s.1.out)) q.0 (flush-Ends s.1.out)))
  where
    weaken : (r : Step Out) → Ends (Flushed n) r → Ends (Written n) r
    weaken (returned none o) h = (h.0, omega (arith, ap (λ (b : Bytes). length b) h.1))
    weaken (returned (some e) o) h = tt
    weaken (stopped x) h = h

closed_flag-Kept :
    (closing : Bool) (c : Conn) (f : Frame) (n : ℕ)
    → Kept n none (f, c)
    → Kept n none (f, if closing then record c { close_sent = true } else c)
closed_flag-Kept true c f n h = h
closed_flag-Kept false c f n h = h

-- Whatever the connection does, whatever the frame is and at any size of the buffer from 14 bytes,
-- a send returns: the loop over a masked payload ends, with all sent or at the first error. Behind
-- one without an error the writer is as ready for the next, its buffer within its size.
pub send_frame-Ends :
    (f : Frame) (c : Conn) (n : ℕ)
    → min_writer_size ≤ n
    → c.out.writer.size ≡ n
    → length c.out.writer.buf ≤ n
    → Ends (Kept n) (send_frame f c)
unfolding send_frame
send_frame-Ends f c n wide e fits =
    Ends->>= (Kept n) (Kept n)
      (buffered_write_frame f c >>= λ s.
        within (λ o. (s.0, record s.1 { out = o })) (flush s.1.out))
      _
      (Ends->>= (Kept n) (Kept n) (buffered_write_frame f c) _
        (buffered_write_frame-Ends f c n (omega arith) (e, fits)) (λ e s q. tt)
        (λ s q. flushed_conn-Ends s n q))
      (λ e s q. tt) (λ s q. closed_flag-Kept (s.0.opcode == 8) s.1 s.0 n q)
