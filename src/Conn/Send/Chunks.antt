-- ===== src/Conn/Send/Chunks.antt =====
-- SendData over a connection that takes what is written: the frames it writes are one message.
use wlgows.Base.{
  ℕ, zero, suc, ◌+◌, ◌≤◌, ◌<◌, ◌≡◌, ◌⊎◌, refl, ap, ap₂, subst, sym, ◌∙◌, Bool, true, false, ◌||◌,
  none, [], ◌∷◌, ◌++◌, arith, length, take, drop, length-append, length-take, length-drop,
  take-append-drop, append_assoc, append-nil, leb, ◌==◌, if◌then◌else◌, Bool-cases, All-take,
  All-drop, inl, inr,
}
use wlgows.Base.Bytes.{Bytes, IsByte, IsBytes}
use wlgows.Errors.{ok}
use wlgows.Frame.{Frame, MaskingKey}
use wlgows.Message.Laws.{payload}
use wlgows.Read.{max_alloc}
use wlgows.Read.Laws.{wire}
use wlgows.Step.{Step, returned}
use wlgows.Writer.Laws.{healthy}
use wlgows.Conn.{Conn, buffered_write_frame}
use wlgows.Conn.Write.{
  sent_frame, sent_frame_fields, sent_frame-IsSettled, IsReady, buffered_write_frame-wire,
}
use wlgows.Conn.Send.{chunks_from, send_chunks}
use wlgows.Conn.Send.Fragments.{
  wires, over, IsSent, SendsMessage, validate_send_frame_open, data_opcode-lt,
  sent_frame-IsUnreserved, sent_frame_fin, IsMessage-cons, SendsMessage-step, CanSend, IsFragment,
  continued,
}

module _ (c : Conn) (keys : ℕ → MaskingKey) (n : ℕ) (can : CanSend c keys n) where
  pub ready :
      (d : ℕ) (b s : Bytes) → length b ≤ n → IsReady (over c d (healthy n b s)) (keys d) n b s
  ready d b s fits = record {
    out = refl;
    size = can.size;
    fits = fits;
    key = can.key d;
    drawn = drawn can.drawn;
  }
    where
      drawn :
          (c.mask_send_frame ≡ false) ⊎ ((i : ℕ) → c.keys i ≡ ok (keys i))
          → (c.mask_send_frame ≡ false) ⊎ (c.keys d ≡ ok (keys d))
      drawn (inl server) = inl server
      drawn (inr client) = inr (client d)

  pub sent_frame-IsSent :
      (d : ℕ) (f : Frame)
      → IsFragment f
      → IsBytes f.payload_data
      → length f.payload_data ≤ max_alloc
      → IsSent c.mask_send_frame (sent_frame c.mask_send_frame (keys d) f)
  sent_frame-IsSent d f h hp len = (
    sent_frame-IsSettled c.mask_send_frame (keys d) f (can.key d) hp
        (data_opcode-lt f.opcode h.data_opcode) len,
    (
      sent_frame-IsUnreserved c.mask_send_frame (keys d) f h.unreserved,
      (sent_frame_fields c.mask_send_frame (keys d) f).3,
    ),
  )

  last_chunk :
      (f : Frame) (d : ℕ) (b s : Bytes)
      → IsFragment f
      → f.fin ≡ true
      → IsBytes f.payload_data
      → length f.payload_data ≤ max_alloc
      → length b ≤ n
      → SendsMessage c n (s ++ b) f.opcode f.payload_data (
          chunks_from
            (buffered_write_frame f (over c d (healthy n b s)))
            (λ _ c'. returned none c'))
  unfolding chunks_from wires payload
  last_chunk f d b s h last hp len fits =
      let m = c.mask_send_frame in
      let g = sent_frame m (keys d) f in
      let fields = sent_frame_fields m (keys d) f in
      let w =
        buffered_write_frame-wire f (over c d (healthy n b s)) (keys d) n b s (ready d b s fits) hp
          (validate_send_frame_open f c.close_sent can.unclosed h.data_opcode) in
      record {
        frames = g ∷ [];
        buf = w.0;
        sent = w.1;
        drawn = if m then d + 1 else d;
        result = ap (λ r. chunks_from r (λ _ c'. returned none c')) w.2;
        stream = w.3 ∙ ap (λ x. (s ++ b) ++ x) (sym (append-nil (wire g)));
        shape = (fields.1, sent_frame_fin m (keys d) f h.data_opcode ∙ last);
        whole = append-nil g.payload_data ∙ fields.0;
        count = ground arith;
        each = (sent_frame-IsSent d f h hp len, tt);
      }

  next_chunk :
      (f : Frame) (d : ℕ) (b s : Bytes) (p : Bytes) (rest : Frame → Conn → Step Conn)
      → IsFragment f
      → f.fin ≡ false
      → 0 < length f.payload_data
      → IsBytes f.payload_data
      → length f.payload_data ≤ max_alloc
      → length b ≤ n
      → ((d' : ℕ) (b' s' : Bytes)
          → length b' ≤ n
          → SendsMessage c n
              (s' ++ b')
              0
              p
              (rest (sent_frame c.mask_send_frame (keys d) f) (over c d' (healthy n b' s'))))
      → SendsMessage c n
          (s ++ b)
          f.opcode
          (f.payload_data ++ p)
          (chunks_from (buffered_write_frame f (over c d (healthy n b s))) rest)
  unfolding chunks_from wires payload
  next_chunk f d b s p rest h more some_taken hp len fits k =
      let m = c.mask_send_frame in
      let g = sent_frame m (keys d) f in
      let fields = sent_frame_fields m (keys d) f in
      let w =
        buffered_write_frame-wire f (over c d (healthy n b s)) (keys d) n b s (ready d b s fits) hp
          (validate_send_frame_open f c.close_sent can.unclosed h.data_opcode) in
      let others = k (if m then d + 1 else d) w.0 w.1 w.4 in
      record {
        frames = g ∷ others.frames;
        buf = others.buf;
        sent = others.sent;
        drawn = others.drawn;
        result = ap (λ r. chunks_from r rest) w.2 ∙ others.result;
        stream =
            others.stream
            ∙ ap (λ x. x ++ wires others.frames) w.3
            ∙ append_assoc (s ++ b) (wire g) (wires others.frames);
        shape =
            IsMessage-cons f.opcode g others.frames fields.1
              (sent_frame_fin m (keys d) f h.data_opcode ∙ more) others.shape;
        whole = ap₂ (λ x y. x ++ y) fields.0 others.whole;
        count = omega (arith, others.count, length-append f.payload_data p);
        each = (sent_frame-IsSent d f h hp len, others.each);
      }

  pub send_chunks-healthy :
      (fuel : ℕ) (f : Frame) (p : Bytes) (chunk_size d : ℕ) (b s : Bytes)
      → IsFragment f
      → IsBytes p
      → length p ≤ max_alloc
      → length p < fuel
      → length b ≤ n
      → SendsMessage c n
          (s ++ b)
          f.opcode
          p
          (send_chunks fuel f p chunk_size (over c d (healthy n b s)))
  unfolding send_chunks
  send_chunks-healthy zero f p chunk_size d b s h hp len enough fits = absurd (omega arith)
  send_chunks-healthy (suc fuel) f p chunk_size d b s h hp len enough fits =
      elim (Bool-cases (chunk_size == 0 || leb (length p) chunk_size)) [
        | inl whole ↦ SendsMessage-step (simp whole) (
            last_chunk (record f { fin = true; payload_data = p }) d b s (set_fin true p) refl hp
              len fits)
        | inr part ↦ SendsMessage-step (simp part) (
            subst
              (λ q. SendsMessage c n (s ++ b) f.opcode q (
                chunks_from
                  (buffered_write_frame (record f { fin = false; payload_data = take chunk_size p })
                    (over c d (healthy n b s)))
                  rest))
              (take-append-drop chunk_size p)
              (next_chunk (record f { fin = false; payload_data = take chunk_size p }) d b s
                (drop chunk_size p) rest (set_fin false (take chunk_size p)) refl
                (ground (arith, length-take chunk_size p)) (All-take IsByte chunk_size p hp)
                (ground (arith, length-take chunk_size p)) fits
                (λ d' b' s' fits'.
                  send_chunks-healthy fuel
                    (record (sent_frame c.mask_send_frame (keys d)
                      (record f { fin = false; payload_data = take chunk_size p })) { opcode = 0 })
                    (drop chunk_size p) chunk_size d' b' s'
                    (continued
                      (sent_frame c.mask_send_frame (keys d)
                        (record f { fin = false; payload_data = take chunk_size p }))
                      (sent_frame-IsUnreserved c.mask_send_frame (keys d)
                        (record f { fin = false; payload_data = take chunk_size p }) h.unreserved))
                    (All-drop IsByte chunk_size p hp) (omega (arith, length-drop chunk_size p))
                    (ground (arith, length-drop chunk_size p)) fits')))
      ]
    where
      rest : Frame → Conn → Step Conn
      rest g c' = send_chunks fuel (record g { opcode = 0 }) (drop chunk_size p) chunk_size c'

      set_fin : (fin : Bool) (q : Bytes) → IsFragment (record f { fin = fin; payload_data = q })
      set_fin fin q = record { data_opcode = h.data_opcode; unreserved = h.unreserved }
