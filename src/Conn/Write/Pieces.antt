-- ===== src/Conn/Write/Pieces.antt =====
-- writeFrameHeader and writeFramePayload over a connection that takes what is written: the loop over
-- a masked payload ends, and its pieces are together the payload masked whole.
use wlgows.Base.{
  ℕ, zero, suc, ◌-◌, ◌*◌, ◌%◌, min, ◌≤◌, ◌<◌, ◌≡◌, ◌⊎◌, refl, ap, ap₂, sym, ◌∙◌, true, [], ◌∷◌,
  ◌++◌, arith, length, take, drop, length-take, length-drop, take-append-drop, append_assoc,
  append-nil, ltb, ◌==◌, Bool-cases, eq-nil_of_length, All-take, All-drop, inl, inr,
}
use wlgows.Base.Bytes.{Bytes, IsByte, IsBytes}
use wlgows.Frame.{Frame, MaskingKey, append_sealed_header, get_header_size}
use wlgows.Frame.Mask.{mask_payload}
use wlgows.Frame.Mask.Laws.{IsKey, mask_payload-append}
use wlgows.Read.Laws.{wire, wire_payload}
use wlgows.Step.{◌>>=◌}
use wlgows.Writer.{available}
use wlgows.Writer.Laws.{
  healthy, Sends, Sends->>=, Sends-step, Sends-stream, flush-healthy, write-healthy,
}
use wlgows.Conn.{write_frame_header, piece_size, write_masked, write_frame_payload}

pub write_frame_header-healthy :
    (f : Frame) (n : ℕ) (b s : Bytes)
    → length b ≤ n
    → Sends n ((s ++ b) ++ append_sealed_header f []) (write_frame_header f (healthy n b s))
unfolding write_frame_header
write_frame_header-healthy f n b s h =
    elim (Bool-cases (ltb (available (healthy n b s).writer) (get_header_size f))) [
      | inl narrow ↦ Sends-step (simp (narrow, flush-healthy n b s)) (
          Sends-stream (ap (λ x. x ++ append_sealed_header f []) (append-nil (s ++ b)))
            (write-healthy n (append_sealed_header f []) [] (s ++ b) (ground arith)))
      | inr wide ↦ Sends-step (simp wide) (write-healthy n (append_sealed_header f []) b s h)
    ]

-- Rounds that are enough: two for a byte, one less where the buffer is empty.
abbrev pub Enough : ℕ → Bytes → Bytes → Type 0
Enough fuel p b = (2 * length p ≤ fuel) ⊎ ((2 * length p ≤ suc fuel) × (b ≡ []))

pub piece_size_bounds :
    (free size : ℕ)
    → (piece_size free size ≤ size)
      × ((piece_size free size % 4 ≡ 0) ⊎ (piece_size free size ≡ size))
unfolding piece_size
piece_size_bounds free size = elim (Bool-cases (ltb (min free size) size)) [
  | inl part ↦ simp part (omega arith, inl (omega arith))
  | inr whole ↦ simp whole (omega arith, inr (ground arith))
]

piece_size_pos : (free size : ℕ) → 4 ≤ free → 0 < size → 0 < piece_size free size
unfolding piece_size
piece_size_pos free size wide some_left = elim (Bool-cases (ltb (min free size) size)) [
  | inl part ↦ simp part (ground arith)
  | inr whole ↦ simp whole (ground arith)
]

mask_payload-nil : (k : MaskingKey) → mask_payload [] k ≡ []
unfolding mask_payload
mask_payload-nil k = refl

-- A piece masked by itself and the rest masked from the key's start are the payload masked whole.
mask_payload_piece :
    (n : ℕ) (p : Bytes) (k : MaskingKey)
    → IsKey k
    → IsBytes p
    → n ≤ length p
    → (n % 4 ≡ 0) ⊎ (n ≡ length p)
    → mask_payload (take n p) k ++ mask_payload (drop n p) k ≡ mask_payload p k
mask_payload_piece n p k hk hp le (inl whole_keys) =
    sym (
      mask_payload-append (take n p) (drop n p) k hk (All-take IsByte n p hp)
        (All-drop IsByte n p hp) (omega (arith, length-take n p)))
    ∙ ap (λ q. mask_payload q k) (take-append-drop n p)
mask_payload_piece n p k hk hp le (inr last) =
    let none_left : drop n p ≡ [] = eq-nil_of_length (drop n p) (omega (arith, length-drop n p)) in
    let all_taken : take n p ≡ p =
      sym (append-nil (take n p))
      ∙ ap (λ q. take n p ++ q) (sym none_left)
      ∙ take-append-drop n p in
    ap₂ (λ q r. mask_payload q k ++ mask_payload r k) all_taken none_left
    ∙ ap (λ r. mask_payload p k ++ r) (mask_payload-nil k)
    ∙ append-nil (mask_payload p k)

pub Enough-flush :
    (n fuel : ℕ) (p b : Bytes)
    → Enough (suc fuel) p b
    → (piece_size (n - length b) (length p) == 0) ≡ true
    → 0 < length p
    → 4 ≤ n
    → Enough fuel p []
Enough-flush n fuel p b (inl h) nothing some_left wide = inr (h, refl)
Enough-flush n fuel p b (inr (h, e)) nothing some_left wide = absurd (
    ground (arith, piece_size_pos (n - length b) (length p) (omega (arith, ap length e)) some_left))

pub Enough-drop :
    (n fuel : ℕ) (p b b' : Bytes)
    → Enough (suc fuel) p b
    → 0 < n
    → n ≤ length p
    → Enough fuel (drop n p) b'
Enough-drop n fuel p b b' (inl h) some_taken le = inl (omega (arith, length-drop n p))
Enough-drop n fuel p b b' (inr (h, e)) some_taken le = inl (omega (arith, length-drop n p))

pub write_masked-healthy :
    (fuel : ℕ) (p : Bytes) (k : MaskingKey) (n : ℕ) (b s : Bytes)
    → IsKey k
    → IsBytes p
    → 4 ≤ n
    → length b ≤ n
    → Enough fuel p b
    → Sends n ((s ++ b) ++ mask_payload p k) (write_masked fuel p k (healthy n b s))
unfolding write_masked available
write_masked-healthy fuel [] k n b s hk hp wide fits enough = record {
  buf = b;
  sent = s;
  result = refl;
  stream = sym (append-nil (s ++ b)) ∙ ap (λ r. (s ++ b) ++ r) (sym (mask_payload-nil k));
  fits = fits;
}
write_masked-healthy zero (x ∷ p) k n b s hk hp wide fits enough = absurd (ground arith)
write_masked-healthy (suc fuel) (x ∷ p) k n b s hk hp wide fits enough =
    let size = piece_size (n - length b) (length (x ∷ p)) in
    elim (Bool-cases (size == 0)) [
      | inl nothing ↦ Sends-step (simp (nothing, flush-healthy n b s)) (
          Sends-stream (ap (λ x'. x' ++ mask_payload (x ∷ p) k) (append-nil (s ++ b))) (
            write_masked-healthy fuel (x ∷ p) k n [] (s ++ b) hk hp wide (ground arith)
              (Enough-flush n fuel (x ∷ p) b enough nothing (ground arith) wide)))
      | inr something ↦ Sends-step (simp something) (
          Sends-stream
            (append_assoc (s ++ b) (mask_payload (take size (x ∷ p)) k)
                (mask_payload (drop size (x ∷ p)) k)
              ∙ ap (λ r. (s ++ b) ++ r)
                  (mask_payload_piece size (x ∷ p) k hk hp (piece_size_bounds _ _).0
                    (piece_size_bounds _ _).1))
            (Sends->>= (write_masked fuel (drop size (x ∷ p)) k)
              (write-healthy n (mask_payload (take size (x ∷ p)) k) b s fits)
              (λ b' s' stream fits'.
                Sends-stream (ap (λ r. r ++ mask_payload (drop size (x ∷ p)) k) stream) (
                  write_masked-healthy fuel (drop size (x ∷ p)) k n b' s' hk
                    (All-drop IsByte size (x ∷ p) hp) wide fits'
                    (Enough-drop size fuel (x ∷ p) b b' enough (ground arith)
                      (piece_size_bounds _ _).0)))))
    ]

pub write_frame_payload-healthy :
    (f : Frame) (n : ℕ) (b s : Bytes)
    → IsKey f.masking_key
    → IsBytes f.payload_data
    → 4 ≤ n
    → length b ≤ n
    → Sends n ((s ++ b) ++ wire_payload f) (write_frame_payload f (healthy n b s))
unfolding write_frame_payload wire_payload
write_frame_payload-healthy f n b s hk hp wide fits = elim (Bool-cases f.mask) [
  | inl masked ↦ simp masked (
      write_masked-healthy (2 * length f.payload_data) f.payload_data f.masking_key n b s hk hp wide
        fits (inl (omega arith)))
  | inr plain ↦ simp plain (write-healthy n f.payload_data b s fits)
]

-- On a connection that takes what is written, a header and a payload written one after the other
-- succeed, and put the wire form of the frame behind what was written before, for any size of the
-- buffer from 4 bytes.
pub write_frame-wire :
    (f : Frame) (n : ℕ) (b s : Bytes)
    → IsKey f.masking_key
    → IsBytes f.payload_data
    → 4 ≤ n
    → length b ≤ n
    → Sends n ((s ++ b) ++ wire f) (write_frame_header f (healthy n b s) >>= write_frame_payload f)
unfolding wire
write_frame-wire f n b s hk hp wide fits =
    Sends->>= (write_frame_payload f) (write_frame_header-healthy f n b s fits)
      (λ b' s' stream fits'.
        Sends-stream
          (ap (λ r. r ++ wire_payload f) stream
            ∙ append_assoc (s ++ b) (append_sealed_header f []) (wire_payload f))
          (write_frame_payload-healthy f n b' s' hk hp wide fits'))
