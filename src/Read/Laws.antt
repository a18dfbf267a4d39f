-- ===== src/Read/Laws.antt =====
-- GetFrameFromReader reads back, whole and alone, the frame whose wire form lies ahead.
use wlgows.Base.{
  true, ◌⊎◌, inl, inr, ℕ, ◌^◌, ◌≤◌, ◌<◌, ◌≡◌, ap, false, none, [], ◌++◌, arith, length,
  if◌then◌else◌, append_assoc, leb, ltb, Bool-cases, ◌&&◌,
}
use wlgows.Base.Bytes.{Bytes, IsBytes}
use wlgows.Errors.{External}
use wlgows.Frame.{
  Frame, zero_key, append_sealed_header, fill_payload_length, get_max_payload_length,
}
use wlgows.Frame.Mask.{mask_payload}
use wlgows.Frame.Mask.Laws.{IsKey, mask_payload_twice, mask_payload-eq-mask_from, length-mask_from}
use wlgows.Read.{Reader, returned, max_alloc, read_payload, get_frame_from_reader, store_payload}
use wlgows.Read.Header.{
  reader, headed, read_exact, IsHeader, get_frame_from_reader-append_sealed_header,
}

-- The bytes that a send puts on the wire for a frame whose header fields are settled.
unfoldable pub wire_payload : Frame → Bytes
wire_payload f = if f.mask then mask_payload f.payload_data f.masking_key else f.payload_data

unfoldable pub wire : Frame → Bytes
wire f = append_sealed_header f [] ++ wire_payload f

-- The fields of a frame agree with one another, as a send settles them.
pub record IsSettled (f : Frame) : Type 0 where
  pub opcode_fits : f.opcode < 16
  pub length_fits : length f.payload_data ≤ max_alloc
  pub lengths : fill_payload_length f ≡ f
  pub unmasked_key : (f.mask ≡ true) ⊎ (f.masking_key ≡ zero_key)
  pub key : IsKey f.masking_key
  pub payload : IsBytes f.payload_data

-- The three shapes of the length fields.
abbrev Lengths : Frame → Type 0
Lengths f =
    ((f.payload_length ≤ 125)
      × (f.extended_payload_length ≡ 0)
      × (f.payload_length ≡ length f.payload_data))
    ⊎ ((f.payload_length ≡ 126)
        × (f.extended_payload_length ≡ length f.payload_data)
        × (length f.payload_data < 2 ^ 16))
    ⊎ ((f.payload_length ≡ 127) × (f.extended_payload_length ≡ length f.payload_data))

Lengths-cases : (f : Frame) → fill_payload_length f ≡ f → Lengths f
unfolding fill_payload_length
Lengths-cases f e =
    let e1 = ap (λ (g : Frame). g.payload_length) e in
    let e2 = ap (λ (g : Frame). g.extended_payload_length) e in
    elim (Bool-cases (leb (length f.payload_data) 125)) [
      | inl small ↦ inl (ground arith)
      | inr big ↦ elim (Bool-cases (leb (length f.payload_data) 65535)) [
        | inl mid ↦ inr (inl (ground arith))
        | inr huge ↦ inr (inr (ground arith))
      ]
    ]

pub IsSettled-IsHeader : (f : Frame) → IsSettled f → IsHeader f
IsSettled-IsHeader f h = elim (Lengths-cases f h.lengths) [
  | inl small ↦ settled (omega arith) (inr (omega arith)) (inr (omega arith)) (omega arith)
  | inr (inl mid) ↦ settled (omega arith) (inl (omega arith)) (inr (omega arith)) (omega arith)
  | inr (inr big) ↦
      settled (omega arith) (inl (omega arith)) (inl (omega arith)) (omega (arith, h.length_fits))
]
  where
    settled :
        f.payload_length < 128
        → (125 < f.payload_length) ⊎ (f.extended_payload_length ≡ 0)
        → (126 < f.payload_length) ⊎ (f.extended_payload_length < 2 ^ 16)
        → f.extended_payload_length < 2 ^ 64
        → IsHeader f
    settled a b c d = record {
      opcode_fits = h.opcode_fits;
      length_fits = a;
      inline = b;
      short = c;
      long = d;
      unmasked_key = h.unmasked_key;
    }

declared_lem : (f : Frame) → IsSettled f → get_max_payload_length (headed f) ≡ length f.payload_data
unfolding get_max_payload_length
declared_lem f h = elim (Lengths-cases f h.lengths) [
  | inl small ↦ ground arith
  | inr (inl mid) ↦ ground arith
  | inr (inr big) ↦ ground arith
]

pub length-wire_payload :
    (f : Frame) → IsSettled f → length (wire_payload f) ≡ length f.payload_data
unfolding wire_payload
length-wire_payload f h = elim (Bool-cases f.mask) [
  | inl m ↦
      rw (m, mask_payload-eq-mask_from _ _ h.key h.payload)
        (length-mask_from 0 f.payload_data f.masking_key)
  | inr u ↦ rw u
]

store_payload_lem :
    (f : Frame) (r : Reader)
    → IsSettled f
    → store_payload (headed f) (returned (wire_payload f) none r) ≡ returned f none r
unfolding store_payload wire_payload
store_payload_lem f r h =
    ground (arith, mask_payload_twice f.payload_data f.masking_key h.key h.payload)

guard_passes : (limit n : ℕ) → (limit ≡ 0) ⊎ (n ≤ limit) → (ltb 0 limit && ltb limit n) ≡ false
guard_passes limit n (inl z) = ground arith
guard_passes limit n (inr h) = ground arith

read_payload_lem :
    (limit : ℕ) (f : Frame) (rest : Bytes) (e : External)
    → IsSettled f
    → (limit ≡ 0) ⊎ (length f.payload_data ≤ limit)
    → read_payload limit (headed f) (reader (wire_payload f ++ rest) e)
      ≡ returned f none (reader rest e)
unfolding read_payload
read_payload_lem limit f rest e h fits =
    rw
      (
        declared_lem f h,
        guard_passes limit (length f.payload_data) fits,
        read_exact (length f.payload_data) (wire_payload f) rest e (length-wire_payload f h)
            h.length_fits,
      )
      (store_payload_lem f (reader rest e) h)

-- Where the wire form of a settled frame lies ahead, and its payload is within the limit (or the
-- limit is 0), one call of GetFrameFromReader returns exactly that frame, with every field as it
-- was and the payload unmasked, and leaves exactly what follows it.
pub get_frame_from_reader-wire :
    (f : Frame) (rest : Bytes) (e : External) (limit : ℕ)
    → IsSettled f
    → (limit ≡ 0) ⊎ (length f.payload_data ≤ limit)
    → get_frame_from_reader (reader (wire f ++ rest) e) limit ≡ returned f none (reader rest e)
unfolding wire
get_frame_from_reader-wire f rest e limit h fits =
    rw
      (
        append_assoc (append_sealed_header f []) (wire_payload f) rest,
        get_frame_from_reader-append_sealed_header f (wire_payload f ++ rest) e limit
            (IsSettled-IsHeader f h),
      )
      (read_payload_lem limit f rest e h fits)
