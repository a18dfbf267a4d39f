-- ===== src/Read/Octets.antt =====
-- FrameRead.go against the octets of a frame: what the first two bytes ask for and declare.
use wlgows.Base.{
  ℕ, zero, suc, ◌+◌, ◌/◌, ◌%◌, ◌^◌, ◌==◌, ◌-◌, ◌∷◌, true, ◌≡◌, inl, inr, refl, sym, ◌∙◌, false, [],
  arith, length, take, drop, length-take, length-drop, if◌then◌else◌, Bool-cases,
}
use wlgows.Base.Bytes.{Bytes, be_uint}
use wlgows.Base.Bits.{bit_and_mask}
use wlgows.Frame.{Frame, MaskingKey, length_switch, get_max_payload_length}
use wlgows.Frame.Mask.{mask_payload}
use wlgows.Read.{byte_at, last_key, parse_first_section, rest_header_length, parse_rest_header}

-- How RFC 6455, 5.2 reads a header, given as its first two bytes, the extended length and the key.
abbrev pub extended_width : ℕ → ℕ
extended_width b1 = length_switch (b1 % 2 ^ 7) 2 8 0

abbrev pub key_width : ℕ → ℕ
key_width b1 = if b1 / 2 ^ 7 == 1 then 4 else 0

abbrev pub declared_length : ℕ → Bytes → ℕ
declared_length b1 extended =
    length_switch (b1 % 2 ^ 7) (be_uint extended) (be_uint extended) (b1 % 2 ^ 7)

abbrev pub key_from : Bytes → MaskingKey
key_from key = record {
  k0 = byte_at key 0;
  k1 = byte_at key 1;
  k2 = byte_at key 2;
  k3 = byte_at key 3;
}

-- The fields of the first two bytes.
pub record IsFirst (b0 b1 : ℕ) (f : Frame) : Type 0 where
  pub fin : f.fin ≡ (b0 / 2 ^ 7 == 1)
  pub rsv1 : f.rsv1 ≡ (b0 / 2 ^ 6 % 2 == 1)
  pub rsv2 : f.rsv2 ≡ (b0 / 2 ^ 5 % 2 == 1)
  pub rsv3 : f.rsv3 ≡ (b0 / 2 ^ 4 % 2 == 1)
  pub opcode : f.opcode ≡ b0 % 2 ^ 4
  pub mask : f.mask ≡ (b1 / 2 ^ 7 == 1)

-- All of the frame, against the bytes that it was read from.
pub record IsReading (b0 b1 : ℕ) (extended key body : Bytes) (f : Frame) : Type 0 where
  pub first : IsFirst b0 b1 f
  pub extended_size : length extended ≡ extended_width b1
  pub key_size : length key ≡ key_width b1
  pub body_size : length body ≡ declared_length b1 extended
  pub payload :
      f.payload_data ≡ (if b1 / 2 ^ 7 == 1 then mask_payload body (key_from key) else body)

pub two_bytes : (a : Bytes) → length a ≡ 2 → (b0 : ℕ) × (b1 : ℕ) × (a ≡ b0 ∷ b1 ∷ [])
two_bytes [] h = absurd (omega arith)
two_bytes (b0 ∷ []) h = absurd (omega arith)
two_bytes (b0 ∷ b1 ∷ []) h = (b0, b1, refl)
two_bytes (b0 ∷ b1 ∷ b2 ∷ a) h = absurd (omega arith)

byte_at-drop : (n i j : ℕ) (s : Bytes) → n + i ≡ j → byte_at (drop n s) i ≡ byte_at s j
byte_at-drop zero i j s e = let same : i ≡ j = omega arith in rw same refl
byte_at-drop (suc n) zero zero s e = absurd (omega arith)
byte_at-drop (suc n) (suc i) zero s e = absurd (omega arith)
byte_at-drop (suc n) zero (suc j) [] e = refl
byte_at-drop (suc n) (suc i) (suc j) [] e = refl
byte_at-drop (suc n) i (suc j) (b ∷ s) e = byte_at-drop n i j s (omega arith)

last_key-eq-key_from : (n : ℕ) (s : Bytes) → length s ≡ n + 4 → last_key s ≡ key_from (drop n s)
last_key-eq-key_from n s h =
    let i = length s - 4 in
    let at : (j : ℕ) → byte_at (drop n s) j ≡ byte_at s (i + j) =
      λ j. byte_at-drop n j (i + j) s (omega arith) in
    let start : byte_at (drop n s) 0 ≡ byte_at s i = byte_at-drop n 0 i s (omega arith) in
    rw (start, at 1, at 2, at 3) refl

pub rest_header_width :
    (b0 b1 : ℕ)
    → rest_header_length (parse_first_section (b0 ∷ b1 ∷ [])) ≡ extended_width b1 + key_width b1
unfolding rest_header_length parse_first_section
rest_header_width b0 b1 = rw (bit_and_mask 7 b1) (ground arith)

-- The header that the code has when its payload is read, against the bytes.
pub record IsHeaderOf (b0 b1 : ℕ) (extended key : Bytes) (g : Frame) : Type 0 where
  pub first : IsFirst b0 b1 g
  pub extended_size : length extended ≡ extended_width b1
  pub key_size : length key ≡ key_width b1
  pub declared : get_max_payload_length g ≡ declared_length b1 extended
  pub key_is : g.mask ≡ true → g.masking_key ≡ key_from key

pub first_section-IsFirst : (b0 b1 : ℕ) → IsFirst b0 b1 (parse_first_section (b0 ∷ b1 ∷ []))
unfolding parse_first_section
first_section-IsFirst b0 b1 = record {
  fin = refl;
  rsv1 = rw (bit_and_mask 1 (b0 / 2 ^ 6)) refl;
  rsv2 = rw (bit_and_mask 1 (b0 / 2 ^ 5)) refl;
  rsv3 = rw (bit_and_mask 1 (b0 / 2 ^ 4)) refl;
  opcode = bit_and_mask 4 b0;
  mask = refl;
}

pub first_section_length :
    (b0 b1 : ℕ) → (parse_first_section (b0 ∷ b1 ∷ [])).payload_length ≡ b1 % 2 ^ 7
unfolding parse_first_section
first_section_length b0 b1 = bit_and_mask 7 b1

pub rest_declares :
    (f : Frame) (s : Bytes) (n k : ℕ)
    → f.payload_length ≡ n
    → length s ≡ length_switch n 2 8 0 + k
    → get_max_payload_length (parse_rest_header f s)
      ≡ length_switch n
          (be_uint (take (length_switch n 2 8 0) s))
          (be_uint (take (length_switch n 2 8 0) s))
          n
unfolding get_max_payload_length parse_rest_header
rest_declares f s n k e h = rw e (ground arith)

pub rest_key :
    (f : Frame) (s : Bytes) (n : ℕ)
    → f.mask ≡ true
    → length s ≡ n + 4
    → (parse_rest_header f s).masking_key ≡ key_from (drop n s)
unfolding parse_rest_header
rest_key f s n e h = rw e (last_key-eq-key_from n s h)

pub rest-IsFirst :
    (b0 b1 : ℕ) (f : Frame) (s : Bytes) → IsFirst b0 b1 f → IsFirst b0 b1 (parse_rest_header f s)
unfolding parse_rest_header
rest-IsFirst b0 b1 f s h = record {
  fin = h.fin;
  rsv1 = h.rsv1;
  rsv2 = h.rsv2;
  rsv3 = h.rsv3;
  opcode = h.opcode;
  mask = h.mask;
}

-- Without a rest there is neither an extended length nor a key.
pub no_rest :
    (b0 b1 : ℕ) (extended : Bytes)
    → let f = parse_first_section (b0 ∷ b1 ∷ []) in
      rest_header_length f ≡ 0
      → (f.mask ≡ false) × (get_max_payload_length f ≡ declared_length b1 extended)
unfolding get_max_payload_length
no_rest b0 b1 extended none_left =
    let width = rest_header_width b0 b1 in
    let first = first_section-IsFirst b0 b1 in
    (first.mask ∙ ground arith, rw (first_section_length b0 b1) (ground arith))

pub widths :
    (b1 : ℕ) (s : Bytes)
    → length s ≡ extended_width b1 + key_width b1
    → (length (take (extended_width b1) s) ≡ extended_width b1)
      × (length (drop (extended_width b1) s) ≡ key_width b1)
widths b1 s h = (
  length-take (extended_width b1) s (omega (arith, h)),
  omega (arith, length-drop (extended_width b1) s, h),
)

pub key_there :
    (b1 : ℕ) (s : Bytes)
    → (b1 / 2 ^ 7 == 1) ≡ true
    → length s ≡ extended_width b1 + key_width b1
    → length s ≡ extended_width b1 + 4
key_there b1 s bit h = let four : key_width b1 ≡ 4 = rw bit refl in omega (arith, h, four)

pub stored-IsFirst :
    (b0 b1 : ℕ) (g : Frame) (bytes : Bytes)
    → IsFirst b0 b1 g
    → IsFirst b0 b1 (record g { payload_data = bytes })
stored-IsFirst b0 b1 g bytes h = record {
  fin = h.fin;
  rsv1 = h.rsv1;
  rsv2 = h.rsv2;
  rsv3 = h.rsv3;
  opcode = h.opcode;
  mask = h.mask;
}

pub unmasked :
    (b1 : ℕ) (body : Bytes) (g : Frame) (key : Bytes)
    → g.mask ≡ (b1 / 2 ^ 7 == 1)
    → (g.mask ≡ true → g.masking_key ≡ key_from key)
    → (if g.mask then mask_payload body g.masking_key else body)
      ≡ (if b1 / 2 ^ 7 == 1 then mask_payload body (key_from key) else body)
unmasked b1 body g key e key_is = elim (Bool-cases g.mask) [
  | inl masked ↦ rw (sym e, masked, key_is masked) refl
  | inr clear ↦ rw (sym e, clear) refl
]
