-- ===== src/Read/Header.antt =====
-- What GetFrameFromReader makes of the header bytes that a frame was sealed into.
use wlgows.Base.{
  true, ◌⊎◌, inl, inr, ℕ, ◌+◌, ◌*◌, ◌/◌, ◌%◌, ◌^◌, ◌≤◌, ◌<◌, bit_and, ◌≡◌, refl, ap, ◌∙◌, Bool,
  none, [], ◌∷◌, ◌++◌, arith, length, length-append, take-append, drop-append, ltb, Bool-cases,
  eq-nil_of_length, ◌==◌,
}
use wlgows.Base.Bits.{bit_and_mask}
use wlgows.Base.Bytes.{Bytes}
use wlgows.Errors.{External}
use wlgows.Frame.{
  Frame, zero_key, bool_to_int, header_byte_0, header_byte_1, rest_header, append_sealed_header,
}
use wlgows.Frame.Header.{flags, header_byte_0_sum, header_byte_1_sum}
use wlgows.Read.{
  Reader, returned, max_alloc, read_from_reader, parse_first_section, rest_header_length,
  parse_rest_header, read_payload, read_rest_header, get_frame_from_reader,
}

-- A reader that still has `bytes`, and then ends.
abbrev pub reader : Bytes → External → Reader
reader bytes e = record { pending = bytes; ending = e }

pub read_exact :
    (n : ℕ) (a rest : Bytes) (e : External)
    → length a ≡ n
    → n ≤ max_alloc
    → read_from_reader (reader (a ++ rest) e) n ≡ returned a none (reader rest e)
unfolding read_from_reader
read_exact n a rest e la fits =
    ground (arith, take-append n a rest la, drop-append n a rest la, length-append a rest)

-- The frame as far as its first two bytes tell it.
abbrev first_part : Frame → Frame
first_part f = record f { extended_payload_length = 0; masking_key = zero_key; payload_data = [] }

flag_bits :
    (a b c d : Bool) (n lo : ℕ)
    → n ≡ flags a b c d * 16 + lo
    → lo < 16
    → ((n / 2 ^ 7 == 1) ≡ a)
      × ((bit_and (n / 2 ^ 6) 1 == 1) ≡ b)
      × ((bit_and (n / 2 ^ 5) 1 == 1) ≡ c)
      × ((bit_and (n / 2 ^ 4) 1 == 1) ≡ d)
unfolding bool_to_int
flag_bits a b c d n lo e h =
    rw (bit_and_mask 1 (n / 2 ^ 6), bit_and_mask 1 (n / 2 ^ 5), bit_and_mask 1 (n / 2 ^ 4))
      (ground arith)

mask_bit : (m : Bool) (n lo : ℕ) → n ≡ bool_to_int m * 128 + lo → lo < 128 → (n / 2 ^ 7 == 1) ≡ m
unfolding bool_to_int
mask_bit m n lo e h = ground arith

parse_first_lem :
    (f : Frame)
    → f.opcode < 16
    → f.payload_length < 128
    → parse_first_section (header_byte_0 f ∷ header_byte_1 f ∷ []) ≡ first_part f
unfolding parse_first_section
parse_first_lem f ho hl =
    let bits =
      flag_bits f.fin f.rsv1 f.rsv2 f.rsv3 (header_byte_0 f) (f.opcode % 16) (header_byte_0_sum f)
        (omega arith) in
    let masked = mask_bit f.mask (header_byte_1 f) f.payload_length (header_byte_1_sum f hl) hl in
    cc (bits.0, bits.1, bits.2, bits.3, masked, low0, low1)
  where
    low0 : bit_and (header_byte_0 f) 15 ≡ f.opcode
    low0 = omega (arith, bit_and_mask 4 (header_byte_0 f), header_byte_0_sum f)

    low1 : bit_and (header_byte_1 f) 0x7F ≡ f.payload_length
    low1 = omega (arith, bit_and_mask 7 (header_byte_1 f), header_byte_1_sum f hl)

-- The header fields of a frame fit their places on the wire, and agree with one another.
pub record IsHeader (f : Frame) : Type 0 where
  pub opcode_fits : f.opcode < 16
  pub length_fits : f.payload_length < 128
  pub inline : (125 < f.payload_length) ⊎ (f.extended_payload_length ≡ 0)
  pub short : (126 < f.payload_length) ⊎ (f.extended_payload_length < 2 ^ 16)
  pub long : f.extended_payload_length < 2 ^ 64
  pub unmasked_key : (f.mask ≡ true) ⊎ (f.masking_key ≡ zero_key)

-- The frame as its whole header tells it.
abbrev pub headed : Frame → Frame
headed f = record f { payload_data = [] }

length-rest_header :
    (f : Frame)
    → (length (rest_header f) ≡ rest_header_length (first_part f))
      × (rest_header_length (first_part f) ≤ 12)
unfolding rest_header rest_header_length
length-rest_header f = ground arith

extended_back :
    (f : Frame)
    → IsHeader f
    → (parse_rest_header (first_part f) (rest_header f)).extended_payload_length
      ≡ f.extended_payload_length
unfolding parse_rest_header rest_header
extended_back f h = ground (arith, h.inline, h.short, h.long)

key_back :
    (f : Frame)
    → IsHeader f
    → (parse_rest_header (first_part f) (rest_header f)).masking_key ≡ f.masking_key
unfolding parse_rest_header rest_header
key_back f h = ground (arith, h.unmasked_key)

parse_rest_lem :
    (f : Frame) → IsHeader f → parse_rest_header (first_part f) (rest_header f) ≡ headed f
unfolding parse_rest_header
parse_rest_lem f h =
    let ext = extended_back f h in
    let key = key_back f h in
    λ i. record f { extended_payload_length = ext i; masking_key = key i; payload_data = [] }

-- No header left to read means that there is nothing in it.
no_rest_header :
    (f : Frame) → IsHeader f → rest_header_length (first_part f) ≡ 0 → headed f ≡ first_part f
unfolding rest_header_length
no_rest_header f h e =
    let p : f.extended_payload_length ≡ 0 = ground (arith, h.inline) in
    let q : f.masking_key ≡ zero_key = ground (arith, h.unmasked_key) in
    λ i. record f { extended_payload_length = p i; masking_key = q i; payload_data = [] }

read_rest_header_lem :
    (f : Frame) (body : Bytes) (e : External)
    → IsHeader f
    → read_rest_header (first_part f) (reader (rest_header f ++ body) e)
      ≡ returned (headed f) none (reader body e)
unfolding read_rest_header
read_rest_header_lem f body e h =
    let n = rest_header_length (first_part f) in
    let (len, small) = length-rest_header f in
    elim (Bool-cases (ltb 0 n)) [
      | inl more ↦
          rw (more, read_exact n (rest_header f) body e len (omega arith))
            (ap (λ g. returned g none (reader body e)) (parse_rest_lem f h))
      | inr over ↦
          let z : n ≡ 0 = ground arith in
          rw (over, eq-nil_of_length (rest_header f) (len ∙ z), no_rest_header f h z) refl
    ]

-- A sealed header is read back field by field, and the rest of the read goes on from there.
pub get_frame_from_reader-append_sealed_header :
    (f : Frame) (body : Bytes) (e : External) (limit : ℕ)
    → IsHeader f
    → get_frame_from_reader (reader (append_sealed_header f [] ++ body) e) limit
      ≡ read_payload limit (headed f) (reader body e)
unfolding get_frame_from_reader append_sealed_header
get_frame_from_reader-append_sealed_header f body e limit h =
    let first = header_byte_0 f ∷ header_byte_1 f ∷ [] in
    rw
      (
        read_exact 2 first (rest_header f ++ body) e refl (omega arith),
        parse_first_lem f h.opcode_fits h.length_fits,
        read_rest_header_lem f body e h,
      )
      refl
