-- ===== src/Frame/Header.antt =====
-- The two header bytes and the length fields as arithmetic, and what a receiver reads off them.
use wlgows.Base.{ℕ, ◌+◌, ◌*◌, ◌%◌, ◌^◌, ◌<◌, bit_or, ◌≡◌, Bool, true, false, arith, refl}
use wlgows.Base.Bits.{bit_and_mask, bit_or_fields}
use wlgows.Frame.{Frame, bool_to_int, header_byte_0, header_byte_1}

abbrev pub flags : Bool → Bool → Bool → Bool → ℕ
flags fin r1 r2 r3 = bool_to_int fin * 8 + bool_to_int r1 * 4 + bool_to_int r2 * 2 + bool_to_int r3

flags_or :
    (fin r1 r2 r3 : Bool)
    → bit_or
        (bit_or
          (bit_or (bool_to_int fin * 2 ^ 7) (bool_to_int r1 * 2 ^ 6))
          (bool_to_int r2 * 2 ^ 5))
        (bool_to_int r3 * 2 ^ 4)
      ≡ flags fin r1 r2 r3 * 2 ^ 4
unfolding bool_to_int
flags_or true true true true = refl
flags_or true true true false = refl
flags_or true true false true = refl
flags_or true true false false = refl
flags_or true false true true = refl
flags_or true false true false = refl
flags_or true false false true = refl
flags_or true false false false = refl
flags_or false true true true = refl
flags_or false true true false = refl
flags_or false true false true = refl
flags_or false true false false = refl
flags_or false false true true = refl
flags_or false false true false = refl
flags_or false false false true = refl
flags_or false false false false = refl

pub header_byte_0_sum :
    (f : Frame) → header_byte_0 f ≡ flags f.fin f.rsv1 f.rsv2 f.rsv3 * 16 + f.opcode % 16
unfolding header_byte_0
header_byte_0_sum f =
    rw (flags_or f.fin f.rsv1 f.rsv2 f.rsv3, bit_and_mask 4 f.opcode)
      (bit_or_fields 4 _ (f.opcode % 16) (omega arith))

pub header_byte_1_sum :
    (f : Frame)
    → f.payload_length < 128
    → header_byte_1 f ≡ bool_to_int f.mask * 128 + f.payload_length
unfolding header_byte_1
header_byte_1_sum f h = bit_or_fields 7 (bool_to_int f.mask) f.payload_length h
