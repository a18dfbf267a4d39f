-- ===== src/Frame.antt =====
-- Frame.go: the frame, its header on the wire, and the fields that a send settles.
pub mod Mask
pub mod Header
use wlgows.Base.{
  ℕ, zero, suc, ◌+◌, ◌*◌, ◌%◌, ◌^◌, ◌<◌, bit_and, bit_or, ◌≡◌, Bool, true, false, List, [], ◌∷◌,
  ◌++◌, ◌||◌, ◌==◌, leb, length, if◌then◌else◌,
}
use wlgows.Base.Bytes.{Bytes, IsByte, IsBytes, put_be_uint}

-- [4]byte
pub record MaskingKey : Type 0 where
  pub k0 : ℕ
  pub k1 : ℕ
  pub k2 : ℕ
  pub k3 : ℕ

abbrev pub zero_key : MaskingKey
zero_key = record { k0 = 0; k1 = 0; k2 = 0; k3 = 0 }

abbrev pub key_bytes : MaskingKey → Bytes
key_bytes k = k.k0 ∷ k.k1 ∷ k.k2 ∷ k.k3 ∷ []

pub record Frame : Type 0 where
  pub fin : Bool
  pub rsv1 : Bool
  pub rsv2 : Bool
  pub rsv3 : Bool
  pub opcode : ℕ
  pub mask : Bool
  pub payload_length : ℕ
  pub extended_payload_length : ℕ
  pub masking_key : MaskingKey
  pub payload_data : Bytes

-- new(Frame)
abbrev pub zero_frame : Frame
zero_frame = record {
  fin = false;
  rsv1 = false;
  rsv2 = false;
  rsv3 = false;
  opcode = 0;
  mask = false;
  payload_length = 0;
  extended_payload_length = 0;
  masking_key = zero_key;
  payload_data = [];
}

unfoldable pub get_max_payload_length : Frame → ℕ
get_max_payload_length f =
    if f.payload_length == 127 || f.payload_length == 126
    then f.extended_payload_length
    else f.payload_length

unfoldable pub bool_to_int : Bool → ℕ
bool_to_int data' = if data' then 1 else 0

-- The `switch` on the 7-bit length, which three functions of the package make.
abbrev pub length_switch {ℓ} : {A : Type ℓ} → ℕ → A → A → A → A
length_switch payload_length at_126 at_127 otherwise =
    if payload_length == 126 then at_126 else if payload_length == 127 then at_127 else otherwise

unfoldable pub get_header_size : Frame → ℕ
get_header_size f =
    let size = length_switch f.payload_length (2 + 2) (2 + 8) 2 in if f.mask then size + 4 else size

-- Byte 0: FIN, RSV1-3, then the 4 bit opcode. `|` is on bytes, and no shift leaves one.
unfoldable pub header_byte_0 : Frame → ℕ
unfolding bool_to_int
header_byte_0 f =
    bit_or
      (bit_or
        (bit_or (bit_or (bool_to_int f.fin * 2 ^ 7) (bool_to_int f.rsv1 * 2 ^ 6))
          (bool_to_int f.rsv2 * 2 ^ 5))
        (bool_to_int f.rsv3 * 2 ^ 4))
      (bit_and f.opcode 15)

-- Byte 1: MASK, then the 7 bit payload length.
unfoldable pub header_byte_1 : Frame → ℕ
unfolding bool_to_int
header_byte_1 f = bit_or (bool_to_int f.mask * 2 ^ 7) f.payload_length

-- What follows the two bytes: the extended length and the masking key, where there are any.
unfoldable pub rest_header : Frame → Bytes
rest_header f =
    length_switch f.payload_length (put_be_uint 2 (f.extended_payload_length % 2 ^ 16))
      (put_be_uint 8 f.extended_payload_length) []
    ++ (if f.mask then key_bytes f.masking_key else [])

-- slices.Grow only makes room, so it has no part here.
unfoldable pub append_sealed_header : Frame → Bytes → Bytes
unfolding rest_header
append_sealed_header f buffer = buffer ++ (header_byte_0 f ∷ header_byte_1 f ∷ rest_header f)

pub record NewFrameConfig : Type 0 where
  pub payload_data : Bytes
  pub opcode : ℕ
  pub fin : Bool

unfoldable pub new_frame : NewFrameConfig → Frame
new_frame config = record zero_frame {
  fin = config.fin;
  opcode = config.opcode;
  payload_data = config.payload_data;
}

-- `len` is below 2 ^ 63, so `uint64(len(…))` is the number itself.
unfoldable pub fill_payload_length : Frame → Frame
fill_payload_length f =
    let data_length = length f.payload_data in
    if leb data_length 125
    then record f { payload_length = data_length % 2 ^ 8; extended_payload_length = 0 }
    else if leb data_length 65535
    then record f { payload_length = 126; extended_payload_length = data_length }
    else record f { payload_length = 127; extended_payload_length = data_length }
