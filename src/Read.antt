-- ===== src/Read.antt =====
-- FrameRead.go: one frame off a reader. A reader is the bytes that still arrive and the error
-- that follows them; io.ReadFull and `make` are modelled as the code uses them.
pub mod Header
pub mod Laws
pub mod Guard
pub mod Octets
pub mod Consumed
use wlgows.Base.{
  ℕ, ◌+◌, ◌-◌, ◌*◌, ◌/◌, ◌%◌, ◌^◌, bit_and, Bool, true, false, Option, none, some, List, [], ◌∷◌,
  ◌++◌, ◌&&◌, ltb, leb, ◌==◌, length, take, drop, replicate, if◌then◌else◌,
}
use wlgows.Base.Bytes.{Bytes, be_uint}
use wlgows.Errors.{
  Error, External, external, eof, unexpected_eof, foreign, short_write, sentinel, wrapped,
  header_declares, frame_byte_length_exceeded,
}
use wlgows.Frame.{Frame, MaskingKey, zero_key, zero_frame, get_max_payload_length, length_switch}
use wlgows.Frame.Mask.{mask_payload}

pub record Reader : Type 0 where
  pub pending : Bytes
  pub ending : External

-- A call that fills a slice and reports an error, or that panics in `make`.
pub data Read {ℓ} (A : Type ℓ) : Type ℓ where
  returned : A → Option Error → Reader → Read A
  panicked : Read A

-- The largest slice of bytes that `make` gives on a 64-bit Linux; a longer one panics.
abbrev pub max_alloc : ℕ
max_alloc = 2 ^ 48

-- io.ReadFull reports an end behind the first byte as unexpected.
unfoldable pub read_full_error : Reader → External
read_full_error r = elim r.pending [
  | [] ↦ r.ending
  | b ∷ bs ↦ elim r.ending [
    | eof ↦ unexpected_eof
    | unexpected_eof ↦ unexpected_eof
    | short_write ↦ short_write
    | foreign n ↦ foreign n
  ]
]

-- io.ReadFull into a fresh slice of n bytes: what did not arrive stays zero.
unfoldable pub io_read_full : Reader → ℕ → Read Bytes
unfolding read_full_error
io_read_full r n =
    if leb n (length r.pending)
    then returned (take n r.pending) none (record r { pending = drop n r.pending })
    else returned (r.pending ++ replicate (n - length r.pending) 0)
        (some (external (read_full_error r))) (record r { pending = [] })

unfoldable pub read_from_reader : Reader → ℕ → Read Bytes
unfolding io_read_full
read_from_reader r max_len = if leb max_len max_alloc then io_read_full r max_len else panicked

-- `x, err := m; if err != nil { return f, err }; k x`
abbrev pub checked {ℓ κ} : {A : Type ℓ} {B : Type κ} → B → Read A → (A → Reader → Read B) → Read B
checked f (returned a none r) k = k a r
checked f (returned a (some e) r) k = returned f (some e) r
checked f panicked k = panicked

-- b[i] at an index that the caller knows is there
abbrev pub byte_at : Bytes → ℕ → ℕ
byte_at bs i = elim (drop i bs) [ [] ↦ 0 | b ∷ _ ↦ b ]

unfoldable pub parse_first_section : Bytes → Frame
parse_first_section first_sec =
    let b0 = byte_at first_sec 0 in
    let b1 = byte_at first_sec 1 in
    record zero_frame {
      fin = b0 / 2 ^ 7 == 1;
      rsv1 = bit_and (b0 / 2 ^ 6) 1 == 1;
      rsv2 = bit_and (b0 / 2 ^ 5) 1 == 1;
      rsv3 = bit_and (b0 / 2 ^ 4) 1 == 1;
      opcode = bit_and b0 15;
      payload_length = bit_and b1 0x7F;
      mask = b1 / 2 ^ 7 == 1;
    }

unfoldable pub rest_header_length : Frame → ℕ
rest_header_length f =
    let extended = length_switch f.payload_length 2 8 0 in if f.mask then extended + 4 else extended

-- [4]byte(b[len(b)-4:])
abbrev pub last_key : Bytes → MaskingKey
last_key bs =
    let i = length bs - 4 in
    record {
      k0 = byte_at bs i;
      k1 = byte_at bs (i + 1);
      k2 = byte_at bs (i + 2);
      k3 = byte_at bs (i + 3);
    }

unfoldable pub parse_rest_header : Frame → Bytes → Frame
parse_rest_header f rest_header = record f {
  extended_payload_length =
      length_switch f.payload_length (be_uint (take 2 rest_header)) (be_uint (take 8 rest_header))
        f.extended_payload_length;
  masking_key = if f.mask then last_key rest_header else f.masking_key;
}

-- What the payload's read leaves in the frame: unmasked, if it all arrived.
unfoldable pub store_payload : Frame → Read Bytes → Read Frame
store_payload f (returned bytes (some e) r) =
    returned (record f { payload_data = bytes }) (some e) r
store_payload f (returned bytes none r) =
    returned
      (record f { payload_data = if f.mask then mask_payload bytes f.masking_key else bytes }) none
      r
store_payload f panicked = panicked

-- The guard, the payload and the unmasking, once the header is in.
unfoldable pub read_payload : ℕ → Frame → Reader → Read Frame
read_payload max_byte_length f r =
    let declared = get_max_payload_length f in
    if ltb 0 max_byte_length && ltb max_byte_length declared
    then returned f
        (some (
          wrapped (header_declares declared max_byte_length) (sentinel frame_byte_length_exceeded)))
        r
    else store_payload f (read_from_reader r declared)

unfoldable pub read_rest_header : Frame → Reader → Read Frame
read_rest_header f r =
    let n = rest_header_length f in
    if ltb 0 n
    then checked f (read_from_reader r n)
        (λ rest_header r'. returned (parse_rest_header f rest_header) none r')
    else returned f none r

unfoldable pub get_frame_from_reader : Reader → ℕ → Read Frame
get_frame_from_reader r max_byte_length = checked zero_frame (read_from_reader r 2) (λ first_sec r'.
    let f = parse_first_section first_sec in
    checked f (read_rest_header f r') (read_payload max_byte_length))
