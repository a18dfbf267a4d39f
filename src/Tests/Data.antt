-- ===== src/Tests/Data.antt =====
-- Inputs that the tests share: the masked "Hello" of RFC 6455 5.7 and what stands around it.
use wlgows.Base.{refl, inl, inr, ◌<◌, true, [], ◌∷◌, arith}
use wlgows.Base.Bytes.{Bytes, IsBytes}
use wlgows.Frame.{Frame, MaskingKey, zero_frame, fill_payload_length, get_max_payload_length}
use wlgows.Frame.Mask.Laws.{IsKey}
use wlgows.Read.{max_alloc}
use wlgows.Read.Header.{IsHeader}
use wlgows.Read.Laws.{IsSettled, IsSettled-IsHeader}

abbrev pub key : MaskingKey
key = record { k0 = 0x37; k1 = 0xfa; k2 = 0x21; k3 = 0x3d }

abbrev pub hello : Bytes
hello = 0x48 ∷ 0x65 ∷ 0x6c ∷ 0x6c ∷ 0x6f ∷ []

abbrev pub hello_frame : Frame
hello_frame = record zero_frame {
  fin = true;
  opcode = 1;
  mask = true;
  payload_length = 5;
  masking_key = key;
  payload_data = hello;
}

pub key-IsKey : IsKey key
key-IsKey = (omega arith, omega arith, omega arith, omega arith)

pub hello-IsBytes : IsBytes hello
hello-IsBytes = omega arith

pub hello_frame-IsSettled : IsSettled hello_frame
unfolding fill_payload_length
hello_frame-IsSettled = record {
  opcode_fits = omega arith;
  length_fits = omega arith;
  lengths = ground arith;
  unmasked_key = inl refl;
  key = key-IsKey;
  payload = hello-IsBytes;
}

pub hello_frame-IsHeader : IsHeader hello_frame
hello_frame-IsHeader = IsSettled-IsHeader hello_frame hello_frame-IsSettled

-- Eight bytes, and a tail.
abbrev pub nine_bytes : Bytes
nine_bytes = 1 ∷ 2 ∷ 3 ∷ 4 ∷ 5 ∷ 6 ∷ 7 ∷ 8 ∷ 9 ∷ []

pub nine_bytes-IsBytes : IsBytes nine_bytes
nine_bytes-IsBytes = omega arith

-- A header that declares 2 ^ 63 bytes.
abbrev pub huge_frame : Frame
huge_frame = record zero_frame {
  fin = true;
  opcode = 2;
  payload_length = 127;
  extended_payload_length = 0x8000_0000_0000_0000;
}

pub huge_frame-IsHeader : IsHeader huge_frame
huge_frame-IsHeader = record {
  opcode_fits = omega arith;
  length_fits = omega arith;
  inline = inl (omega arith);
  short = inl (omega arith);
  long = omega arith;
  unmasked_key = inr refl;
}

pub huge_frame_declares : max_alloc < get_max_payload_length huge_frame
unfolding get_max_payload_length
huge_frame_declares = omega arith
