-- ===== src/Message/Laws.antt =====
-- The payloads of a message, joined and measured.
use wlgows.Base.{
  ℕ, ◌+◌, ◌≡◌, refl, ap, sym, ◌∙◌, [], ◌∷◌, ◌++◌, arith, length, length-append, append_assoc,
  append-nil,
}
use wlgows.Base.Bytes.{Bytes}
use wlgows.Frame.{Frame}
use wlgows.Message.{Frames, byte_len_from, byte_len, bytes_from, bytes, string}

-- The specification: 5.4 makes a message the concatenation of its fragments.
unfoldable pub payload : Frames → Bytes
payload [] = []
payload (f ∷ fs) = f.payload_data ++ payload fs

bytes_from-eq : (acc : Bytes) (fs : Frames) → bytes_from acc fs ≡ acc ++ payload fs
unfolding bytes_from payload
bytes_from-eq acc [] = sym (append-nil acc)
bytes_from-eq acc (f ∷ fs) =
    bytes_from-eq (acc ++ f.payload_data) fs ∙ append_assoc acc f.payload_data (payload fs)

pub bytes-eq-payload : (fs : Frames) → bytes fs ≡ payload fs
unfolding bytes
bytes-eq-payload fs = bytes_from-eq [] fs

pub payload-append : (fs gs : Frames) → payload (fs ++ gs) ≡ payload fs ++ payload gs
unfolding payload
payload-append [] gs = refl
payload-append (f ∷ fs) gs =
    ap (λ p. f.payload_data ++ p) (payload-append fs gs)
    ∙ sym (append_assoc f.payload_data (payload fs) (payload gs))

byte_len_from-eq : (n : ℕ) (fs : Frames) → byte_len_from n fs ≡ n + length (payload fs)
unfolding byte_len_from payload
byte_len_from-eq n [] = omega arith
byte_len_from-eq n (f ∷ fs) = omega (
  arith,
  byte_len_from-eq (n + length f.payload_data) fs,
  length-append f.payload_data (payload fs),
)

-- String and Bytes return the payloads joined in wire order, and ByteLen is the length of what
-- they return.
pub bytes-string-byte_len :
    (fs : Frames)
    → (bytes fs ≡ payload fs) × (string fs ≡ payload fs) × (byte_len fs ≡ length (bytes fs))
unfolding byte_len string
bytes-string-byte_len fs = (
  bytes-eq-payload fs,
  bytes_from-eq [] fs,
  rw (bytes-eq-payload fs) (omega (arith, byte_len_from-eq 0 fs)),
)

pub byte_len-append : (fs gs : Frames) → byte_len (fs ++ gs) ≡ byte_len fs + byte_len gs
unfolding byte_len
byte_len-append fs gs = omega (
  arith,
  byte_len_from-eq 0 (fs ++ gs),
  byte_len_from-eq 0 fs,
  byte_len_from-eq 0 gs,
  ap (length {A = ℕ}) (payload-append fs gs),
  length-append (payload fs) (payload gs),
)

pub byte_len-single : (f : Frame) → byte_len (f ∷ []) ≡ length f.payload_data
unfolding byte_len
byte_len-single f = omega arith

pub byte_len-nil : byte_len [] ≡ 0
unfolding byte_len
byte_len-nil = refl
