-- ===== src/Base/Bytes.antt =====
-- Byte strings, and the fixed-width integers of encoding/binary in both byte orders.
use Prim.Native.Nat.{ℕ, zero, suc, ◌+◌, ◌*◌, ◌/◌, ◌%◌, ◌^◌, ◌<◌}
use mathlib.Core.Path.{◌≡◌, refl, ap}
use mathlib.Core.List.{List, [], ◌∷◌}
use native.Mathlib.Omega.{arith}
use wlgows.Base.Lists.{length, All}

abbrev pub Bytes : Type 0
Bytes = List ℕ

abbrev pub IsByte : ℕ → Type 0
IsByte b = b < 256

abbrev pub IsBytes : Bytes → Type 0
IsBytes = All IsByte

abbrev pub IsU16 : ℕ → Type 0
IsU16 n = n < 2 ^ 16

abbrev pub IsU64 : ℕ → Type 0
IsU64 n = n < 2 ^ 64

-- binary.LittleEndian: the first byte is the lowest.
abbrev pub le_uint : Bytes → ℕ
le_uint [] = 0
le_uint (b ∷ bs) = le_uint bs * 256 + b

abbrev pub put_le_uint : ℕ → ℕ → Bytes
put_le_uint zero v = []
put_le_uint (suc n) v = v % 256 ∷ put_le_uint n (v / 256)

-- binary.BigEndian: the last byte is the lowest.
abbrev pub be_uint_from : ℕ → Bytes → ℕ
be_uint_from acc [] = acc
be_uint_from acc (b ∷ bs) = be_uint_from (acc * 256 + b) bs

abbrev pub be_uint : Bytes → ℕ
be_uint = be_uint_from 0

abbrev pub put_be_uint : ℕ → ℕ → Bytes
put_be_uint zero v = []
put_be_uint (suc n) v = v / 256 ^ n % 256 ∷ put_be_uint n v

pub length-put_be_uint : (n v : ℕ) → length (put_be_uint n v) ≡ n
length-put_be_uint zero v = refl
length-put_be_uint (suc n) v = ap suc (length-put_be_uint n v)

pub put_be_uint-IsBytes : (n v : ℕ) → IsBytes (put_be_uint n v)
put_be_uint-IsBytes zero v = tt
put_be_uint-IsBytes (suc n) v = (omega arith, put_be_uint-IsBytes n v)

-- Reading back the two widths that a frame header uses.
pub be_uint-put_be_uint_2 : (v : ℕ) → v < 2 ^ 16 → be_uint (put_be_uint 2 v) ≡ v
be_uint-put_be_uint_2 v h = omega arith

pub be_uint-put_be_uint_8 : (v : ℕ) → v < 2 ^ 64 → be_uint (put_be_uint 8 v) ≡ v
be_uint-put_be_uint_8 v h = omega arith
