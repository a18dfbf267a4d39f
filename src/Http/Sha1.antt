-- ===== src/Http/Sha1.antt =====
-- crypto/sha1, as FIPS 180-4 defines it, on bytes: words are 32 bits, with the wrap-around written
-- out.
use Prim.Native.Nat.{bit_and, bit_or, bit_xor}
use wlgows.Base.{
  ℕ, ◌≡◌, refl, zero, suc, ◌+◌, ◌-◌, ◌*◌, ◌/◌, ◌%◌, ◌^◌, List, [], ◌∷◌, ◌++◌, ltb, length,
  replicate, take, drop, if◌then◌else◌,
}
use wlgows.Base.Bytes.{Bytes, be_uint, put_be_uint}

abbrev word : ℕ → ℕ
word x = x % 2 ^ 32

abbrev rotate_left : ℕ → ℕ → ℕ
rotate_left k x = word (x * 2 ^ k) + x / 2 ^ (32 - k)

abbrev complement : ℕ → ℕ
complement x = 2 ^ 32 - 1 - x

pub record Digest : Type 0 where
  pub h0 : ℕ
  pub h1 : ℕ
  pub h2 : ℕ
  pub h3 : ℕ
  pub h4 : ℕ

abbrev start : Digest
start = record {
  h0 = 0x67452301;
  h1 = 0xEFCDAB89;
  h2 = 0x98BADCFE;
  h3 = 0x10325476;
  h4 = 0xC3D2E1F0;
}

unfoldable pub mix : ℕ → ℕ → ℕ → ℕ → ℕ
mix t b c d =
    if ltb t 20
    then bit_or (bit_and b c) (bit_and (complement b) d)
    else if ltb t 40
    then bit_xor (bit_xor b c) d
    else if ltb t 60
    then bit_or (bit_or (bit_and b c) (bit_and b d)) (bit_and c d)
    else bit_xor (bit_xor b c) d

unfoldable pub round_constant : ℕ → ℕ
round_constant t =
    if ltb t 20
    then 0x5A827999
    else if ltb t 40
    then 0x6ED9EBA1
    else if ltb t 60
    then 0x8F1BBCDC
    else 0xCA62C1D6

unfoldable pub round : ℕ → ℕ → Digest → Digest
unfolding mix round_constant
round t w d = record {
  h0 = word (rotate_left 5 d.h0 + mix t d.h1 d.h2 d.h3 + d.h4 + round_constant t + w);
  h1 = d.h0;
  h2 = rotate_left 30 d.h1;
  h3 = d.h2;
  h4 = d.h3;
}

-- The words of the schedule: the last sixteen, the newest first, make the next one.
abbrev next_word : List ℕ → ℕ
next_word (a ∷ b ∷ c ∷ d ∷ e ∷ f ∷ g ∷ h ∷ i ∷ j ∷ k ∷ l ∷ m ∷ n ∷ o ∷ p ∷ _) =
    rotate_left 1 (bit_xor (bit_xor (bit_xor c h) n) p)
next_word _ = 0

unfoldable pub rounds : ℕ → ℕ → List ℕ → List ℕ → Digest → Digest
unfolding round
rounds zero t ahead window d = d
rounds (suc k) t [] window d =
    let w = next_word window in rounds k (t + 1) [] (w ∷ take 15 window) (round t w d)
rounds (suc k) t (w ∷ ahead) window d = rounds k (t + 1) ahead (w ∷ window) (round t w d)

unfoldable pub words : ℕ → Bytes → List ℕ
words zero s = []
words (suc n) s = be_uint (take 4 s) ∷ words n (drop 4 s)

unfoldable pub block : Bytes → Digest → Digest
unfolding rounds words
block s d =
    let e = rounds 80 0 (words 16 s) [] d in
    record {
      h0 = word (d.h0 + e.h0);
      h1 = word (d.h1 + e.h1);
      h2 = word (d.h2 + e.h2);
      h3 = word (d.h3 + e.h3);
      h4 = word (d.h4 + e.h4);
    }

unfoldable pub blocks : ℕ → Bytes → Digest → Digest
unfolding block
blocks zero s d = d
blocks (suc n) s d = blocks n (drop 64 s) (block (take 64 s) d)

-- A one bit, zeros, and the length in bits: whole blocks of 64 bytes.
unfoldable pub padded : Bytes → Bytes
padded s =
    let n = length s in s ++ 0x80 ∷ [] ++ replicate ((119 - n % 64) % 64) 0 ++ put_be_uint 8 (n * 8)

unfoldable pub sum : Bytes → Bytes
unfolding blocks padded
sum s =
    let p = padded s in
    let d = blocks (length p / 64) p start in
    put_be_uint 4 d.h0
    ++ put_be_uint 4 d.h1
    ++ put_be_uint 4 d.h2
    ++ put_be_uint 4 d.h3
    ++ put_be_uint 4 d.h4

-- A digest has 20 bytes.
pub length-sum : (s : Bytes) → length (sum s) ≡ 20
unfolding sum
length-sum s = refl
