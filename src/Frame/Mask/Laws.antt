-- ===== src/Frame/Mask/Laws.antt =====
-- MaskPayload against masking byte by byte: it is that, whatever the length, it is its own
-- inverse, and pieces cut at whole keys can be masked one by one.
use wlgows.Base.{
  ℕ, suc, ◌+◌, ◌*◌, ◌%◌, ◌<◌, bit_xor, ◌≡◌, refl, ap, ap₂, ◌∙◌, [], ◌∷◌, ◌++◌, arith, length, sym,
  All-append,
}
use wlgows.Base.Bits.{bit_and_mask, bit_or_low_high, bit_xor_fields, bit_xor-lt, bit_xor_cancel}
use wlgows.Base.Bytes.{Bytes, IsByte, IsBytes, le_uint, put_le_uint}
use wlgows.Frame.{MaskingKey, key_bytes}
use wlgows.Frame.Mask.{key_at, wide_key, mask_tail, mask_word, mask_words, mask_payload}

abbrev pub IsKey : MaskingKey → Type 0
IsKey k = IsByte k.k0 × IsByte k.k1 × IsByte k.k2 × IsByte k.k3

-- The specification of RFC 6455 5.3: octet i is transformed with octet i modulo 4 of the key.
unfoldable pub mask_from : ℕ → Bytes → MaskingKey → Bytes
mask_from i [] k = []
mask_from i (b ∷ payload) k = bit_xor b (key_at k (i % 4)) ∷ mask_from (i + 1) payload k

mask_tail-eq-mask_from : (i : ℕ) (p : Bytes) (k : MaskingKey) → mask_tail i p k ≡ mask_from i p k
unfolding mask_tail mask_from
mask_tail-eq-mask_from i [] k = refl
mask_tail-eq-mask_from i (b ∷ p) k = rw (bit_and_mask 2 i, mask_tail-eq-mask_from (i + 1) p k)

-- Only the phase of the position in the key counts.
pub mask_from_phase :
    (i j : ℕ) (p : Bytes) (k : MaskingKey) → i % 4 ≡ j % 4 → mask_from i p k ≡ mask_from j p k
unfolding mask_from
mask_from_phase i j [] k e = refl
mask_from_phase i j (b ∷ p) k e =
    rw e (
      ap (λ q. bit_xor b (key_at k (j % 4)) ∷ q)
        (mask_from_phase (i + 1) (j + 1) p k (omega arith)))

pub mask_from-append :
    (i : ℕ) (p q : Bytes) (k : MaskingKey)
    → mask_from i (p ++ q) k ≡ mask_from i p k ++ mask_from (i + length p) q k
unfolding mask_from
mask_from-append i [] q k = let e : i + 0 ≡ i = omega arith in rw e
mask_from-append i (b ∷ p) q k =
    let e : i + suc (length p) ≡ i + 1 + length p = omega arith in
    rw (e, mask_from-append (i + 1) p q k)

-- One byte of a word: the lowest, in front of the others.
xor_low :
    (b bs c cs : ℕ)
    → b < 256
    → c < 256
    → bit_xor (bs * 256 + b) (cs * 256 + c) ≡ bit_xor bs cs * 256 + bit_xor b c
xor_low b bs c cs hb hc = bit_xor_fields 8 bs b cs c hb hc

put_low :
    (n b bs c cs : ℕ)
    → b < 256
    → c < 256
    → put_le_uint (suc n) (bit_xor (bs * 256 + b) (cs * 256 + c))
      ≡ bit_xor b c ∷ put_le_uint n (bit_xor bs cs)
put_low n b bs c cs hb hc = rw (xor_low b bs c cs hb hc) (
    ap₂ (λ x ys. x ∷ put_le_uint n ys) (omega (arith, bit_xor-lt 8 b c hb hc))
      (omega (arith, bit_xor-lt 8 b c hb hc)))

abbrev zip_xor : Bytes → Bytes → Bytes
zip_xor [] cs = []
zip_xor (b ∷ bs) [] = []
zip_xor (b ∷ bs) (c ∷ cs) = bit_xor b c ∷ zip_xor bs cs

xor_words :
    (bs cs : Bytes)
    → IsBytes bs
    → IsBytes cs
    → length bs ≡ length cs
    → put_le_uint (length bs) (bit_xor (le_uint bs) (le_uint cs)) ≡ zip_xor bs cs
xor_words [] cs hb hc e = refl
xor_words (b ∷ bs) [] hb hc e = absurd (omega arith)
xor_words (b ∷ bs) (c ∷ cs) hb hc e =
    put_low (length bs) b (le_uint bs) c (le_uint cs) hb.0 hc.0
    ∙ ap (λ ys. bit_xor b c ∷ ys) (xor_words bs cs hb.1 hc.1 (omega arith))

wide_key_lem : (k : MaskingKey) → IsKey k → wide_key k ≡ le_uint (key_bytes k ++ key_bytes k)
unfolding wide_key
wide_key_lem k h =
    omega (arith, bit_or_low_high 32 (le_uint (key_bytes k)) (le_uint (key_bytes k)) (omega arith))

-- A word is eight bytes masked from a multiple of four on.
mask_word_lem :
    (b0 b1 b2 b3 b4 b5 b6 b7 : ℕ) (k : MaskingKey)
    → IsKey k
    → let word = b0 ∷ b1 ∷ b2 ∷ b3 ∷ b4 ∷ b5 ∷ b6 ∷ b7 ∷ [] in
      IsBytes word → mask_word word (wide_key k) ≡ mask_from 0 word k
unfolding mask_word mask_from key_at
mask_word_lem b0 b1 b2 b3 b4 b5 b6 b7 k hk hb = rw (wide_key_lem k hk) (
    xor_words (b0 ∷ b1 ∷ b2 ∷ b3 ∷ b4 ∷ b5 ∷ b6 ∷ b7 ∷ []) (key_bytes k ++ key_bytes k) hb
      (omega arith) refl)

mask_words_lem :
    (p : Bytes) (k : MaskingKey)
    → IsKey k
    → IsBytes p
    → mask_words p (wide_key k) k ≡ mask_from 0 p k
unfolding mask_words
mask_words_lem [] k hk hp = mask_tail-eq-mask_from 0 _ k
mask_words_lem (b0 ∷ []) k hk hp = mask_tail-eq-mask_from 0 _ k
mask_words_lem (b0 ∷ b1 ∷ []) k hk hp = mask_tail-eq-mask_from 0 _ k
mask_words_lem (b0 ∷ b1 ∷ b2 ∷ []) k hk hp = mask_tail-eq-mask_from 0 _ k
mask_words_lem (b0 ∷ b1 ∷ b2 ∷ b3 ∷ []) k hk hp = mask_tail-eq-mask_from 0 _ k
mask_words_lem (b0 ∷ b1 ∷ b2 ∷ b3 ∷ b4 ∷ []) k hk hp = mask_tail-eq-mask_from 0 _ k
mask_words_lem (b0 ∷ b1 ∷ b2 ∷ b3 ∷ b4 ∷ b5 ∷ []) k hk hp = mask_tail-eq-mask_from 0 _ k
mask_words_lem (b0 ∷ b1 ∷ b2 ∷ b3 ∷ b4 ∷ b5 ∷ b6 ∷ []) k hk hp = mask_tail-eq-mask_from 0 _ k
mask_words_lem (b0 ∷ b1 ∷ b2 ∷ b3 ∷ b4 ∷ b5 ∷ b6 ∷ b7 ∷ p) k hk hp =
    let word : Bytes = b0 ∷ b1 ∷ b2 ∷ b3 ∷ b4 ∷ b5 ∷ b6 ∷ b7 ∷ [] in
    ap₂ (λ x y. x ++ y) (mask_word_lem b0 b1 b2 b3 b4 b5 b6 b7 k hk (omega arith))
      (mask_words_lem p k hk (hp.1.1.1.1.1.1.1.1) ∙ mask_from_phase 0 8 p k refl)
    ∙ sym (mask_from-append 0 word p k)

-- Masking a payload of bytes with a key of bytes, at any length, is XOR of byte i with byte
-- i mod 4 of the key: the words of eight and the tail together do what RFC 6455 5.3 says.
pub mask_payload-eq-mask_from :
    (p : Bytes) (k : MaskingKey) → IsKey k → IsBytes p → mask_payload p k ≡ mask_from 0 p k
unfolding mask_payload
mask_payload-eq-mask_from = mask_words_lem

key_at-IsByte : (k : MaskingKey) (i : ℕ) → IsKey k → IsByte (key_at k i)
unfolding key_at
key_at-IsByte k i h = ground arith

pub mask_from-IsBytes :
    (i : ℕ) (p : Bytes) (k : MaskingKey) → IsKey k → IsBytes p → IsBytes (mask_from i p k)
unfolding mask_from
mask_from-IsBytes i [] k hk hp = tt
mask_from-IsBytes i (b ∷ p) k hk hp =
    (bit_xor-lt 8 b _ hp.0 (key_at-IsByte k (i % 4) hk), mask_from-IsBytes (i + 1) p k hk hp.1)

pub length-mask_from : (i : ℕ) (p : Bytes) (k : MaskingKey) → length (mask_from i p k) ≡ length p
unfolding mask_from
length-mask_from i [] k = refl
length-mask_from i (b ∷ p) k = ap suc (length-mask_from (i + 1) p k)

pub mask_from_twice :
    (i : ℕ) (p : Bytes) (k : MaskingKey) → IsKey k → IsBytes p → mask_from i (mask_from i p k) k ≡ p
unfolding mask_from
mask_from_twice i [] k hk hp = refl
mask_from_twice i (b ∷ p) k hk hp =
    ap₂ ◌∷◌ (bit_xor_cancel 8 b _ hp.0 (key_at-IsByte k (i % 4) hk))
      (mask_from_twice (i + 1) p k hk hp.1)

-- Masking is its own inverse: masking twice with one key gives the payload back.
pub mask_payload_twice :
    (p : Bytes) (k : MaskingKey) → IsKey k → IsBytes p → mask_payload (mask_payload p k) k ≡ p
mask_payload_twice p k hk hp = rw (mask_payload-eq-mask_from p k hk hp) (
    mask_payload-eq-mask_from (mask_from 0 p k) k hk (mask_from-IsBytes 0 p k hk hp)
    ∙ mask_from_twice 0 p k hk hp)

-- A payload cut at a multiple of four bytes is masked piece by piece: what follows the cut starts
-- on the first key byte again.
pub mask_payload-append :
    (p q : Bytes) (k : MaskingKey)
    → IsKey k
    → IsBytes p
    → IsBytes q
    → length p % 4 ≡ 0
    → mask_payload (p ++ q) k ≡ mask_payload p k ++ mask_payload q k
mask_payload-append p q k hk hp hq e =
    mask_payload-eq-mask_from (p ++ q) k hk (All-append IsByte p q hp hq)
    ∙ mask_from-append 0 p q k
    ∙ ap₂ (λ x y. x ++ y) (sym (mask_payload-eq-mask_from p k hk hp))
        (mask_from_phase (0 + length p) 0 q k (omega arith)
          ∙ sym (mask_payload-eq-mask_from q k hk hq))
