-- ===== src/Frame/Mask.antt =====
-- Frame.go, MaskPayload: eight bytes at a time as one uint64, then the tail byte by byte.
pub mod Laws
use wlgows.Base.{
  ℕ, ◌+◌, ◌*◌, ◌^◌, bit_and, bit_or, bit_xor, List, [], ◌∷◌, ◌++◌, ◌==◌, if◌then◌else◌,
}
use wlgows.Base.Bytes.{Bytes, le_uint, put_le_uint}
use wlgows.Frame.{MaskingKey, key_bytes}

-- maskingKey[i], for the i below 4 that occur
unfoldable pub key_at : MaskingKey → ℕ → ℕ
key_at k i = if i == 0 then k.k0 else if i == 1 then k.k1 else if i == 2 then k.k2 else k.k3

-- key := uint64(LittleEndian.Uint32(maskingKey[:])); key |= key << 32
unfoldable pub wide_key : MaskingKey → ℕ
wide_key k = let key = le_uint (key_bytes k) in bit_or key (key * 2 ^ 32)

-- for i := range payload { payload[i] ^= maskingKey[i&3] }
unfoldable pub mask_tail : ℕ → Bytes → MaskingKey → Bytes
unfolding key_at
mask_tail i [] k = []
mask_tail i (b ∷ payload) k = bit_xor b (key_at k (bit_and i 3)) ∷ mask_tail (i + 1) payload k

-- PutUint64(payload, Uint64(payload) ^ key), at eight bytes
unfoldable pub mask_word : Bytes → ℕ → Bytes
mask_word word key = put_le_uint 8 (bit_xor (le_uint word) key)

-- for len(payload) >= 8, with the key already widened
unfoldable pub mask_words : Bytes → ℕ → MaskingKey → Bytes
unfolding mask_word mask_tail
mask_words (b0 ∷ b1 ∷ b2 ∷ b3 ∷ b4 ∷ b5 ∷ b6 ∷ b7 ∷ payload) key k =
    mask_word (b0 ∷ b1 ∷ b2 ∷ b3 ∷ b4 ∷ b5 ∷ b6 ∷ b7 ∷ []) key ++ mask_words payload key k
mask_words payload key k = mask_tail 0 payload k

-- The slice is masked in place: the model returns what it holds afterwards.
unfoldable pub mask_payload : Bytes → MaskingKey → Bytes
unfolding wide_key mask_words
mask_payload payload k = mask_words payload (wide_key k) k
