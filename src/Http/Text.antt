-- ===== src/Http/Text.antt =====
-- The standard library's text functions that HeaderToken.go and the handshakes call, on strings as
-- their bytes: ==, strings.Split, strings.TrimSpace, strings.EqualFold, strings.Join, strconv.Itoa.
use Prim.Native.Char.{code}
use Prim.Native.String.{String}
use mathlib.Core.List.{reverse}
use wlgows.Base.{
  ℕ, zero, suc, ◌+◌, ◌/◌, ◌%◌, Bool, true, false, ◌&&◌, List, [], ◌∷◌, ◌++◌, map, leb, ltb, ◌==◌,
  length, drop, if◌then◌else◌,
}
use wlgows.Base.Bytes.{Bytes}

-- The bytes of an ASCII text.
abbrev pub codes : String → Bytes
codes String.[] = []
codes (String.◌∷◌ c s) = code c ∷ codes s

unfoldable pub same : Bytes → Bytes → Bool
same [] [] = true
same [] (d ∷ t) = false
same (c ∷ s) [] = false
same (c ∷ s) (d ∷ t) = c == d && same s t

unfoldable pub starts_with : Bytes → Bytes → Bool
starts_with s [] = true
starts_with [] (p ∷ ps) = false
starts_with (c ∷ s) (p ∷ ps) = c == p && starts_with s ps

-- strings.Split(value, ","): always at least one piece.
abbrev pub comma : ℕ
comma = b','

unfoldable pub split_from : Bytes → Bytes → List Bytes
split_from piece [] = piece ∷ []
split_from piece (c ∷ s) =
    let cut = split_from [] s in
    let more = split_from (piece ++ c ∷ []) s in if c == comma then piece ∷ cut else more

unfoldable pub split : Bytes → List Bytes
unfolding split_from
split = split_from []

-- unicode.IsSpace: the UTF-8 of U+0009 to U+000D, the space, U+0085, U+00A0, U+1680, U+2000 to
-- U+200A, U+2028, U+2029, U+202F, U+205F and U+3000.
abbrev spaces : List Bytes
spaces =
    (0x20 ∷ [])
    ∷ (0x09 ∷ [])
    ∷ (0x0A ∷ [])
    ∷ (0x0B ∷ [])
    ∷ (0x0C ∷ [])
    ∷ (0x0D ∷ [])
    ∷ (0xC2 ∷ 0x85 ∷ [])
    ∷ (0xC2 ∷ 0xA0 ∷ [])
    ∷ (0xE1 ∷ 0x9A ∷ 0x80 ∷ [])
    ∷ (0xE2 ∷ 0x80 ∷ 0x80 ∷ [])
    ∷ (0xE2 ∷ 0x80 ∷ 0x81 ∷ [])
    ∷ (0xE2 ∷ 0x80 ∷ 0x82 ∷ [])
    ∷ (0xE2 ∷ 0x80 ∷ 0x83 ∷ [])
    ∷ (0xE2 ∷ 0x80 ∷ 0x84 ∷ [])
    ∷ (0xE2 ∷ 0x80 ∷ 0x85 ∷ [])
    ∷ (0xE2 ∷ 0x80 ∷ 0x86 ∷ [])
    ∷ (0xE2 ∷ 0x80 ∷ 0x87 ∷ [])
    ∷ (0xE2 ∷ 0x80 ∷ 0x88 ∷ [])
    ∷ (0xE2 ∷ 0x80 ∷ 0x89 ∷ [])
    ∷ (0xE2 ∷ 0x80 ∷ 0x8A ∷ [])
    ∷ (0xE2 ∷ 0x80 ∷ 0xA8 ∷ [])
    ∷ (0xE2 ∷ 0x80 ∷ 0xA9 ∷ [])
    ∷ (0xE2 ∷ 0x80 ∷ 0xAF ∷ [])
    ∷ (0xE2 ∷ 0x81 ∷ 0x9F ∷ [])
    ∷ (0xE3 ∷ 0x80 ∷ 0x80 ∷ [])
    ∷ []

-- How many bytes of `s` the space at its front takes, 0 if there is none.
unfoldable pub space_width : List Bytes → Bytes → ℕ
unfolding starts_with
space_width [] s = 0
space_width (w ∷ ws) s = if starts_with s w then length w else space_width ws s

-- `k` bytes of a space are still to be passed over.
unfoldable pub trim_front : List Bytes → ℕ → Bytes → Bytes
unfolding space_width
trim_front table k [] = []
trim_front table (suc k) (c ∷ s) = trim_front table k s
trim_front table zero (c ∷ s) = elim (space_width table (c ∷ s)) [
  | zero ↦ c ∷ s
  | suc k ↦ trim_front table k s
]

-- The end is trimmed as the front of the reversed text, at the reversed spaces.
unfoldable pub trim_space : Bytes → Bytes
unfolding trim_front
trim_space s = reverse (trim_front (map reverse spaces) 0 (reverse (trim_front spaces 0 s)))

unfoldable pub lower : ℕ → ℕ
lower c = if leb b'A' c && leb c b'Z' then c + 32 else c

-- The letter that the first rune folds to, and what follows. Two runes beyond ASCII fold to a
-- letter: U+017F, the long s, and U+212A, the Kelvin sign. Any other rune is left as its bytes,
-- which differ from every ASCII letter.
unfoldable pub fold_first : ℕ → Bytes → ℕ × Bytes
unfolding lower starts_with
fold_first c s =
    if c == 0xC5 && starts_with s (0xBF ∷ [])
    then (b's', drop 1 s)
    else if c == 0xE2 && starts_with s (0x84 ∷ 0xAA ∷ [])
    then (b'k', drop 2 s)
    else (lower c, s)

-- strings.EqualFold(s, token) for an ASCII token, which is what the package passes.
unfoldable pub equal_fold : Bytes → Bytes → Bool
unfolding fold_first
equal_fold [] [] = true
equal_fold (c ∷ s) [] = false
equal_fold [] (d ∷ token) = false
equal_fold (c ∷ s) (d ∷ token) =
    let (e, rest) = fold_first c s in
    let more = equal_fold rest token in if e == lower d then more else false

-- strings.Join(values, ", ")
unfoldable pub join_values : List Bytes → Bytes
join_values [] = []
join_values (v ∷ []) = v
join_values (v ∷ w ∷ vs) = v ++ codes ", " ++ join_values (w ∷ vs)

-- strconv.Itoa of a length: the decimal digits; `fuel` bounds their number.
unfoldable pub digits : ℕ → ℕ → Bytes → Bytes
digits zero n acc = acc
digits (suc fuel) n acc =
    let more = digits fuel (n / 10) ((b'0' + n % 10) ∷ acc) in
    if ltb n 10 then (b'0' + n) ∷ acc else more

unfoldable pub itoa : ℕ → Bytes
unfolding digits
itoa n = digits (suc n) n []
