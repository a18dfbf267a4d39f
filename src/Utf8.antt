-- ===== src/Utf8.antt =====
-- utf8.Valid of Go's unicode/utf8, which the listener and SendText call: a run over the bytes that
-- keeps which continuation bytes are still due. Surrogates, overlong forms and values above
-- U+10FFFF are refused by the range of the byte behind the first.
use wlgows.Base.{ℕ, zero, suc, Bool, true, false, ◌&&◌, [], ◌∷◌, ltb, leb, ◌==◌, if◌then◌else◌}
use wlgows.Base.Bytes.{Bytes}

pub data Due : Type 0 where
  start : Due
  -- the range of the next byte, and how many continuation bytes follow that one
  tail : ℕ → ℕ → ℕ → Due
  broken : Due

unfoldable pub first_byte : ℕ → Due
first_byte b =
    if ltb b 0x80
    then start
    else if ltb b 0xC2
    then broken
    else if ltb b 0xE0
    then tail 0x80 0xBF 0
    else if b == 0xE0
    then tail 0xA0 0xBF 1
    else if b == 0xED
    then tail 0x80 0x9F 1
    else if ltb b 0xF0
    then tail 0x80 0xBF 1
    else if b == 0xF0
    then tail 0x90 0xBF 2
    else if ltb b 0xF4
    then tail 0x80 0xBF 2
    else if b == 0xF4
    then tail 0x80 0x8F 2
    else broken

abbrev pub after_tail : ℕ → Due
after_tail zero = start
after_tail (suc n) = tail 0x80 0xBF n

unfoldable pub utf8_step : Due → ℕ → Due
unfolding first_byte
utf8_step start b = first_byte b
utf8_step (tail lo hi more) b = if leb lo b && leb b hi then after_tail more else broken
utf8_step broken b = broken

unfoldable pub utf8_run : Due → Bytes → Due
utf8_run d [] = d
utf8_run d (b ∷ bs) = utf8_run (utf8_step d b) bs

abbrev pub is_start : Due → Bool
is_start start = true
is_start (tail lo hi more) = false
is_start broken = false

unfoldable pub utf8_valid : Bytes → Bool
unfolding utf8_run utf8_step
utf8_valid bs = is_start (utf8_run start bs)
