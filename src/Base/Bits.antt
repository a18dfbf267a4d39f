-- ===== src/Base/Bits.antt =====
-- `|`, `&` and `^` as arithmetic: the digit recursion behind the native operations, and their
-- laws on separate fields, at every width.
use Prim.Native.Nat.{
  ℕ, zero, suc, ◌+◌, ◌-◌, ◌*◌, ◌/◌, ◌%◌, ◌^◌, ◌≤◌, ◌<◌, min, max, bit_and, bit_or, bit_xor, digits,
  bitwise, differ, bit_and-bitwise, bit_or-bitwise, bit_xor-bitwise,
}
use mathlib.Core.Path.{◌≡◌, refl, sym, ap, ◌∙◌}
use native.Mathlib.Nat.{le_refl, pow-suc, one-le-pow}
use native.Mathlib.Omega.{arith}

-- `rest` is the operation on what is left of the second number once the first is 0, and `digit` the
-- operation on one binary digit. Fuel beyond the first number changes nothing, so the operation is
-- that of the halves and of the lowest digits.
module _ (rest : ℕ → ℕ) (digit : ℕ → ℕ → ℕ) where
  no_digits : (fuel b : ℕ) → digits rest digit fuel 0 b ≡ rest b
  no_digits zero b = refl
  no_digits (suc fuel) b = refl

  surplus_fuel :
      (spare fuel a b : ℕ)
      → a ≤ fuel
      → digits rest digit (spare + fuel) a b ≡ digits rest digit fuel a b
  surplus_fuel spare fuel zero b enough = no_digits (spare + fuel) b ∙ sym (no_digits fuel b)
  surplus_fuel spare zero (suc a) b enough = absurd (omega arith)
  surplus_fuel spare (suc fuel) (suc a) b enough =
      let one_more : spare + suc fuel ≡ suc (spare + fuel) = omega arith in
      let half = surplus_fuel spare fuel (suc a / 2) (b / 2) (omega arith) in rw one_more (rw half)

  bitwise_halves :
      ((b : ℕ) → rest b ≡ rest (b / 2) * 2 + digit 0 (b % 2))
      → (a b : ℕ)
      → bitwise rest digit a b ≡ bitwise rest digit (a / 2) (b / 2) * 2 + digit (a % 2) (b % 2)
  bitwise_halves base zero b = base b
  bitwise_halves base (suc a) b =
      let half = suc a / 2 in
      let split : (a - half) + half ≡ a = omega arith in
      let h = surplus_fuel (a - half) half half (b / 2) (le_refl half) in
      omega (arith, rw split at h)

differ_digits : (x y : ℕ) → x < 2 → y < 2 → differ x y ≡ (x + y) % 2
differ_digits zero y hx hy = omega arith
differ_digits (suc zero) zero hx hy = refl
differ_digits (suc zero) (suc zero) hx hy = refl
differ_digits (suc zero) (suc (suc y)) hx hy = absurd (omega arith)
differ_digits (suc (suc x)) y hx hy = absurd (omega arith)

pub bit_and_step : (a b : ℕ) → bit_and a b ≡ bit_and (a / 2) (b / 2) * 2 + min (a % 2) (b % 2)
bit_and_step a b =
    rw (bit_and-bitwise a b, bit_and-bitwise (a / 2) (b / 2))
      (bitwise_halves (λ _. 0) min (λ c. omega arith) a b)

pub bit_or_step : (a b : ℕ) → bit_or a b ≡ bit_or (a / 2) (b / 2) * 2 + max (a % 2) (b % 2)
bit_or_step a b =
    rw (bit_or-bitwise a b, bit_or-bitwise (a / 2) (b / 2))
      (bitwise_halves (λ c. c) max (λ c. omega arith) a b)

pub bit_xor_step : (a b : ℕ) → bit_xor a b ≡ bit_xor (a / 2) (b / 2) * 2 + (a + b) % 2
bit_xor_step a b =
    let lowest = differ_digits (a % 2) (b % 2) (omega arith) (omega arith) in
    let h =
      bitwise_halves (λ c. c) differ
        (λ c. omega (arith, differ_digits 0 (c % 2) (omega arith) (omega arith))) a b in
    omega (arith, bit_xor-bitwise a b, bit_xor-bitwise (a / 2) (b / 2), lowest, h)

double-pow : (n w : ℕ) → 2 * (n * 2 ^ w) ≡ n * 2 ^ suc w
double-pow n w = omega (ap (λ (t : ℕ). n * t) (pow-suc 2 w), arith)

bit_or-none : (fuel n : ℕ) → n ≤ fuel → bit_or n 0 ≡ n
bit_or-none fuel zero below = refl
bit_or-none zero (suc n) below = absurd (omega arith)
bit_or-none (suc fuel) (suc n) below =
    let half = bit_or-none fuel (suc n / 2) (omega arith) in
    omega (bit_or_step (suc n) 0, half, arith)

bit_and-none : (fuel n : ℕ) → n ≤ fuel → bit_and n 0 ≡ 0
bit_and-none fuel zero below = refl
bit_and-none zero (suc n) below = absurd (omega arith)
bit_and-none (suc fuel) (suc n) below =
    let half = bit_and-none fuel (suc n / 2) (omega arith) in
    omega (bit_and_step (suc n) 0, half, arith)

-- A field of `w` low bits and a field above it: `|` joins them by a sum, in either order.
pub bit_or_fields : (w high low : ℕ) → low < 2 ^ w → bit_or (high * 2 ^ w) low ≡ high * 2 ^ w + low
bit_or_fields zero high low small = ground (bit_or-none high high, arith)
bit_or_fields (suc w) high low small =
    let inner = bit_or_fields w high (low / 2) (omega arith) in
    ground (inner, double-pow high w, bit_or_step (high * 2 ^ suc w) low, arith)

none-bit_or : (n : ℕ) → bit_or 0 n ≡ n
none-bit_or n = bit_or-bitwise 0 n

pub bit_or_low_high :
    (w high low : ℕ) → low < 2 ^ w → bit_or low (high * 2 ^ w) ≡ high * 2 ^ w + low
bit_or_low_high zero high low small =
    let empty : low ≡ 0 = omega arith in rw empty (rw none-bit_or (omega arith))
bit_or_low_high (suc w) high low small =
    let inner = bit_or_low_high w high (low / 2) (omega arith) in
    ground (inner, double-pow high w, bit_or_step low (high * 2 ^ suc w), arith)

-- `&` with `w` low bits keeps the lower field, which is the remainder.
low_field : (w high low : ℕ) → low < 2 ^ w → bit_and (high * 2 ^ w + low) (2 ^ w - 1) ≡ low
low_field zero high low small = ground (bit_and-none high high, arith)
low_field (suc w) high low small =
    let inner = low_field w high (low / 2) (omega arith) in
    ground (
      inner,
      double-pow high w,
      pow-suc 2 w,
      bit_and_step (high * 2 ^ suc w + low) (2 ^ suc w - 1),
      arith,
    )

pub bit_and_mask : (w n : ℕ) → bit_and n (2 ^ w - 1) ≡ n % 2 ^ w
bit_and_mask w n = ground (low_field w (n / 2 ^ w) (n % 2 ^ w), one-le-pow w 2, arith)

-- `^` works on each field by itself.
pub bit_xor_fields :
    (k q r s t : ℕ)
    → r < 2 ^ k
    → t < 2 ^ k
    → bit_xor (q * 2 ^ k + r) (s * 2 ^ k + t) ≡ bit_xor q s * 2 ^ k + bit_xor r t
bit_xor_fields zero q r s t hr ht =
    let eq : q * 2 ^ 0 + r ≡ q = omega arith in
    let es : s * 2 ^ 0 + t ≡ s = omega arith in
    let er : r ≡ 0 = omega arith in
    let et : t ≡ 0 = omega arith in rw (eq, es) (rw (er, et) (omega arith))
bit_xor_fields (suc k) q r s t hr ht = ground (
  arith,
  bit_xor_step (q * 2 ^ suc k + r) (s * 2 ^ suc k + t),
  bit_xor_step r t,
  double-pow q k,
  double-pow s k,
  double-pow (bit_xor q s) k,
  pow-suc 2 k,
  bit_xor_fields k q (r / 2) s (t / 2) (omega arith) (omega arith),
)

pub bit_xor-lt : (k a b : ℕ) → a < 2 ^ k → b < 2 ^ k → bit_xor a b < 2 ^ k
bit_xor-lt zero a b ha hb =
    let ea : a ≡ 0 = omega arith in let eb : b ≡ 0 = omega arith in rw (ea, eb) (omega arith)
bit_xor-lt (suc k) a b ha hb = omega (
  arith,
  pow-suc 2 k,
  bit_xor_step a b,
  bit_xor-lt k (a / 2) (b / 2) (omega (arith, pow-suc 2 k)) (omega (arith, pow-suc 2 k)),
)

-- The same mask twice gives the value back.
pub bit_xor_cancel : (k a b : ℕ) → a < 2 ^ k → b < 2 ^ k → bit_xor (bit_xor a b) b ≡ a
bit_xor_cancel zero a b ha hb =
    let ea : a ≡ 0 = omega arith in let eb : b ≡ 0 = omega arith in rw (ea, eb)
bit_xor_cancel (suc k) a b ha hb =
    let e : bit_xor a b / 2 ≡ bit_xor (a / 2) (b / 2) = omega (arith, bit_xor_step a b) in
    let d = bit_xor_step (bit_xor a b) b in
    omega (
      arith,
      pow-suc 2 k,
      bit_xor_step a b,
      rw e at d,
      bit_xor_cancel k (a / 2) (b / 2) (omega (arith, pow-suc 2 k)) (omega (arith, pow-suc 2 k)),
    )
