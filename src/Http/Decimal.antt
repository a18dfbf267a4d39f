-- ===== src/Http/Decimal.antt =====
-- strconv.Itoa read back: the digits of a number have its value.
use wlgows.Base.{
  ℕ, zero, suc, ◌+◌, ◌-◌, ◌*◌, ◌/◌, ◌%◌, ◌<◌, ◌≡◌, ◌≢◌, ap, ◌∙◌, [], ◌∷◌, ltb, All, arith,
  Bool-cases, inl, inr,
}
use wlgows.Base.Bytes.{Bytes}
use wlgows.Http.Text.{digits, itoa}

abbrev pub decimal_from : ℕ → Bytes → ℕ
decimal_from n [] = n
decimal_from n (c ∷ s) = decimal_from (n * 10 + (c - b'0')) s

abbrev pub decimal : Bytes → ℕ
decimal = decimal_from 0

decimal-digits :
    (fuel n : ℕ) (acc : Bytes) → n < fuel → decimal (digits fuel n acc) ≡ decimal_from n acc
unfolding digits
decimal-digits zero n acc h = absurd (omega arith)
decimal-digits (suc fuel) n acc h = elim (Bool-cases (ltb n 10)) [
  | inl last ↦ rw last (ap (λ (k : ℕ). decimal_from k acc) (omega arith))
  | inr more ↦ rw more (
      decimal-digits fuel (n / 10) ((b'0' + n % 10) ∷ acc) (ground arith)
      ∙ ap (λ (k : ℕ). decimal_from k acc) (omega arith))
]

pub decimal-itoa : (n : ℕ) → decimal (itoa n) ≡ n
unfolding itoa
decimal-itoa n = decimal-digits (suc n) n [] (omega arith)

digits-ne-nil : (fuel n : ℕ) (acc : Bytes) → acc ≢ [] → digits fuel n acc ≢ []
unfolding digits
digits-ne-nil zero n acc h = h
digits-ne-nil (suc fuel) n acc h = elim (Bool-cases (ltb n 10)) [
  | inl last ↦ rw last (λ e. cc)
  | inr more ↦ rw more (digits-ne-nil fuel (n / 10) ((b'0' + n % 10) ∷ acc) (λ e. cc))
]

pub itoa-ne-nil : (n : ℕ) → itoa n ≢ []
unfolding itoa
itoa-ne-nil n = elim (Bool-cases (ltb n 10)) [
  | inl last ↦ rw last (λ e. cc)
  | inr more ↦ rw more (digits-ne-nil n (n / 10) ((b'0' + n % 10) ∷ []) (λ e. cc))
]

All-digits :
    (P : ℕ → Type 0) (fuel n : ℕ) (acc : Bytes)
    → ((d : ℕ) → d < 10 → P (b'0' + d))
    → All P acc
    → All P (digits fuel n acc)
unfolding digits
All-digits P zero n acc each h = h
All-digits P (suc fuel) n acc each h = elim (Bool-cases (ltb n 10)) [
  | inl last ↦ rw last (each n (ground arith), h)
  | inr more ↦
      rw more
        (All-digits P fuel (n / 10) ((b'0' + n % 10) ∷ acc) each (each (n % 10) (omega arith), h))
]

-- What holds of the ten digits holds of every byte of a number.
pub All-itoa : (P : ℕ → Type 0) (n : ℕ) → ((d : ℕ) → d < 10 → P (b'0' + d)) → All P (itoa n)
unfolding itoa
All-itoa P n each = All-digits P (suc n) n [] each tt
