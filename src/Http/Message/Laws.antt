-- ===== src/Http/Message/Laws.antt =====
-- What a reader finds in lines that are printed one behind the other.
use wlgows.Base.{
  ℕ, ◌≡◌, refl, ap, Bool, true, false, not, ◌&&◌, List, [], ◌∷◌, ◌++◌, ◌==◌, arith, All,
}
use wlgows.Base.Bytes.{Bytes}
use wlgows.Http.Message.{before, behind, put_first, lines, is_ows, trim_left, trim_right, trimmed}

-- The text has none of this byte.
abbrev pub Lacks : ℕ → Bytes → Type 0
Lacks c = All (λ d. (d == c) ≡ false)

abbrev pub lacks : ℕ → Bytes → Bool
lacks c [] = true
lacks c (d ∷ s) = not (d == c) && lacks c s

pub lacks-Lacks : (c : ℕ) (s : Bytes) → lacks c s ≡ true → Lacks c s
lacks-Lacks c [] h = tt
lacks-Lacks c (d ∷ s) h = (ground arith, lacks-Lacks c s (ground arith))

pub before-append : (c : ℕ) (s t : Bytes) → Lacks c s → before c (s ++ c ∷ t) ≡ s
unfolding before
before-append c [] t h = ground arith
before-append c (d ∷ s) t h = rw h.0 (ap (λ (x : Bytes). d ∷ x) (before-append c s t h.1))

pub behind-append : (c : ℕ) (s t : Bytes) → Lacks c s → behind c (s ++ c ∷ t) ≡ t
unfolding behind
behind-append c [] t h = ground arith
behind-append c (d ∷ s) t h = rw h.0 (behind-append c s t h.1)

pub lines-append : (s t : Bytes) → Lacks 10 s → lines (s ++ 10 ∷ t) ≡ s ∷ lines t
unfolding lines
lines-append [] t h = refl
lines-append (d ∷ s) t h = rw h.0 (ap (λ (x : List Bytes). put_first d x) (lines-append s t h.1))

trim_right-eq : (s : Bytes) → All (λ c. is_ows c ≡ false) s → trim_right s ≡ s
unfolding trim_right
trim_right-eq [] h = refl
trim_right-eq (c ∷ s) h = rw (trim_right-eq s h.1) (ground (arith, h.0))

-- A text without white space keeps all of its bytes.
pub trimmed-eq : (s : Bytes) → All (λ c. is_ows c ≡ false) s → trimmed s ≡ s
unfolding trimmed trim_left
trimmed-eq [] h = refl
trimmed-eq (c ∷ s) h = rw h.0 (trim_right-eq (c ∷ s) h)
