-- ===== src/Http/Status/Laws.antt =====
-- No reason phrase has an end of a line.
use wlgows.Base.{ℕ, ◌≡◌, refl, Bool, true, ◌&&◌, List, [], ◌∷◌, ◌==◌, arith, Bool-cases, inl, inr}
use wlgows.Base.Bytes.{Bytes}
use wlgows.Http.Message.Laws.{Lacks, lacks, lacks-Lacks}
use wlgows.Http.Status.{phrases, phrase_of, status_text}

all_lack : List (ℕ × Bytes) → Bool
all_lack [] = true
all_lack ((code, text) ∷ table) = lacks 10 text && all_lack table

both : (a b : Bool) → (a && b) ≡ true → (a ≡ true) × (b ≡ true)
both a b h = (ground arith, ground arith)

phrase_of-Lacks :
    (table : List (ℕ × Bytes)) (n : ℕ) → all_lack table ≡ true → Lacks 10 (phrase_of n table)
unfolding all_lack phrase_of
phrase_of-Lacks [] n h = tt
phrase_of-Lacks ((code, text) ∷ table) n h =
    let (here, rest) = both (lacks 10 text) (all_lack table) h in
    elim (Bool-cases (n == code)) [
      | inl same ↦ rw same (lacks-Lacks 10 text here)
      | inr other ↦ rw other (phrase_of-Lacks table n rest)
    ]

pub Lacks-status_text : (n : ℕ) → Lacks 10 (status_text n)
unfolding status_text all_lack phrases
Lacks-status_text n = phrase_of-Lacks phrases n refl
