-- ===== src/Step.antt =====
-- Go calls that change a state and return an error, chained by `if err != nil { return err }`.
use wlgows.Base.{Option, none, some}
use wlgows.Errors.{Error}

-- Why a call has not returned: it waits for a lock that is held, its loop goes on without end, or
-- the runtime ended the process.
pub data Stop : Type 0 where
  blocked endless fatal : Stop

pub data Step {ℓ} (S : Type ℓ) : Type ℓ where
  returned : Option Error → S → Step S
  stopped : Stop → Step S

infixl 5 ◌>>=◌
abbrev pub ◌>>=◌ {ℓ} : {S : Type ℓ} → Step S → (S → Step S) → Step S
returned none s >>= k = k s
returned (some e) s >>= k = returned (some e) s
stopped x >>= k = stopped x

-- A call on a part of the state, seen from the whole.
abbrev pub within {ℓ κ} : {S : Type ℓ} {T : Type κ} → (S → T) → Step S → Step T
within put (returned e s) = returned e (put s)
within put (stopped x) = stopped x

-- What a call that returns has made true, of the error and the state it returns.
abbrev pub Always {ℓ} : {S : Type ℓ} → (Option Error → S → Type 0) → Step S → Type 0
Always P (returned e s) = P e s
Always P (stopped x) = Unit {0}

pub Always->>= {ℓ} :
    {S : Type ℓ} (P Q : Option Error → S → Type 0) (r : Step S) (k : S → Step S)
    → Always Q r
    → ((e : Error) (s : S) → Q (some e) s → P (some e) s)
    → ((s : S) → Q none s → Always P (k s))
    → Always P (r >>= k)
Always->>= P Q (returned none s) k h refused rest = rest s h
Always->>= P Q (returned (some e) s) k h refused rest = refused e s h
Always->>= P Q (stopped x) k h refused rest = tt

pub Always-within {ℓ κ} :
    {S : Type ℓ} {T : Type κ} (P : Option Error → T → Type 0) (put : S → T) (r : Step S)
    → ((e : Option Error) (s : S) → P e (put s))
    → Always P (within put r)
Always-within P put (returned e s) h = h e s
Always-within P put (stopped x) h = tt
