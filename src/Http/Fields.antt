-- ===== src/Http/Fields.antt =====
-- net/http's Header as the package uses it: a map from canonical keys to lines of values, here an
-- association list with each key once. Its order stands for the order of the runtime's iteration.
use wlgows.Base.{
  ℕ, ◌-◌, ◌≡◌, refl, Bool, true, false, ◌&&◌, ◌||◌, List, [], ◌∷◌, ◌++◌, leb, ◌==◌, arith,
  if◌then◌else◌,
}
use wlgows.Base.Bytes.{Bytes}
use wlgows.Http.Text.{codes, same, lower}

abbrev pub Header : Type 0
Header = List (Bytes × List Bytes)

-- textproto.CanonicalMIMEHeaderKey: a letter at the start or behind a dash becomes upper case, every
-- other lower case; a key with a byte that no field name has stays as it is.
abbrev is_letter : ℕ → Bool
is_letter c = leb b'A' c && leb c b'Z' || leb b'a' c && leb c b'z'

abbrev any_of : Bytes → ℕ → Bool
any_of [] c = false
any_of (d ∷ s) c = c == d || any_of s c

unfoldable pub is_field_byte : ℕ → Bool
is_field_byte c = is_letter c || leb b'0' c && leb c b'9' || any_of (codes "!#$%&'*+-.^_`|~") c

unfoldable pub is_field_name : Bytes → Bool
unfolding is_field_byte
is_field_name [] = true
is_field_name (c ∷ s) = is_field_byte c && is_field_name s

abbrev upper : ℕ → ℕ
upper c = if leb b'a' c && leb c b'z' then c - 32 else c

unfoldable pub capitalise : Bool → Bytes → Bytes
unfolding lower
capitalise first [] = []
capitalise first (c ∷ s) = (if first then upper c else lower c) ∷ capitalise (c == b'-') s

unfoldable pub canonical : Bytes → Bytes
unfolding capitalise is_field_name
canonical key = if is_field_name key then capitalise true key else key

unfoldable pub lines_at : Bytes → Header → List Bytes
lines_at key [] = []
lines_at key ((k, lines) ∷ h) = if same k key then lines else lines_at key h

-- Header.Values
unfoldable pub values : Header → Bytes → List Bytes
unfolding lines_at
values h key = lines_at (canonical key) h

abbrev pub first_of : List Bytes → Bytes
first_of [] = []
first_of (v ∷ vs) = v

-- Header.Get: the first line, or the empty text.
unfoldable pub get : Header → Bytes → Bytes
unfolding values
get h key = first_of (values h key)

unfoldable pub set_at : Bytes → List Bytes → Header → Header
set_at key lines [] = (key, lines) ∷ []
set_at key lines ((k, old) ∷ h) =
    if same k key then (k, lines) ∷ h else (k, old) ∷ set_at key lines h

-- Header.Set
unfoldable pub set : Bytes → Bytes → Header → Header
unfolding set_at
set key value h = set_at (canonical key) (value ∷ []) h

-- Header.Add: one more line
unfoldable pub add : Bytes → Bytes → Header → Header
unfolding set_at lines_at
add key value h = let k = canonical key in set_at k (lines_at k h ++ value ∷ []) h

pub same_refl : (s : Bytes) → same s s ≡ true
unfolding same
same_refl [] = refl
same_refl (c ∷ s) = ground (arith, same_refl s)

pub same-eq : (s t : Bytes) → same s t ≡ true → s ≡ t
unfolding same
same-eq [] [] h = refl
same-eq [] (d ∷ t) h = cc
same-eq (c ∷ s) [] h = cc
same-eq (c ∷ s) (d ∷ t) h = ground (arith, same-eq s t)

lines_at-set_at :
    (key j : Bytes) (lines : List Bytes) (h : Header)
    → lines_at j (set_at key lines h) ≡ (if same key j then lines else lines_at j h)
unfolding set_at lines_at
lines_at-set_at key j lines [] = refl
lines_at-set_at key j lines ((k, old) ∷ h) =
    ground
      (arith, same-eq k key, same-eq key j, same-eq k j, same_refl j, lines_at-set_at key j lines h)

-- What a write leaves to be read, at any key.
pub values-set :
    (key j v : Bytes) (h : Header)
    → values (set key v h) j ≡ (if same (canonical key) (canonical j) then v ∷ [] else values h j)
unfolding values set
values-set key j v h = lines_at-set_at (canonical key) (canonical j) (v ∷ []) h

pub values-add :
    (key j v : Bytes) (h : Header)
    → values (add key v h) j
      ≡ (if same (canonical key) (canonical j) then values h j ++ v ∷ [] else values h j)
unfolding values add
values-add key j v h = ground (
  arith,
  same-eq (canonical key) (canonical j),
  lines_at-set_at (canonical key) (canonical j) (lines_at (canonical key) h ++ v ∷ []) h,
)
