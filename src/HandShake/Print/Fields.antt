-- ===== src/HandShake/Print/Fields.antt =====
-- The header that HandShakeServer.go and HandShakeClient.go print, as a reader of the lines finds it.
use wlgows.Base.{
  ◌≡◌, refl, sym, ap, ◌∙◌, false, List, [], ◌∷◌, ◌++◌, arith, All, All-append, append_assoc,
  append-nil, if◌then◌else◌, Bool-cases, inl, inr, map,
}
use wlgows.Base.Bytes.{Bytes}
use wlgows.Http.Text.{same, codes}
use wlgows.Http.Fields.{Header, canonical, lines_at, same-eq}
use wlgows.Http.Message.{
  before, lines, field_lines, body_lines, trimmed, trim_left, field_value, values_in,
}
use wlgows.Http.Message.Laws.{Lacks, before-append, behind-append, lines-append}
use wlgows.HandShake.Print.{crlf, key_lines, header_lines}

-- A name in its canonical form, with neither a colon nor an end of a line; a value on one line.
abbrev pub IsKey : Bytes → Type 0
IsKey key = Lacks 10 key × Lacks b':' key × (canonical key ≡ key)

abbrev pub IsValue : Bytes → Type 0
IsValue value = Lacks 10 value × Lacks 13 value

abbrev pub IsField : Bytes × List Bytes → Type 0
IsField (key, values) = IsKey key × All IsValue values

-- No key comes twice.
abbrev pub Distinct : Header → Type 0
Distinct [] = Unit
Distinct ((key, values) ∷ h) = (lines_at key h ≡ []) × Distinct h

pub line_text : Bytes → Bytes → Bytes
line_text key value = key ++ (b':' ∷ b' ' ∷ (value ++ 13 ∷ []))

pub field_texts : Header → List Bytes
field_texts [] = []
field_texts ((key, values) ∷ h) = map (line_text key) values ++ field_texts h

Lacks-line_text : (key value : Bytes) → IsKey key → IsValue value → Lacks 10 (line_text key value)
unfolding line_text
Lacks-line_text key value k v =
    All-append _ key _ k.0 (refl, (refl, All-append _ value _ v.0 (refl, tt)))

printed_line :
    (key value t : Bytes) → key ++ codes ": " ++ value ++ crlf ++ t ≡ line_text key value ++ 10 ∷ t
unfolding line_text
printed_line key value t = simp append_assoc refl

not_last : (key value : Bytes) → same (line_text key value) (13 ∷ []) ≡ false
unfolding line_text same
not_last [] value = refl
not_last (c ∷ []) value = ground arith
not_last (c ∷ d ∷ key) value = ground arith

one_line :
    (key value t : Bytes)
    → IsKey key
    → IsValue value
    → lines (key ++ codes ": " ++ value ++ crlf ++ t) ≡ line_text key value ∷ lines t
one_line key value t k v =
    ap lines (printed_line key value t)
    ∙ lines-append (line_text key value) t (Lacks-line_text key value k v)

lines-key_lines :
    (key : Bytes) (vs : List Bytes) (t : Bytes)
    → IsKey key
    → All IsValue vs
    → lines (key_lines key vs ++ t) ≡ map (line_text key) vs ++ lines t
unfolding key_lines
lines-key_lines key [] t k h = refl
lines-key_lines key (v ∷ vs) t k h =
    ap lines (append_assoc (key ++ codes ": " ++ v ++ crlf) (key_lines key vs) t)
    ∙ one_line key v (key_lines key vs ++ t) k h.0
    ∙ ap (λ (ls : List Bytes). line_text key v ∷ ls) (lines-key_lines key vs t k h.1)

pub lines-header_lines :
    (h : Header) (t : Bytes)
    → All IsField h
    → lines (header_lines h ++ t) ≡ field_texts h ++ lines t
unfolding header_lines field_texts
lines-header_lines [] t ok = refl
lines-header_lines ((key, vs) ∷ h) t ok =
    ap lines (append_assoc (key_lines key vs) (header_lines h) t)
    ∙ lines-key_lines key vs (header_lines h ++ t) ok.0.0 ok.0.1
    ∙ ap (λ (ls : List Bytes). map (line_text key) vs ++ ls) (lines-header_lines h t ok.1)
    ∙ sym (append_assoc (map (line_text key) vs) (field_texts h) (lines t))

field_lines-key :
    (key : Bytes) (vs rest : List Bytes)
    → field_lines (map (line_text key) vs ++ rest) ≡ map (line_text key) vs ++ field_lines rest
unfolding field_lines
field_lines-key key [] rest = refl
field_lines-key key (v ∷ vs) rest =
    rw (not_last key v)
      (ap (λ (ls : List Bytes). line_text key v ∷ ls) (field_lines-key key vs rest))

-- None of the lines of a header is the empty one.
pub field_lines-field_texts :
    (h : Header) (rest : List Bytes)
    → field_lines (field_texts h ++ rest) ≡ field_texts h ++ field_lines rest
unfolding field_texts
field_lines-field_texts [] rest = refl
field_lines-field_texts ((key, vs) ∷ h) rest =
    ap field_lines (append_assoc (map (line_text key) vs) (field_texts h) rest)
    ∙ field_lines-key key vs (field_texts h ++ rest)
    ∙ ap (λ (ls : List Bytes). map (line_text key) vs ++ ls) (field_lines-field_texts h rest)
    ∙ sym (append_assoc (map (line_text key) vs) (field_texts h) (field_lines rest))

body_lines-key :
    (key : Bytes) (vs rest : List Bytes)
    → body_lines (map (line_text key) vs ++ rest) ≡ body_lines rest
unfolding body_lines
body_lines-key key [] rest = refl
body_lines-key key (v ∷ vs) rest = rw (not_last key v) (body_lines-key key vs rest)

pub body_lines-field_texts :
    (h : Header) (rest : List Bytes) → body_lines (field_texts h ++ rest) ≡ body_lines rest
unfolding field_texts
body_lines-field_texts [] rest = refl
body_lines-field_texts ((key, vs) ∷ h) rest =
    ap body_lines (append_assoc (map (line_text key) vs) (field_texts h) rest)
    ∙ body_lines-key key vs (field_texts h ++ rest)
    ∙ body_lines-field_texts h rest

name_of_line : (key value : Bytes) → IsKey key → before b':' (line_text key value) ≡ key
unfolding line_text
name_of_line key value k = before-append b':' key (b' ' ∷ (value ++ 13 ∷ [])) k.1

value_of_line :
    (key value : Bytes)
    → IsKey key
    → IsValue value
    → field_value (line_text key value) ≡ trimmed value
unfolding line_text field_value trimmed trim_left
value_of_line key value k v =
    ap (λ (s : Bytes). trimmed (before 13 s))
      (behind-append b':' key (b' ' ∷ (value ++ 13 ∷ [])) k.1)
    ∙ ap trimmed (before-append 13 (b' ' ∷ value) [] (refl, v.1))

values_in-key_lines :
    (j key : Bytes) (vs rest : List Bytes)
    → IsKey key
    → All IsValue vs
    → values_in j (map (line_text key) vs ++ rest)
      ≡ (if same key (canonical j) then map trimmed vs ++ values_in j rest else values_in j rest)
unfolding values_in
values_in-key_lines j key [] rest k h = ground arith
values_in-key_lines j key (v ∷ vs) rest k h =
    rw
      (
        name_of_line key v k,
        k.2,
        value_of_line key v k h.0,
        values_in-key_lines j key vs rest k h.1,
      )
      (ground arith)

-- Every field that is printed is found, under its key and in its order, and no other.
pub values_in-field_texts :
    (j : Bytes) (h : Header)
    → All IsField h
    → Distinct h
    → values_in j (field_texts h) ≡ map trimmed (lines_at (canonical j) h)
unfolding values_in field_texts lines_at
values_in-field_texts j [] ok once = refl
values_in-field_texts j ((key, vs) ∷ h) ok once =
    values_in-key_lines j key vs (field_texts h) ok.0.0 ok.0.1
    ∙ elim (Bool-cases (same key (canonical j))) [
      | inl here ↦
          let no_more : lines_at (canonical j) h ≡ [] =
            ap (λ (k : Bytes). lines_at k h) (sym (same-eq key (canonical j) here)) ∙ once.0 in
          rw here (
            ap (λ (ls : List Bytes). map trimmed vs ++ ls)
              (values_in-field_texts j h ok.1 once.1
                ∙ ap (λ (ls : List Bytes). map trimmed ls) no_more)
            ∙ append-nil (map trimmed vs))
      | inr other ↦ rw other (values_in-field_texts j h ok.1 once.1)
    ]
