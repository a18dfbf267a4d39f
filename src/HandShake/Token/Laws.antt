-- ===== src/HandShake/Token/Laws.antt =====
-- headerHasToken against the reading of a header field that RFC 7230 and RFC 6455 give.
use wlgows.Base.{◌≡◌, refl, ap, ◌↔◌, inl, inr, true, List, [], ◌∷◌, ◌++◌, arith, Bool-cases}
use wlgows.Base.Bytes.{Bytes}
use wlgows.Http.Text.{split}
use wlgows.Http.Fields.{Header, values}
use wlgows.HandShake.Token.{any_candidate, any_value, header_has_token}
use wlgows.HandShake.Token.Elements.{IsElement, IsToken, any_candidate-split}

-- `value` is one of the lines.
abbrev pub Among : Bytes → List Bytes → Type 0
Among value lines = (xs : List Bytes) × (ys : List Bytes) × (lines ≡ xs ++ value ∷ ys)

-- The token is an element of some line.
abbrev pub HasToken : Bytes → List Bytes → Type 0
HasToken token lines =
    (value : Bytes) × Among value lines × (e : Bytes) × IsElement e value × IsToken token e

pub any_value-HasToken :
    (token : Bytes) (lines : List Bytes) → any_value token lines ≡ true → HasToken token lines
unfolding any_value
any_value-HasToken token [] h = cc
any_value-HasToken token (value ∷ rest) h = elim (Bool-cases (any_candidate token (split value))) [
  | inl here ↦
      let (e, r, fits) = (any_candidate-split token value).0 here in
      (value, ([], rest, refl), e, r, fits)
  | inr there ↦
      let (v, (xs, ys, at_v), e, r, fits) = any_value-HasToken token rest (ground arith) in
      (v, (value ∷ xs, ys, ap (λ (t : List Bytes). value ∷ t) at_v), e, r, fits)
]

any_value_among :
    (token value : Bytes) (xs ys : List Bytes)
    → any_candidate token (split value) ≡ true
    → any_value token (xs ++ value ∷ ys) ≡ true
unfolding any_value
any_value_among token value [] ys h = ground arith
any_value_among token value (x ∷ xs) ys h = ground (arith, any_value_among token value xs ys h)

-- headerHasToken is true exactly if one of the field's lines, read as a list with commas, has an
-- element that is the token, white space around it and its letters' case aside.
pub header_has_token_lem :
    (header : Header) (key token : Bytes)
    → (header_has_token header key token ≡ true) ↔ HasToken token (values header key)
unfolding header_has_token
header_has_token_lem header key token = (
  any_value-HasToken token (values header key),
  λ (value, (xs, ys, at_value), e, r, fits).
      rw at_value
        (any_value_among token value xs ys ((any_candidate-split token value).1 (e, r, fits))),
)
