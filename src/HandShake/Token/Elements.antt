-- ===== src/HandShake/Token/Elements.antt =====
-- The comma separated list of RFC 7230 by itself: what an element of a line is, and that Split gives
-- the elements of a line and nothing else.
use wlgows.Base.{
  ℕ, ◌↔◌, subst, ◌≡◌, refl, sym, ap, ◌∙◌, ◌⊎◌, inl, inr, true, false, [], ◌∷◌, ◌++◌, ◌==◌, All,
  All-append, append_assoc, append-nil, arith, Bool-cases,
}
use wlgows.Base.Bytes.{Bytes}
use wlgows.Http.Text.{split, split_from, comma, trim_space, equal_fold}
use wlgows.HandShake.Token.{any_candidate}

-- What stands before an element is empty or ends in a comma, what stands behind it is empty or begins
-- with one, and the element has none.
abbrev pub BeforeElement : Bytes → Type 0
BeforeElement s = (s ≡ []) ⊎ ((t : Bytes) × (s ≡ t ++ comma ∷ []))

abbrev pub BehindElement : Bytes → Type 0
BehindElement s = (s ≡ []) ⊎ ((t : Bytes) × (s ≡ comma ∷ t))

abbrev pub NoComma : Bytes → Type 0
NoComma = All (λ c. (c == comma) ≡ false)

pub record IsElement (piece value : Bytes) : Type 0 where
  pub before : Bytes
  pub behind : Bytes
  pub whole : value ≡ before ++ (piece ++ behind)
  pub begins : BeforeElement before
  pub ends : BehindElement behind
  pub one : NoComma piece

-- Without case, and without the white space around it.
abbrev pub IsToken : Bytes → Bytes → Type 0
IsToken token piece = equal_fold (trim_space piece) token ≡ true

-- An element of what stands behind a comma is an element of the whole.
behind-IsElement : {e s : Bytes} (piece : Bytes) → IsElement e s → IsElement e (piece ++ comma ∷ s)
behind-IsElement {e} {s} piece r = record {
  before = piece ++ comma ∷ r.before;
  behind = r.behind;
  whole =
      ap (λ (t : Bytes). piece ++ comma ∷ t) r.whole
      ∙ sym (append_assoc piece (comma ∷ r.before) (e ++ r.behind));
  begins = elim r.begins [
    | inl none_before ↦ inr (piece, ap (λ (t : Bytes). piece ++ comma ∷ t) none_before)
    | inr (t, cut) ↦ inr (
      piece ++ comma ∷ t,
      ap (λ (t : Bytes). piece ++ comma ∷ t) cut
          ∙ sym (append_assoc piece (comma ∷ t) (comma ∷ [])),
    )
  ];
  ends = r.ends;
  one = r.one;
}

-- The first piece of a line that goes on with a comma, or ends.
first-IsElement : (piece s : Bytes) → NoComma piece → BehindElement s → IsElement piece (piece ++ s)
first-IsElement piece s n ends = record {
  before = [];
  behind = s;
  whole = refl;
  begins = inl refl;
  ends = ends;
  one = n;
}

-- A candidate that fits is an element, also of a line that `piece` has begun.
any_candidate-split_from :
    (token piece s : Bytes)
    → NoComma piece
    → any_candidate token (split_from piece s) ≡ true
    → (e : Bytes) × IsElement e (piece ++ s) × IsToken token e
unfolding any_candidate split_from
any_candidate-split_from token piece [] n h =
    (piece, first-IsElement piece [] n (inl refl), ground arith)
any_candidate-split_from token piece (c ∷ s) n h = elim (Bool-cases (c == comma)) [
  | inl cut ↦ elim (Bool-cases (equal_fold (trim_space piece) token)) [
    | inl fits ↦
        (piece, first-IsElement piece (c ∷ s) n (inr (s, ap (λ d. d ∷ s) (ground arith))), fits)
    | inr other ↦
        let at_comma : c ≡ comma = ground arith in
        let (e, r, fits) = any_candidate-split_from token [] s tt (ground arith) in
        (
          e,
          subst (λ (d : ℕ). IsElement e (piece ++ d ∷ s)) (sym at_comma) (behind-IsElement piece r),
          fits,
        )
  ]
  | inr more ↦
      let (e, r, fits) =
        any_candidate-split_from token (piece ++ c ∷ []) s
          (All-append _ piece (c ∷ []) n (more, tt)) (ground arith) in
      (e, rw (sym (append_assoc piece (c ∷ []) s)) r, fits)
]

-- The candidates behind a comma are tried whatever stands before it.
any_candidate_behind :
    (token piece before s : Bytes)
    → any_candidate token (split s) ≡ true
    → any_candidate token (split_from piece (before ++ comma ∷ s)) ≡ true
unfolding any_candidate split split_from
any_candidate_behind token piece [] s h = ground arith
any_candidate_behind token piece (c ∷ before) s h = elim (Bool-cases (c == comma)) [
  | inl cut ↦ ground (arith, any_candidate_behind token [] before s h)
  | inr more ↦ ground (arith, any_candidate_behind token (piece ++ c ∷ []) before s h)
]

-- An element at the front of a line is a candidate.
any_candidate_first :
    (token piece e s : Bytes)
    → NoComma e
    → BehindElement s
    → IsToken token (piece ++ e)
    → any_candidate token (split_from piece (e ++ s)) ≡ true
unfolding any_candidate split_from
any_candidate_first token piece [] s n (inl ends) fits = rw ends (ground (arith, append-nil piece))
any_candidate_first token piece [] s n (inr (t, ends)) fits =
    rw ends (ground (arith, append-nil piece))
any_candidate_first token piece (c ∷ e) s n ends fits =
    ground (
      arith,
      append_assoc piece (c ∷ []) e,
      any_candidate_first token (piece ++ c ∷ []) e s n.1 ends,
    )

-- An element is a candidate.
any_candidate_element :
    (token value : Bytes) {e : Bytes}
    → IsElement e value
    → IsToken token e
    → any_candidate token (split value) ≡ true
unfolding split
any_candidate_element token value {e} r fits =
    let front : any_candidate token (split (e ++ r.behind)) ≡ true =
      any_candidate_first token [] e r.behind r.one r.ends fits in
    elim r.begins [
      | inl none_before ↦ rw (r.whole, none_before) front
      | inr (t, cut) ↦
          rw (r.whole, cut, append_assoc t (comma ∷ []) (e ++ r.behind))
            (any_candidate_behind token [] t (e ++ r.behind) front)
    ]

-- The loop over a line finds the token exactly if an element of the line is the token.
pub any_candidate-split :
    (token value : Bytes)
    → (any_candidate token (split value) ≡ true)
      ↔ ((e : Bytes) × IsElement e value × IsToken token e)
unfolding split
any_candidate-split token value = (
  any_candidate-split_from token [] value tt,
  λ (e, r, fits). any_candidate_element token value r fits,
)
