-- ===== src/HandShake/Print/Reading.antt =====
-- The messages that HandShakeServer.go and HandShakeClient.go print, as a reader finds them.
use wlgows.Base.{
  ℕ, ◌≡◌, refl, sym, ap, ◌∙◌, List, [], ◌∷◌, ◌++◌, arith, All, All-append, append_assoc, append-nil,
  map, drop, subst,
}
use wlgows.Base.Bytes.{Bytes}
use wlgows.Http.{Request, Response, Platform}
use wlgows.Http.Text.{same, itoa}
use wlgows.Http.Decimal.{All-itoa}
use wlgows.Http.Status.{status_text}
use wlgows.Http.Status.Laws.{Lacks-status_text}
use wlgows.Http.Fields.{Header, canonical, lines_at, values}
use wlgows.Http.Message.{
  lines, field_lines, trimmed, values_in, message_values, message_body_lines, body_lines,
  start_line, first_word, second_word, third_word,
}
use wlgows.Http.Message.Laws.{Lacks, before-append, behind-append, lines-append}
use wlgows.HandShake.Print.{crlf, header_lines, request_head, response_head}
use wlgows.HandShake.Print.Fields.{
  IsField, Distinct, field_texts, lines-header_lines, field_lines-field_texts,
  body_lines-field_texts, values_in-field_texts,
}

-- A `range` over a map meets what the map has, each key once.
pub record IsRange (p : Platform) (h : Header) : Type 1 where
  pub only : (P : Bytes × List Bytes → Type 0) → All P h → All P (p.range h)
  pub once : Distinct (p.range h)
  pub at : (key : Bytes) → lines_at key (p.range h) ≡ lines_at key h

-- A word of a start line.
abbrev pub IsWord : Bytes → Type 0
IsWord w = Lacks 10 w × Lacks 13 w × Lacks b' ' w

-- A reader of the message finds these words in its start line, for every key the values of this
-- header, without the white space around them, and behind the empty line the lines of this body.
pub record Carries (m first second : Bytes) (h : Header) (body : Bytes) : Type 0 where
  pub first_is : first_word m ≡ first
  pub second_is : second_word m ≡ second
  pub values_are : (key : Bytes) → message_values m key ≡ map trimmed (values h key)
  pub body_is : message_body_lines m ≡ lines body

start_text : Bytes → Bytes → Bytes → Bytes
start_text a b c = a ++ (b' ' ∷ (b ++ (b' ' ∷ (c ++ 13 ∷ []))))

Lacks-start_text : (a b c : Bytes) → IsWord a → IsWord b → Lacks 10 c → Lacks 10 (start_text a b c)
unfolding start_text
Lacks-start_text a b c ha hb hc =
    All-append _ a _ ha.0 (refl, All-append _ b _ hb.0 (refl, All-append _ c _ hc (refl, tt)))

-- The empty line, and what stands behind it.
last_line : (body : Bytes) → lines (crlf ++ body) ≡ (13 ∷ []) ∷ lines body
unfolding lines
last_line body = refl

whole_text : Bytes → Bytes → Bytes → Header → Bytes → Bytes
whole_text a b c h body = start_text a b c ++ 10 ∷ (header_lines h ++ (crlf ++ body))

module _ (a b c : Bytes) (h : Header) (body : Bytes) (ha : IsWord a) (hb : IsWord b)
    (hc : Lacks 10 c) where
  abbrev rest : Bytes
  rest = header_lines h ++ (crlf ++ body)

  abbrev whole : Bytes
  whole = whole_text a b c h body

  whole_lines : lines whole ≡ start_text a b c ∷ lines rest
  unfolding whole_text
  whole_lines = lines-append (start_text a b c) rest (Lacks-start_text a b c ha hb hc)

  start_is : start_line whole ≡ start_text a b c
  unfolding start_line
  start_is = rw whole_lines refl

  first_of_whole : first_word whole ≡ a
  unfolding first_word start_text
  first_of_whole = rw start_is (before-append b' ' a _ ha.2)

  second_of_whole : second_word whole ≡ b
  unfolding second_word start_text
  second_of_whole =
      rw (start_is, behind-append b' ' a (b ++ (b' ' ∷ (c ++ 13 ∷ []))) ha.2)
        (before-append b' ' b _ hb.2)

  third_of_whole : Lacks 13 c → third_word whole ≡ c
  unfolding third_word start_text
  third_of_whole last =
      rw
        (
          start_is,
          behind-append b' ' a (b ++ (b' ' ∷ (c ++ 13 ∷ []))) ha.2,
          behind-append b' ' b (c ++ 13 ∷ []) hb.2,
        )
        (before-append 13 c [] last)

  lines-rest : All IsField h → lines rest ≡ field_texts h ++ (13 ∷ []) ∷ lines body
  lines-rest fields =
      lines-header_lines h (crlf ++ body) fields
      ∙ ap (λ (ls : List Bytes). field_texts h ++ ls) (last_line body)

  body_of_whole : All IsField h → message_body_lines whole ≡ lines body
  unfolding message_body_lines body_lines same
  body_of_whole fields =
      ap (λ (ls : List Bytes). body_lines (drop 1 ls)) whole_lines
      ∙ ap body_lines (lines-rest fields)
      ∙ body_lines-field_texts h ((13 ∷ []) ∷ lines body)

  values_of_whole :
      (key : Bytes)
      → All IsField h
      → Distinct h
      → message_values whole key ≡ map trimmed (lines_at (canonical key) h)
  unfolding message_values field_lines same
  values_of_whole key fields once =
      ap (λ (ls : List Bytes). values_in key (field_lines (drop 1 ls))) whole_lines
      ∙ ap (λ (ls : List Bytes). values_in key (field_lines ls)) (lines-rest fields)
      ∙ ap (values_in key)
          (field_lines-field_texts h ((13 ∷ []) ∷ lines body) ∙ append-nil (field_texts h))
      ∙ values_in-field_texts key h fields once

itoa-IsWord : (n : ℕ) → IsWord (itoa n)
itoa-IsWord n = (
  All-itoa _ n (λ d h. ground arith),
  All-itoa _ n (λ d h. ground arith),
  All-itoa _ n (λ d h. ground arith),
)

-- A request as it is printed, with any body behind it.
request_whole :
    (p : Platform) (req : Request) (body : Bytes)
    → request_head p req ++ body
      ≡ whole_text req.method req.url.request_uri req.proto (p.range req.header) body
unfolding whole_text start_text
request_whole p req body = simp append_assoc refl

response_whole :
    (p : Platform) (res : Response) (body : Bytes)
    → response_head p res ++ body
      ≡ whole_text res.proto
          (itoa res.status_code)
          (status_text res.status_code)
          (p.range res.header)
          body
unfolding whole_text start_text
response_whole p res body = simp append_assoc refl

whole-Carries :
    (p : Platform) (a b c : Bytes) (h : Header) (body m : Bytes)
    → m ≡ whole_text a b c (p.range h) body
    → IsWord a
    → IsWord b
    → Lacks 10 c
    → All IsField h
    → IsRange p h
    → Carries m a b h body
unfolding values
whole-Carries p a b c h body m is_m ha hb hc fields range =
    subst (λ (x : Bytes). Carries x a b h body) (sym is_m)
      (record {
        first_is = first_of_whole a b c (p.range h) body ha hb hc;
        second_is = second_of_whole a b c (p.range h) body ha hb hc;
        values_are = λ key.
            values_of_whole a b c (p.range h) body ha hb hc key (range.only IsField fields)
              range.once
            ∙ ap (λ (ls : List Bytes). map trimmed ls) (range.at (canonical key));
        body_is = body_of_whole a b c (p.range h) body ha hb hc (range.only IsField fields);
      })

-- What a request has to be for its message to be read: three words, and fields that fit on lines.
pub record IsPrintable (req : Request) : Type 0 where
  pub method : IsWord req.method
  pub target : IsWord req.url.request_uri
  pub proto : IsWord req.proto
  pub fields : All IsField req.header

pub request-Carries :
    (p : Platform) (req : Request) (body : Bytes)
    → IsPrintable req
    → IsRange p req.header
    → Carries (request_head p req ++ body) req.method req.url.request_uri req.header body
      × (third_word (request_head p req ++ body) ≡ req.proto)
request-Carries p req body fits range = (
  whole-Carries p req.method req.url.request_uri req.proto req.header body _
      (request_whole p req body) fits.method fits.target fits.proto.0 fits.fields range,
  ap third_word (request_whole p req body)
      ∙ third_of_whole req.method req.url.request_uri req.proto (p.range req.header) body
          fits.method fits.target fits.proto.0 fits.proto.1,
)

pub response-Carries :
    (p : Platform) (res : Response) (body : Bytes)
    → IsWord res.proto
    → All IsField res.header
    → IsRange p res.header
    → Carries (response_head p res ++ body) res.proto (itoa res.status_code) res.header body
response-Carries p res body proto fields range =
    whole-Carries p res.proto (itoa res.status_code) (status_text res.status_code) res.header body _
      (response_whole p res body) proto (itoa-IsWord res.status_code)
      (Lacks-status_text res.status_code) fields range
