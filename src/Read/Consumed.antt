-- ===== src/Read/Consumed.antt =====
-- What a successful GetFrameFromReader says of the bytes that arrived, whatever they were.
use wlgows.Base.{
  ℕ, ◌+◌, ◌/◌, ◌%◌, ◌^◌, ◌==◌, ◌∷◌, true, ◌≤◌, ◌≡◌, ◌≢◌, ◌⊎◌, inl, inr, refl, ap, sym, subst, ◌∙◌,
  false, none, some, [], ◌++◌, arith, length, take, drop, length-take, take-append-drop,
  append_assoc, leb, ltb, ◌&&◌, if◌then◌else◌, Bool-cases,
}
use wlgows.Base.Bytes.{Bytes}
use wlgows.Errors.{Error}
use wlgows.Frame.{Frame, get_max_payload_length}
use wlgows.Frame.Mask.{mask_payload}
use wlgows.Read.{
  Reader, Read, returned, panicked, max_alloc, checked, read_from_reader, parse_first_section,
  rest_header_length, parse_rest_header, store_payload, read_payload, read_rest_header,
  get_frame_from_reader,
}
use wlgows.Read.Octets.{
  IsFirst, IsHeaderOf, IsReading, extended_width, first_section-IsFirst, first_section_length,
  key_there, key_width, no_rest, rest-IsFirst, rest_declares, rest_header_width, rest_key,
  stored-IsFirst, two_bytes, unmasked, widths,
}

-- `used` was taken off the front of the stream, and nothing else.
pub record Takes (used : Bytes) (r r' : Reader) : Type 0 where
  pub pending : r.pending ≡ used ++ r'.pending
  pub ending : r'.ending ≡ r.ending

read_from_reader-Takes :
    (r : Reader) (n : ℕ) {a : Bytes} {r' : Reader}
    → read_from_reader r n ≡ returned a none r'
    → Takes a r r' × (length a ≡ n)
unfolding read_from_reader
read_from_reader-Takes r n {a} {r'} h = elim (Bool-cases (leb n max_alloc)) [
  | inr huge ↦ let impossible : ⊥ = cc (huge) in absurd impossible
  | inl fits ↦ elim (Bool-cases (leb n (length r.pending))) [
    | inr short ↦ let impossible : ⊥ = ground arith in absurd impossible
    | inl all ↦
        let is_a : take n r.pending ≡ a = ground arith in
        let is_r : drop n r.pending ≡ r'.pending = ground arith in
        (
          record {
            pending = sym (take-append-drop n r.pending) ∙ ground (arith, is_a, is_r);
            ending = ground arith;
          },
          ap (λ (x : Bytes). length x) (sym is_a) ∙ length-take n r.pending (ground arith),
        )
  ]
]

checked-returned {ℓ κ} :
    {A : Type ℓ} {B : Type κ} (f : B) (m : Read A) (k : A → Reader → Read B) {b : B} {r' : Reader}
    → checked f m k ≡ returned b none r'
    → (a : A) × (r : Reader) × (m ≡ returned a none r) × (k a r ≡ returned b none r')
checked-returned f (returned a none r) k h = (a, r, refl, h)
checked-returned f (returned a (some e) r) k h = let impossible : ⊥ = cc in absurd impossible
checked-returned f panicked k h = let impossible : ⊥ = cc in absurd impossible

-- Two reads one after the other.
Takes-append :
    {a b : Bytes} {r r' r'' : Reader} → Takes a r r' → Takes b r' r'' → Takes (a ++ b) r r''
Takes-append {a} {b} {r} {r'} {r''} h k = record {
  pending = h.pending ∙ ap (λ (x : Bytes). a ++ x) k.pending ∙ sym (append_assoc a b r''.pending);
  ending = k.ending ∙ h.ending;
}

-- The rest of a header leaves the fields that say how long it is.
record HasRest (f g : Frame) (r r' : Reader) : Type 0 where
  used : Bytes
  takes : Takes used r r'
  size : length used ≡ rest_header_length f
  parsed : (g ≡ parse_rest_header f used) ⊎ ((g ≡ f) × (rest_header_length f ≡ 0))

read_rest_header-HasRest :
    (f : Frame) (r : Reader) {g : Frame} {r' : Reader}
    → read_rest_header f r ≡ returned g none r'
    → HasRest f g r r'
unfolding read_rest_header
read_rest_header-HasRest f r {g} {r'} h = elim (Bool-cases (ltb 0 (rest_header_length f))) [
  | inl more ↦
      let (a, r1, read, parsed) =
        checked-returned f (read_from_reader r (rest_header_length f))
          (λ rest_header r2. returned (parse_rest_header f rest_header) none r2) (rw more at h) in
      let (takes, size) = read_from_reader-Takes r (rest_header_length f) read in
      let is_g : parse_rest_header f a ≡ g = cc in
      let is_r : r1 ≡ r' = cc in
      record {
        used = a;
        takes = subst (λ (x : Reader). Takes a r x) is_r takes;
        size = size;
        parsed = inl (sym is_g);
      }
  | inr over ↦
      let here : returned f none r ≡ returned g none r' = rw over at h in
      let none_left : rest_header_length f ≡ 0 = ground arith in
      let is_g : f ≡ g = cc in
      let is_r : r ≡ r' = cc in
      record {
        used = [];
        takes = record {
          pending = ap (λ (x : Reader). x.pending) is_r;
          ending = ap (λ (x : Reader). x.ending) (sym is_r);
        };
        size = sym none_left;
        parsed = inr (sym is_g, none_left);
      }
]

-- The payload of a frame whose header is in.
record HasPayload (limit : ℕ) (f g : Frame) (r r' : Reader) : Type 0 where
  body : Bytes
  takes : Takes body r r'
  size : length body ≡ get_max_payload_length f
  within : (limit ≡ 0) ⊎ (length body ≤ limit)
  stored : g ≡ record f { payload_data = if f.mask then mask_payload body f.masking_key else body }

within_size : {limit n m : ℕ} → (limit ≡ 0) ⊎ (n ≤ limit) → m ≡ n → (limit ≡ 0) ⊎ (m ≤ limit)
within_size (inl unlimited) e = inl unlimited
within_size (inr small) e = inr (omega arith)

guarded : (limit n : ℕ) → (ltb 0 limit && ltb limit n) ≡ false → (limit ≡ 0) ⊎ (n ≤ limit)
guarded limit n h = elim (Bool-cases (ltb 0 limit)) [
  | inl positive ↦ inr (ground arith)
  | inr unlimited ↦ inl (ground arith)
]

stored-HasPayload :
    (limit : ℕ) (f : Frame) (r : Reader) (m : Read Bytes) {g : Frame} {r' : Reader}
    → (limit ≡ 0) ⊎ (get_max_payload_length f ≤ limit)
    → m ≡ read_from_reader r (get_max_payload_length f)
    → store_payload f m ≡ returned g none r'
    → HasPayload limit f g r r'
unfolding store_payload
stored-HasPayload limit f r (returned a none r1) {g} {r'} small read h =
    let (takes, size) = read_from_reader-Takes r (get_max_payload_length f) (sym read) in
    let is_g : record f { payload_data = if f.mask then mask_payload a f.masking_key else a } ≡ g =
      cc in
    let is_r : r1 ≡ r' = cc in
    let got : HasPayload limit f
        (record f { payload_data = if f.mask then mask_payload a f.masking_key else a }) r r1 =
      record {
        body = a;
        takes = takes;
        size = size;
        within = within_size small size;
        stored = refl;
      } in
    subst (λ (x : Reader). HasPayload limit f g r x) is_r
      (subst (λ (x : Frame). HasPayload limit f x r r1) is_g got)
stored-HasPayload limit f r (returned a (some e) r1) small read h =
    let impossible : ⊥ = cc in absurd impossible
stored-HasPayload limit f r panicked small read h = let impossible : ⊥ = cc in absurd impossible

failed-ne-returned :
    {f g : Frame} {e : Error} {r r' : Reader} → returned f (some e) r ≢ returned g none r'
failed-ne-returned h = cc

read_payload-HasPayload :
    (limit : ℕ) (f : Frame) (r : Reader) {g : Frame} {r' : Reader}
    → read_payload limit f r ≡ returned g none r'
    → HasPayload limit f g r r'
unfolding read_payload
read_payload-HasPayload limit f r h =
    elim (Bool-cases (ltb 0 limit && ltb limit (get_max_payload_length f))) [
      | inl big ↦ absurd (failed-ne-returned (rw big at h))
      | inr fits ↦
          stored-HasPayload limit f r (read_from_reader r (get_max_payload_length f))
            (guarded limit _ fits) refl (rw fits at h)
    ]

rest-IsHeaderOf :
    (b0 b1 : ℕ) (g : Frame) {r r' : Reader}
    (h : HasRest (parse_first_section (b0 ∷ b1 ∷ [])) g r r')
    → IsHeaderOf b0 b1 (take (extended_width b1) h.used) (drop (extended_width b1) h.used) g
rest-IsHeaderOf b0 b1 g h =
    let f = parse_first_section (b0 ∷ b1 ∷ []) in
    let first = first_section-IsFirst b0 b1 in
    let size : length h.used ≡ extended_width b1 + key_width b1 =
      h.size ∙ rest_header_width b0 b1 in
    let (extended_size, key_size) = widths b1 h.used size in
    let rest_first = rest-IsFirst b0 b1 f h.used first in
    elim h.parsed [
      | inl parsed ↦ record {
        first = subst (IsFirst b0 b1) (sym parsed) rest_first;
        extended_size = extended_size;
        key_size = key_size;
        declared =
            ap get_max_payload_length parsed
            ∙ rest_declares f h.used (b1 % 2 ^ 7) (key_width b1) (first_section_length b0 b1) size;
        key_is = λ masked.
            let bit : (b1 / 2 ^ 7 == 1) ≡ true =
              sym (ap (λ (x : Frame). x.mask) parsed ∙ rest_first.mask) ∙ masked in
            ap (λ (x : Frame). x.masking_key) parsed
            ∙ rest_key f h.used (extended_width b1) (first.mask ∙ bit)
                (key_there b1 h.used bit size);
      }
      | inr (same, none_left) ↦ record {
        first = subst (IsFirst b0 b1) (sym same) first;
        extended_size = extended_size;
        key_size = key_size;
        declared =
            ap get_max_payload_length same
            ∙ (no_rest b0 b1 (take (extended_width b1) h.used) none_left).1;
        key_is = λ masked.
            let clear : g.mask ≡ false =
              ap (λ (x : Frame). x.mask) same ∙ (no_rest b0 b1 [] none_left).0 in
            let impossible : ⊥ = cc in absurd impossible;
      }
    ]

-- The payload that is stored behind a header.
stored-IsReading :
    (b0 b1 : ℕ) (extended key : Bytes) (limit : ℕ) (g f : Frame) {r r' : Reader}
    → IsHeaderOf b0 b1 extended key g
    → (h : HasPayload limit g f r r') → IsReading b0 b1 extended key h.body f
stored-IsReading b0 b1 extended key limit g f head h = record {
  first = subst (IsFirst b0 b1) (sym h.stored) (stored-IsFirst b0 b1 g _ head.first);
  extended_size = head.extended_size;
  key_size = head.key_size;
  body_size = h.size ∙ head.declared;
  payload =
      ap (λ (x : Frame). x.payload_data) h.stored
      ∙ unmasked b1 h.body g key head.first.mask head.key_is;
}

pub get_frame_from_reader-IsReading :
    (r : Reader) (limit : ℕ) {f : Frame} {r' : Reader}
    → get_frame_from_reader r limit ≡ returned f none r'
    → (b0 b1 : ℕ) × (extended key body : Bytes) × Takes (b0 ∷ b1 ∷ extended ++ key ++ body) r r'
      × IsReading b0 b1 extended key body f
      × ((limit ≡ 0) ⊎ (length body ≤ limit))
unfolding get_frame_from_reader
get_frame_from_reader-IsReading r limit {f} {r'} h =
    let (a, r1, read, more) = checked-returned _ (read_from_reader r 2) _ h in
    let (first_takes, two) = read_from_reader-Takes r 2 read in
    let (b0, b1, is_a) = two_bytes a two in
    let (g, r2, rest, payload) =
      checked-returned _ (read_rest_header (parse_first_section a) r1) (read_payload limit) more in
    let rest_of : HasRest (parse_first_section (b0 ∷ b1 ∷ [])) g r1 r2 =
      subst (λ (x : Bytes). HasRest (parse_first_section x) g r1 r2) is_a
        (read_rest_header-HasRest (parse_first_section a) r1 rest) in
    let body_of = read_payload-HasPayload limit g r2 payload in
    let first_of : Takes (b0 ∷ b1 ∷ []) r r1 =
      subst (λ (x : Bytes). Takes x r r1) is_a first_takes in
    (
      b0,
      b1,
      take (extended_width b1) rest_of.used,
      drop (extended_width b1) rest_of.used,
      body_of.body,
      subst (λ (x : Bytes). Takes (b0 ∷ b1 ∷ x ++ body_of.body) r r')
          (sym (take-append-drop (extended_width b1) rest_of.used))
          (Takes-append (Takes-append first_of rest_of.takes) body_of.takes),
      stored-IsReading b0 b1 _ _ limit g f (rest-IsHeaderOf b0 b1 g rest_of) body_of,
      body_of.within,
    )
