-- ===== src/Read/Guard.antt =====
-- The payload limit of GetFrameFromReader: what it refuses, and what it protects `make` from.
use wlgows.Base.{
  ℕ, ◌≤◌, ◌<◌, ◌≡◌, ◌≢◌, inl, inr, refl, ◌∙◌, true, false, none, some, [], ◌++◌, arith, leb, ltb,
  ◌&&◌, if◌then◌else◌, Bool-cases,
}
use wlgows.Base.Bytes.{Bytes}
use wlgows.Errors.{External, sentinel, wrapped, header_declares, frame_byte_length_exceeded}
use wlgows.Frame.{Frame, get_max_payload_length, append_sealed_header}
use wlgows.Read.Header.{reader, headed, IsHeader, get_frame_from_reader-append_sealed_header}
use wlgows.Read.{
  Reader, Read, returned, panicked, max_alloc, io_read_full, read_from_reader, parse_first_section,
  rest_header_length, read_payload, read_rest_header, get_frame_from_reader, store_payload, checked,
}

read_small : (r : Reader) (n : ℕ) → n ≤ max_alloc → read_from_reader r n ≢ panicked
unfolding read_from_reader
read_small r n h e = ground arith

rest_header_small : (f : Frame) → rest_header_length f ≤ 12
unfolding rest_header_length
rest_header_small f = ground arith

store_returns : (f : Frame) (m : Read Bytes) → m ≢ panicked → store_payload f m ≢ panicked
unfolding store_payload
store_returns f (returned b none r) h e = cc
store_returns f (returned b (some x) r) h e = cc
store_returns f panicked h e = h refl

read_payload_returns :
    (limit : ℕ) (f : Frame) (r : Reader)
    → 0 < limit
    → limit ≤ max_alloc
    → read_payload limit f r ≢ panicked
unfolding read_payload
read_payload_returns limit f r pos small =
    elim (Bool-cases (ltb 0 limit && ltb limit (get_max_payload_length f))) [
      | inl big ↦ rw big (λ e. cc)
      | inr fits ↦ rw fits (
          store_returns f (read_from_reader r (get_max_payload_length f))
            (read_small r (get_max_payload_length f) (ground arith)))
    ]

checked_returns :
    {A B : Type 0} (f : B) (m : Read A) (k : A → Reader → Read B)
    → m ≢ panicked
    → ((a : A) (r : Reader) → k a r ≢ panicked)
    → checked f m k ≢ panicked
checked_returns f (returned a none r) k hm hk = hk a r
checked_returns f (returned a (some e) r) k hm hk = λ p. cc
checked_returns f panicked k hm hk = λ p. hm refl

read_rest_header_returns : (f : Frame) (r : Reader) → read_rest_header f r ≢ panicked
unfolding read_rest_header
read_rest_header_returns f r = elim (Bool-cases (ltb 0 (rest_header_length f))) [
  | inl more ↦ rw more (
      checked_returns f (read_from_reader r (rest_header_length f)) _
        (read_small r _ (omega (arith, rest_header_small f))) (λ a r' p. cc))
  | inr over ↦ rw over (λ p. cc)
]

-- With a limit of 1 up to the largest slice there is, no input whatever makes the read panic: a
-- header that claims too much is refused before its payload is allocated.
pub get_frame_from_reader-ne-panicked :
    (r : Reader) (limit : ℕ)
    → 0 < limit
    → limit ≤ max_alloc
    → get_frame_from_reader r limit ≢ panicked
unfolding get_frame_from_reader
get_frame_from_reader-ne-panicked r limit pos small =
    checked_returns _ (read_from_reader r 2) _ (read_small r 2 (omega arith)) (λ first r'.
      checked_returns _ (read_rest_header (parse_first_section first) r') _
        (read_rest_header_returns _ r') (λ f r''. read_payload_returns limit f r'' pos small))

read_payload_limit :
    (limit : ℕ) (f : Frame) (r : Reader)
    → read_payload limit f r ≡ (
        if ltb 0 limit && ltb limit (get_max_payload_length f)
        then returned f
            (some (
              wrapped
                (header_declares (get_max_payload_length f) limit)
                (sentinel frame_byte_length_exceeded)))
            r
        else if ltb max_alloc (get_max_payload_length f)
        then panicked
        else store_payload f (io_read_full r (get_max_payload_length f)))
unfolding read_payload read_from_reader
read_payload_limit limit f r = elim (Bool-cases (ltb max_alloc (get_max_payload_length f))) [
  | inl big ↦
      let e : leb (get_max_payload_length f) max_alloc ≡ false = ground arith in
      rw (big, e) (unfold store_payload in refl)
  | inr fits ↦
      let e : leb (get_max_payload_length f) max_alloc ≡ true = ground arith in rw (fits, e)
]

-- Behind any sealed header: a declaration over a positive limit is refused with
-- ErrFrameByteLengthExceeded and nothing of the payload is read; otherwise one beyond the largest
-- slice panics; otherwise the payload is read at its declared length.
pub get_frame_from_reader_limit :
    (f : Frame) (body : Bytes) (e : External) (limit : ℕ)
    → IsHeader f
    → get_frame_from_reader (reader (append_sealed_header f [] ++ body) e) limit ≡ (
        if ltb 0 limit && ltb limit (get_max_payload_length f)
        then returned
            (headed f)
            (some (
              wrapped
                (header_declares (get_max_payload_length f) limit)
                (sentinel frame_byte_length_exceeded)))
            (reader body e)
        else if ltb max_alloc (get_max_payload_length f)
        then panicked
        else store_payload (headed f) (io_read_full (reader body e) (get_max_payload_length f)))
unfolding get_max_payload_length
get_frame_from_reader_limit f body e limit h =
    get_frame_from_reader-append_sealed_header f body e limit h
    ∙ read_payload_limit limit (headed f) (reader body e)

-- Without a limit, a header is enough to make the process panic: one that declares more than the
-- largest slice does, whatever follows it.
pub unlimited_panics :
    (f : Frame) (body : Bytes) (e : External)
    → IsHeader f
    → max_alloc < get_max_payload_length f
    → get_frame_from_reader (reader (append_sealed_header f [] ++ body) e) 0 ≡ panicked
unlimited_panics f body e h big =
    let t : ltb max_alloc (get_max_payload_length f) ≡ true = ground arith in
    get_frame_from_reader_limit f body e 0 h ∙ rw t
