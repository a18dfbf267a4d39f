-- ===== src/Writer/Laws.antt =====
-- A buffered writer over a connection whose Writes succeed is the plain stream of what is written:
-- the buffer's size decides only how much of the stream has gone out.
use wlgows.Base.{
  ℕ, ◌-◌, ◌≤◌, ◌≡◌, refl, ap, sym, ◌∙◌, none, [], ◌++◌, leb, ◌==◌, arith, length, take, drop,
  length-append, take-append-drop, append_assoc, append-nil, eq-nil_of_length, Bool-cases, inl, inr,
}
use wlgows.Base.Bytes.{Bytes}
use wlgows.Step.{Step, returned, ◌>>=◌}
use wlgows.Writer.{Out, available, flush, write_empty, write}

-- No error so far, and none to come: the size, what is buffered, and what has gone out.
abbrev pub healthy : ℕ → Bytes → Bytes → Out
healthy n b s = record {
  writer = record { size = n; buf = b; failed = none };
  wire = record { sent = s; fates = [] };
}

-- A call that succeeds and leaves the stream `st`, sent or buffered.
pub record Sends (n : ℕ) (st : Bytes) (r : Step Out) : Type 0 where
  pub buf : Bytes
  pub sent : Bytes
  pub result : r ≡ returned none (healthy n buf sent)
  pub stream : sent ++ buf ≡ st
  pub fits : length buf ≤ n

pub Sends->>= :
    {n : ℕ} {st st' : Bytes} {r : Step Out} (k : Out → Step Out)
    → Sends n st r
    → ((b s : Bytes) → s ++ b ≡ st → length b ≤ n → Sends n st' (k (healthy n b s)))
    → Sends n st' (r >>= k)
Sends->>= {r = r} k h rest =
    let next = rest h.buf h.sent h.stream h.fits in
    record {
      buf = next.buf;
      sent = next.sent;
      result = ap (λ m. m >>= k) h.result ∙ next.result;
      stream = next.stream;
      fits = next.fits;
    }

pub Sends-step : {n : ℕ} {st : Bytes} {r r' : Step Out} → r ≡ r' → Sends n st r' → Sends n st r
Sends-step e h = record {
  buf = h.buf;
  sent = h.sent;
  result = e ∙ h.result;
  stream = h.stream;
  fits = h.fits;
}

pub Sends-stream : {n : ℕ} {st st' : Bytes} {r : Step Out} → st ≡ st' → Sends n st r → Sends n st' r
Sends-stream e h = record {
  buf = h.buf;
  sent = h.sent;
  result = h.result;
  stream = h.stream ∙ e;
  fits = h.fits;
}

-- A flush sends all of the stream.
pub flush-healthy :
    (n : ℕ) (b s : Bytes) → flush (healthy n b s) ≡ returned none (healthy n [] (s ++ b))
unfolding flush
flush-healthy n b s = elim (Bool-cases (length b == 0)) [
  | inl empty ↦
      let e : b ≡ [] = eq-nil_of_length b (ground arith) in
      simp empty (
        ap (λ x. returned none (healthy n x s)) e
        ∙ ap (λ x. returned none (healthy n [] x)) (sym (append-nil s) ∙ ap (λ x. s ++ x) (sym e)))
  | inr full ↦ simp full
]

write_empty-healthy : (n : ℕ) (p s : Bytes) → Sends n (s ++ p) (write_empty p (healthy n [] s))
unfolding write_empty
write_empty-healthy n p s = elim (Bool-cases (leb (length p) n)) [
  | inl fits ↦ record { buf = p; sent = s; result = simp fits; stream = refl; fits = ground arith }
  | inr large ↦ record {
    buf = [];
    sent = s ++ p;
    result = simp large;
    stream = append-nil (s ++ p);
    fits = omega arith;
  }
]

-- A write appends to the stream.
pub write-healthy :
    (n : ℕ) (p b s : Bytes) → length b ≤ n → Sends n ((s ++ b) ++ p) (write p (healthy n b s))
unfolding write available
write-healthy n p b s h = elim (Bool-cases (leb (length p) (n - length b))) [
  | inl fits ↦ record {
    buf = b ++ p;
    sent = s;
    result = simp fits;
    stream = sym (append_assoc s b p);
    fits = ground (arith, length-append b p);
  }
  | inr large ↦ elim (Bool-cases (length b == 0)) [
    | inl empty ↦
        let e : b ≡ [] = eq-nil_of_length b (ground arith) in
        Sends-step (simp (large, empty) (ap (λ x. write_empty p (healthy n x s)) e)) (
          Sends-stream (ap (λ x. x ++ p) (sym (append-nil s) ∙ ap (λ x. s ++ x) (sym e)))
            (write_empty-healthy n p s))
    | inr full ↦
        let room = n - length b in
        Sends-step
          (simp (large, full)
            (ap (λ m. m >>= write_empty (drop room p)) (flush-healthy n (b ++ take room p) s)))
          (Sends-stream (rejoin room)
            (write_empty-healthy n (drop room p) (s ++ (b ++ take room p))))
  ]
]
  where
    rejoin : (k : ℕ) → (s ++ (b ++ take k p)) ++ drop k p ≡ (s ++ b) ++ p
    rejoin k =
        ap (λ x. x ++ drop k p) (sym (append_assoc s b (take k p)))
        ∙ append_assoc (s ++ b) (take k p) (drop k p)
        ∙ ap (λ x. (s ++ b) ++ x) (take-append-drop k p)
