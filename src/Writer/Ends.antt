-- ===== src/Writer/Ends.antt =====
-- Whatever the connection does, a flush and a write return; behind one without an error the buffer is
-- within its size.
use wlgows.Base.{
  ℕ, ◌-◌, ◌≤◌, ◌≡◌, refl, ap, subst, Option, none, some, [], ◌++◌, arith, length, take, drop,
  length-append, leb, ◌==◌, Bool-cases, inl, inr, eq-nil_of_length,
}
use wlgows.Base.Bytes.{Bytes}
use wlgows.Errors.{Error}
use wlgows.Step.{Step, returned, stopped, ◌>>=◌}
use wlgows.Writer.{
  Wire, Writer, Out, available, wire_write, flushed, flush_clear, flush, written, write_empty,
  write_clear, write,
}

-- A call that returns, with what that makes true.
abbrev pub Ends {ℓ} : {S : Type ℓ} → (Option Error → S → Type 0) → Step S → Type 0
Ends P (returned e s) = P e s
Ends P (stopped x) = ⊥

pub Ends->>= {ℓ} :
    {S : Type ℓ} (P Q : Option Error → S → Type 0) (r : Step S) (k : S → Step S)
    → Ends Q r
    → ((e : Error) (s : S) → Q (some e) s → P (some e) s)
    → ((s : S) → Q none s → Ends P (k s))
    → Ends P (r >>= k)
Ends->>= P Q (returned none s) k h refused rest = rest s h
Ends->>= P Q (returned (some e) s) k h refused rest = refused e s h
Ends->>= P Q (stopped x) k h refused rest = h

-- Behind a flush of a buffer of `n` bytes.
abbrev pub Flushed : ℕ → Option Error → Out → Type 0
Flushed n none o = (o.writer.size ≡ n) × (o.writer.buf ≡ [])
Flushed n (some e) o = Unit {0}

-- Behind a write to it.
abbrev pub Written : ℕ → Option Error → Out → Type 0
Written n none o = (o.writer.size ≡ n) × (length o.writer.buf ≤ n)
Written n (some e) o = Unit {0}

flushed-Ends : (r : (ℕ × Option Error) × Wire) (w : Writer) → Ends (Flushed w.size) (flushed r w)
unfolding flushed
flushed-Ends ((n, none), wire) w = (refl, refl)
flushed-Ends ((n, some e), wire) w = tt

flush_clear-Ends :
    (failed : Option Error) (o : Out) → Ends (Flushed o.writer.size) (flush_clear failed o)
unfolding flush_clear
flush_clear-Ends (some e) o = tt
flush_clear-Ends none o = elim (Bool-cases (length o.writer.buf == 0)) [
  | inl empty ↦ simp empty (refl, eq-nil_of_length o.writer.buf (ground arith))
  | inr full ↦ simp full (flushed-Ends (wire_write o.writer.buf o.wire.fates o.wire) o.writer)
]

pub flush-Ends : (o : Out) → Ends (Flushed o.writer.size) (flush o)
unfolding flush
flush-Ends o = flush_clear-Ends o.writer.failed o

written-Ends :
    (r : (ℕ × Option Error) × Wire) (w : Writer)
    → length w.buf ≤ w.size
    → Ends (Written w.size) (written r w)
unfolding written
written-Ends ((n, none), wire) w h = (refl, h)
written-Ends ((n, some e), wire) w h = tt

write_empty-Ends :
    (p : Bytes) (o : Out)
    → length o.writer.buf ≤ o.writer.size
    → Ends (Written o.writer.size) (write_empty p o)
unfolding write_empty
write_empty-Ends p o h = elim (Bool-cases (leb (length p) o.writer.size)) [
  | inl small ↦ simp small (refl, ground arith)
  | inr large ↦ simp large (written-Ends (wire_write p o.wire.fates o.wire) o.writer h)
]

write_clear-Ends :
    (failed : Option Error) (p : Bytes) (o : Out)
    → length o.writer.buf ≤ o.writer.size
    → Ends (Written o.writer.size) (write_clear failed p o)
unfolding write_clear available
write_clear-Ends (some e) p o h = tt
write_clear-Ends none p o h =
    let room = o.writer.size - length o.writer.buf in
    let n = o.writer.size in
    elim (Bool-cases (leb (length p) room)) [
      | inl small ↦ simp small (refl, ground (arith, length-append o.writer.buf p))
      | inr large ↦ elim (Bool-cases (length o.writer.buf == 0)) [
        | inl empty ↦ simp (large, empty) (write_empty-Ends p o h)
        | inr full ↦
            simp (large, full)
              (Ends->>= (Written n) (Flushed n)
                (flush
                  (record o { writer = record o.writer { buf = o.writer.buf ++ take room p } }))
                (write_empty (drop room p))
                (flush-Ends
                  (record o { writer = record o.writer { buf = o.writer.buf ++ take room p } }))
                (λ e s q. tt)
                (λ s q.
                  subst (λ m. Ends (Written m) (write_empty (drop room p) s)) q.0
                    (write_empty-Ends (drop room p) s
                      (omega (arith, ap (λ (b : Bytes). length b) q.1)))))
      ]
    ]

pub write-Ends :
    (p : Bytes) (o : Out)
    → length o.writer.buf ≤ o.writer.size
    → Ends (Written o.writer.size) (write p o)
unfolding write
write-Ends p o h = write_clear-Ends o.writer.failed p o h
