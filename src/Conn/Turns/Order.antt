-- ===== src/Conn/Turns/Order.antt =====
-- What any schedule of turns leaves on the wire.
use wlgows.Base.{
  ℕ, ◌+◌, ◌≤◌, ◌<◌, ◌≡◌, ◌⊎◌, refl, ap, sym, subst, ◌∙◌, Bool, true, false, ◌||◌, none, some, List,
  [], ◌∷◌, ◌++◌, arith, length, append_assoc, append-nil, ◌==◌, if◌then◌else◌, Bool-cases,
  Option-cases, inl, inr, All,
}
use wlgows.Base.Bytes.{Bytes, IsBytes}
use wlgows.Errors.{Error, ok}
use wlgows.Opcode.{is_data_opcode, is_control_opcode, opcode_close}
use wlgows.Frame.{Frame, MaskingKey, fill_payload_length}
use wlgows.Frame.Mask.Laws.{IsKey}
use wlgows.Message.{Frames}
use wlgows.Read.{max_alloc}
use wlgows.Read.Laws.{wire}
use wlgows.Step.{Step, returned, within}
use wlgows.Writer.{Out}
use wlgows.Writer.Laws.{healthy}
use wlgows.Conn.{
  Conn, min_writer_size, validate_send_frame, settle_fields, buffered_write_frame, send_frame,
}
use wlgows.Conn.Write.{
  sent_frame, sent_frame_fields, sent_frame-IsSettled, IsReady, buffered_write_frame-wire,
  send_frame-wire,
}
use wlgows.Conn.Send.Fragments.{wires}
use wlgows.Conn.Turns.{
  Turn, sends, buffers, frame_of, take_turn, next_turn, take_turns, passes, closed_by, passing,
  IsTurn, IsSealed, AreSealed, Quiet,
}

passes-validate :
    (f : Frame) (closed : Bool) → passes closed f ≡ true → validate_send_frame f closed ≡ none
unfolding validate_send_frame is_control_opcode is_data_opcode
passes-validate f closed h = ground arith

abbrev IsKnown : ℕ → Type 0
IsKnown o = (is_control_opcode o ≡ true) ⊎ (is_data_opcode o ≡ true)

fails-validate :
    (f : Frame) (closed : Bool)
    → IsKnown f.opcode
    → passes closed f ≡ false
    → (e : Error) × (validate_send_frame f closed ≡ some e)
unfolding validate_send_frame is_control_opcode is_data_opcode
fails-validate f closed known h = elim (Option-cases (validate_send_frame f closed)) [
  | inl clean ↦ let impossible : ⊥ = ground arith in absurd impossible
  | inr refused ↦ refused
]

sent_frame_fin :
    (m : Bool) (k : MaskingKey) (f : Frame)
    → (sent_frame m k f).fin ≡ (if is_control_opcode f.opcode then true else f.fin)
unfolding settle_fields fill_payload_length
sent_frame_fin m k f = ground arith

IsKnown-lt : (o : ℕ) → IsKnown o → o < 16
unfolding is_control_opcode is_data_opcode
IsKnown-lt o h = ground arith

frame_of-IsKnown : (t : Turn) → IsTurn t → IsKnown (frame_of t).opcode
frame_of-IsKnown (sends f) h = h.0
frame_of-IsKnown (buffers f) h = inr h.0

turn_payload :
    (t : Turn)
    → IsTurn t
    → IsBytes (frame_of t).payload_data × (length (frame_of t).payload_data ≤ max_alloc)
turn_payload (sends f) h = (h.1, h.2)
turn_payload (buffers f) h = (h.1, h.2)

refused_turn :
    (t : Turn) (c : Conn) (e : Error)
    → validate_send_frame (frame_of t) c.close_sent ≡ some e
    → take_turn t c ≡ returned (some e) c
unfolding take_turn send_frame buffered_write_frame
refused_turn (sends f) c e h = rw h refl
refused_turn (buffers f) c e h = rw h refl

passes-quiet :
    (f : Frame) (closed : Bool) (o : ℕ)
    → o ≡ f.opcode
    → passes closed f ≡ true
    → (closed ≡ false) ⊎ ((is_control_opcode o ≡ true) × ((o == opcode_close) ≡ false))
passes-quiet f closed o e h = elim (Bool-cases closed) [
  | inr unclosed ↦ inl unclosed
  | inl shut ↦ inr (ground arith, ground arith)
]

closed_by_lem :
    (t : Turn) (closed : Bool) (o : ℕ)
    → IsTurn t
    → o ≡ (frame_of t).opcode
    → closed_by closed t ≡ (o == opcode_close || closed)
unfolding is_data_opcode
closed_by_lem (sends f) closed o h e = ground arith
closed_by_lem (buffers f) closed o h e = ground (arith, h.0)

module _ (c : Conn) (keys : ℕ → MaskingKey) (n : ℕ) (size : min_writer_size ≤ n)
    (key : (d : ℕ) → IsKey (keys d))
    (drawn : (d : ℕ) → (c.mask_send_frame ≡ false) ⊎ (c.keys d ≡ ok (keys d))) where
  -- The connection after some turns.
  abbrev at_turn : Bool → ℕ → Bytes → Bytes → Conn
  at_turn closed d b s = record c { close_sent = closed; draws = d; out = healthy n b s }

  ready :
      (closed : Bool) (d : ℕ) (b s : Bytes)
      → length b ≤ n
      → IsReady (at_turn closed d b s) (keys d) n b s
  ready closed d b s fits = record {
    out = refl;
    size = size;
    fits = fits;
    key = key d;
    drawn = drawn d;
  }

  -- A turn that passes puts its frame's wire form behind what was written before.
  record Taken (closed : Bool) (st : Bytes) (g : Frame) (r : Step Conn) : Type 0 where
    draw : ℕ
    buf : Bytes
    sent : Bytes
    result : r ≡ returned none (at_turn closed draw buf sent)
    stream : sent ++ buf ≡ st ++ wire g
    fits : length buf ≤ n

  taken :
      (t : Turn) (closed : Bool) (d : ℕ) (b s : Bytes)
      → IsTurn t
      → length b ≤ n
      → passes closed (frame_of t) ≡ true
      → Taken
          (closed_by closed t)
          (s ++ b)
          (sent_frame c.mask_send_frame (keys d) (frame_of t))
          (take_turn t (at_turn closed d b s))
  unfolding take_turn
  taken (sends f) closed d b s h fits pass = record {
    draw = if c.mask_send_frame then d + 1 else d;
    buf = [];
    sent = (s ++ b) ++ wire (sent_frame c.mask_send_frame (keys d) f);
    result =
        ap (λ r. within (λ (x : Frame × Conn). x.1) r)
          (send_frame-wire f (at_turn closed d b s) (keys d) n b s (ready closed d b s fits) h.1
            (passes-validate f closed pass));
    stream = append-nil _;
    fits = omega arith;
  }
  taken (buffers f) closed d b s h fits pass =
      let w =
        buffered_write_frame-wire f (at_turn closed d b s) (keys d) n b s (ready closed d b s fits)
          h.1 (passes-validate f closed pass) in
      record {
        draw = if c.mask_send_frame then d + 1 else d;
        buf = w.0;
        sent = w.1;
        result = ap (λ r. within (λ (x : Frame × Conn). x.1) r) w.2;
        stream = w.3;
        fits = w.4;
      }

  taken-IsSealed :
      (t : Turn) (d : ℕ)
      → IsTurn t
      → IsSealed c.mask_send_frame (frame_of t) (sent_frame c.mask_send_frame (keys d) (frame_of t))
  taken-IsSealed t d h =
      let fields = sent_frame_fields c.mask_send_frame (keys d) (frame_of t) in
      let p = turn_payload t h in
      record {
        same_opcode = fields.1;
        same_payload = fields.0;
        same_fin = sent_frame_fin c.mask_send_frame (keys d) (frame_of t);
        masked_so = fields.3;
        settled =
            sent_frame-IsSettled c.mask_send_frame (keys d) (frame_of t) (key d) p.0
              (IsKnown-lt (frame_of t).opcode (frame_of-IsKnown t h)) p.1;
      }

  -- What a schedule of turns leaves.
  pub record Turns (closed : Bool) (st : Bytes) (fs : Frames) (r : Step Conn) : Type 0 where
    pub frames : Frames
    pub at_end : Bool
    pub draw : ℕ
    pub buf : Bytes
    pub sent : Bytes
    pub result : r ≡ returned none (at_turn at_end draw buf sent)
    pub stream : sent ++ buf ≡ st ++ wires frames
    pub same : AreSealed c.mask_send_frame fs frames
    pub quiet : Quiet closed frames

  passed :
      (t : Turn) (ts : List Turn) (closed : Bool) (d : ℕ) (b s : Bytes)
      → IsTurn t
      → passes closed (frame_of t) ≡ true
      → Taken
          (closed_by closed t)
          (s ++ b)
          (sent_frame c.mask_send_frame (keys d) (frame_of t))
          (take_turn t (at_turn closed d b s))
      → ((d' : ℕ) (b' s' : Bytes)
          → length b' ≤ n
          → Turns
              (closed_by closed t)
              (s' ++ b')
              (passing (closed_by closed t) ts)
              (take_turns ts (at_turn (closed_by closed t) d' b' s')))
      → Turns closed
          (s ++ b)
          (frame_of t ∷ passing (closed_by closed t) ts)
          (next_turn (take_turn t (at_turn closed d b s)) (take_turns ts))
  unfolding wires
  passed t ts closed d b s h pass w others =
      let g = sent_frame c.mask_send_frame (keys d) (frame_of t) in
      let rest = others w.draw w.buf w.sent w.fits in
      let sealed = taken-IsSealed t d h in
      record {
        frames = g ∷ rest.frames;
        at_end = rest.at_end;
        draw = rest.draw;
        buf = rest.buf;
        sent = rest.sent;
        result = ap (λ r. next_turn r (take_turns ts)) w.result ∙ rest.result;
        stream =
            rest.stream
            ∙ ap (λ (x : Bytes). x ++ wires rest.frames) w.stream
            ∙ append_assoc (s ++ b) (wire g) (wires rest.frames);
        same = (sealed, rest.same);
        quiet = (
          passes-quiet (frame_of t) closed g.opcode sealed.same_opcode pass,
          subst (λ (flag : Bool). Quiet flag rest.frames)
              (closed_by_lem t closed g.opcode h sealed.same_opcode) rest.quiet,
        );
      }

  refused :
      (t : Turn) (ts : List Turn) (closed : Bool) (d : ℕ) (b s : Bytes) (e : Error)
      → validate_send_frame (frame_of t) closed ≡ some e
      → Turns closed (s ++ b) (passing closed ts) (take_turns ts (at_turn closed d b s))
      → Turns closed
          (s ++ b)
          (passing closed ts)
          (next_turn (take_turn t (at_turn closed d b s)) (take_turns ts))
  refused t ts closed d b s e invalid rest = record {
    frames = rest.frames;
    at_end = rest.at_end;
    draw = rest.draw;
    buf = rest.buf;
    sent = rest.sent;
    result =
        ap (λ r. next_turn r (take_turns ts)) (refused_turn t (at_turn closed d b s) e invalid)
        ∙ rest.result;
    stream = rest.stream;
    same = rest.same;
    quiet = rest.quiet;
  }

  take_turns-passing :
      (ts : List Turn) (closed : Bool) (d : ℕ) (b s : Bytes)
      → All IsTurn ts
      → length b ≤ n
      → Turns closed (s ++ b) (passing closed ts) (take_turns ts (at_turn closed d b s))
  unfolding take_turns passing wires
  take_turns-passing [] closed d b s h fits = record {
    frames = [];
    at_end = closed;
    draw = d;
    buf = b;
    sent = s;
    result = refl;
    stream = sym (append-nil (s ++ b));
    same = tt;
    quiet = tt;
  }
  take_turns-passing (t ∷ ts) closed d b s h fits = elim (Bool-cases (passes closed (frame_of t))) [
    | inl pass ↦ rw pass (
        passed t ts closed d b s h.0 pass (taken t closed d b s h.0 fits pass)
          (λ d' b' s' fits'. take_turns-passing ts (closed_by closed t) d' b' s' h.1 fits'))
    | inr fail ↦
        let (e, invalid) = fails-validate (frame_of t) closed (frame_of-IsKnown t h.0) fail in
        rw fail (refused t ts closed d b s e invalid (take_turns-passing ts closed d b s h.1 fits))
  ]

-- Whatever turns the senders of a connection take, and in whatever order, on a connection that takes
-- what is written: every call returns, and the stream behind what was written before is the wire forms
-- of the frames of the turns that pass, whole and in the order of the turns, each with its opcode and
-- payload and masked as its side must. What does not pass leaves nothing, and behind a close there is
-- no data frame and no other close.
pub take_turns-wires :
    (c : Conn) (keys : ℕ → MaskingKey) (n : ℕ) (ts : List Turn) (b s : Bytes)
    → min_writer_size ≤ n
    → ((d : ℕ) → IsKey (keys d))
    → ((d : ℕ) → (c.mask_send_frame ≡ false) ⊎ (c.keys d ≡ ok (keys d)))
    → c.out ≡ healthy n b s
    → length b ≤ n
    → All IsTurn ts
    → (gs : Frames) × (closed : Bool) × (d : ℕ) × (b' : Bytes) × (s' : Bytes) × (take_turns ts c
        ≡ returned none (record c { close_sent = closed; draws = d; out = healthy n b' s' }))
      × (s' ++ b' ≡ (s ++ b) ++ wires gs)
      × AreSealed c.mask_send_frame (passing c.close_sent ts) gs
      × Quiet c.close_sent gs
take_turns-wires c keys n ts b s size key drawn o fits h =
    let m = take_turns-passing c keys n size key drawn ts c.close_sent c.draws b s h fits in
    (
      m.frames,
      m.at_end,
      m.draw,
      m.buf,
      m.sent,
      ap (λ (out : Out). take_turns ts (record c { out = out })) o ∙ m.result,
      m.stream,
      m.same,
      m.quiet,
    )
