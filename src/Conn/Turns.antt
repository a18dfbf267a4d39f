-- ===== src/Conn/Turns.antt =====
-- ConnectionWrite.go under writeLocker: the senders of a connection take turns, a turn being what one of
-- them does while it holds the lock, and any schedule of turns may come about.
pub mod Order
use wlgows.Base.{
  ℕ, ◌+◌, ◌≤◌, ◌<◌, ◌≡◌, ◌⊎◌, refl, ap, ap₂, sym, subst, ◌∙◌, Bool, true, false, not, ◌&&◌, ◌||◌,
  Option, none, some, List, [], ◌∷◌, ◌++◌, arith, length, append_assoc, append-nil, leb, ◌==◌,
  if◌then◌else◌, Bool-cases, Option-cases, inl, inr, All,
}
use wlgows.Base.Bytes.{Bytes, IsBytes}
use wlgows.Errors.{Error, ok}
use wlgows.Opcode.{is_data_opcode, is_control_opcode, opcode_close}
use wlgows.Frame.{Frame, MaskingKey, fill_payload_length}
use wlgows.Frame.Mask.Laws.{IsKey}
use wlgows.Message.{Frames}
use wlgows.Read.{max_alloc}
use wlgows.Read.Laws.{wire, IsSettled}
use wlgows.Step.{Step, returned, stopped, within}
use wlgows.Writer.{Out}
use wlgows.Writer.Laws.{healthy}
use wlgows.Conn.{
  Conn, min_writer_size, validate_send_frame, settle_fields, buffered_write_frame, send_frame,
}
use wlgows.Conn.Write.{
  sent_frame, sent_frame_fields, sent_frame-IsSettled, IsReady, buffered_write_frame-wire,
  send_frame-wire,
}
use wlgows.Conn.Send.Fragments.{wires}

-- A control frame or a piece of a transmission is sent at once; SendData buffers a frame at a turn.
pub data Turn : Type 0 where
  sends : Frame → Turn
  buffers : Frame → Turn

abbrev pub frame_of : Turn → Frame
frame_of (sends f) = f
frame_of (buffers f) = f

unfoldable pub take_turn : Turn → Conn → Step Conn
take_turn (sends f) c = within (λ (s : Frame × Conn). s.1) (send_frame f c)
take_turn (buffers f) c = within (λ (s : Frame × Conn). s.1) (buffered_write_frame f c)

-- An error is its own sender's; the others go on.
abbrev pub next_turn : Step Conn → (Conn → Step Conn) → Step Conn
next_turn (returned e c) rest = rest c
next_turn (stopped x) rest = stopped x

unfoldable pub take_turns : List Turn → Conn → Step Conn
unfolding take_turn
take_turns [] c = returned none c
take_turns (t ∷ ts) c = next_turn (take_turn t c) (take_turns ts)

-- RFC 6455 5.5: a control frame has at most 125 bytes; 5.5.1: behind a close there is no data frame
-- and no other close.
abbrev pub passes : Bool → Frame → Bool
passes closed f =
    if is_control_opcode f.opcode
    then leb (length f.payload_data) 125 && not (closed && f.opcode == opcode_close)
    else not closed

abbrev pub closed_by : Bool → Turn → Bool
closed_by closed (sends f) = f.opcode == opcode_close || closed
closed_by closed (buffers f) = closed

-- The frames of the turns that pass, in the order of the turns.
unfoldable pub passing : Bool → List Turn → Frames
passing closed [] = []
passing closed (t ∷ ts) =
    let rest = passing (closed_by closed t) ts in
    let without = passing closed ts in
    if passes closed (frame_of t) then frame_of t ∷ rest else without

-- Of what this package builds: control frames and data frames, and SendData only data frames.
abbrev pub IsTurn : Turn → Type 0
IsTurn (sends f) =
    ((is_control_opcode f.opcode ≡ true) ⊎ (is_data_opcode f.opcode ≡ true))
    × IsBytes f.payload_data
    × (length f.payload_data ≤ max_alloc)
IsTurn (buffers f) =
    (is_data_opcode f.opcode ≡ true) × IsBytes f.payload_data × (length f.payload_data ≤ max_alloc)

-- The frame as it goes out.
pub record IsSealed (masked : Bool) (f g : Frame) : Type 0 where
  pub same_opcode : g.opcode ≡ f.opcode
  pub same_payload : g.payload_data ≡ f.payload_data
  pub same_fin : g.fin ≡ (if is_control_opcode f.opcode then true else f.fin)
  pub masked_so : g.mask ≡ masked
  pub settled : IsSettled g

abbrev pub AreSealed : Bool → Frames → Frames → Type 0
AreSealed masked [] [] = Unit {0}
AreSealed masked (f ∷ fs) (g ∷ gs) = IsSealed masked f g × AreSealed masked fs gs
AreSealed masked [] (g ∷ gs) = ⊥
AreSealed masked (f ∷ fs) [] = ⊥

-- No data frame and no close behind a close.
abbrev pub Quiet : Bool → Frames → Type 0
Quiet closed [] = Unit {0}
Quiet closed (g ∷ gs) =
    ((closed ≡ false)
      ⊎ ((is_control_opcode g.opcode ≡ true) × ((g.opcode == opcode_close) ≡ false)))
    × Quiet (g.opcode == opcode_close || closed) gs
