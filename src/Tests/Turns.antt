-- ===== src/Tests/Turns.antt =====
-- Senders that take turns at a client's connection, and the theorem at them.
use wlgows.Base.{ℕ, ◌≡◌, refl, Bool, true, false, none, List, [], ◌∷◌, ◌++◌, arith, inl, inr, All}
use wlgows.Base.Bytes.{Bytes}
use wlgows.Errors.{ok, eof}
use wlgows.Opcode.{is_control_opcode, is_data_opcode}
use wlgows.Frame.{Frame, zero_frame}
use wlgows.Message.{Frames}
use wlgows.Step.{returned}
use wlgows.Writer.Laws.{healthy}
use wlgows.Conn.{Conn, conn_over}
use wlgows.Conn.Send.Fragments.{wires}
use wlgows.Conn.Turns.{Turn, sends, buffers, take_turns, passing, IsTurn, AreSealed, Quiet}
use wlgows.Conn.Turns.Order.{take_turns-wires}
use wlgows.Tests.Data.{key, key-IsKey}

abbrev client : Conn
client =
    conn_over (record { pending = []; ending = eof }) true (λ _. ok key) (healthy 16 (1 ∷ []) [])

abbrev frame : ℕ → Bool → Bytes → Frame
frame opcode fin p = record zero_frame { opcode = opcode; fin = fin; payload_data = p }

-- A ping between the frames of a message, a close before its end, and a pong behind the close.
abbrev turns : List Turn
turns =
    buffers (frame 1 false (0x48 ∷ []))
    ∷ sends (frame 9 true [])
    ∷ buffers (frame 0 false (0x49 ∷ []))
    ∷ sends (frame 8 true [])
    ∷ buffers (frame 0 true (0x4A ∷ []))
    ∷ sends (frame 8 true [])
    ∷ sends (frame 10 true (7 ∷ []))
    ∷ []

turns-IsTurn : All IsTurn turns
unfolding is_control_opcode is_data_opcode
turns-IsTurn = (
  (refl, omega arith, omega arith),
  (
    (inl refl, tt, omega arith),
    (
      (refl, omega arith, omega arith),
      (
        (inl refl, tt, omega arith),
        (
          (refl, omega arith, omega arith),
          ((inl refl, tt, omega arith), ((inl refl, omega arith, omega arith), tt)),
        ),
      ),
    ),
  ),
)

what_passes :
    passing false turns
    ≡ frame 1 false (0x48 ∷ [])
      ∷ frame 9 true []
      ∷ frame 0 false (0x49 ∷ [])
      ∷ frame 8 true []
      ∷ frame 10 true (7 ∷ [])
      ∷ []
unfolding passing is_control_opcode is_data_opcode
what_passes = refl

take_turns-wires_example :
    (gs : Frames) × (closed : Bool) × (d : ℕ) × (b' : Bytes) × (s' : Bytes) × (take_turns turns
        client
      ≡ returned none (record client { close_sent = closed; draws = d; out = healthy 16 b' s' }))
    × (s' ++ b' ≡ ([] ++ 1 ∷ []) ++ wires gs)
    × AreSealed true (passing false turns) gs
    × Quiet false gs
take_turns-wires_example =
    take_turns-wires client (λ _. key) 16 turns (1 ∷ []) [] (omega arith) (λ _. key-IsKey)
      (λ _. inr refl) refl (omega arith) turns-IsTurn
