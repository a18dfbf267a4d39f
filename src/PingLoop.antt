-- ===== src/PingLoop.antt =====
-- Loop.go and ConnectionPingLoop.go: work that is repeated until it signals a stop, and the pings that
-- a connection sends in such a loop.
use wlgows.Base.{
  ℕ, ◌+◌, ◌≤◌, ◌≡◌, ap, Bool, true, false, none, some, List, [], ◌∷◌, ◌++◌, map, length,
  if◌then◌else◌,
}
use wlgows.Base.Bytes.{Bytes, IsBytes}
use wlgows.Opcode.{opcode_ping}
use wlgows.Frame.{Frame, MaskingKey, new_frame}
use wlgows.Read.Laws.{wire}
use wlgows.Step.{Stop, Step, returned, stopped}
use wlgows.Writer.Laws.{healthy}
use wlgows.Conn.{Conn}
use wlgows.Conn.Write.{sent_frame}
use wlgows.Conn.Send.{send_ping}
use wlgows.Conn.Send.Fragments.{over}

-- A loop that has ended, one that sleeps behind the last tick of the script, and one whose work has
-- not returned.
pub data Looping {ℓ} (S : Type ℓ) : Type ℓ where
  ended : S → Looping S
  sleeping : S → Looping S
  stuck : Stop → Looping S

-- The work of one tick, whether it signalled a stop, and what others do in the sleep: whether one that
-- the work has handed the channel to signals a stop, and what becomes of the state.
pub record Tick {ℓ} (S : Type ℓ) : Type ℓ where
  pub trigger : S → Step (Bool × S)
  pub asleep : S → Bool × S

-- The select behind the trigger.
abbrev pub unless_signalled {ℓ} : {S : Type ℓ} → Step (Bool × S) → (S → Looping S) → Looping S
unless_signalled (returned e (true, s)) rest = ended s
unless_signalled (returned e (false, s)) rest = rest s
unless_signalled (stopped x) rest = stuck x

-- The loop from the select before a trigger on: is a stop in the channel there?
unfoldable pub loop_from {ℓ} : {S : Type ℓ} → Bool → List (Tick S) → S → Looping S
loop_from true ticks s = ended s
loop_from false [] s = sleeping s
loop_from false (t ∷ ticks) s =
    unless_signalled (t.trigger s)
      (λ s'. let (stop_signal, s'') = t.asleep s' in loop_from stop_signal ticks s'')

-- The channel is made empty.
unfoldable pub loop {ℓ} : {S : Type ℓ} → List (Tick S) → S → Looping S
unfolding loop_from
loop = loop_from false

-- if err := di.sendPing(payloadData); err != nil { stop_signal <- struct{}{} }
unfoldable pub stop_on_error : Step Conn → Step (Bool × Conn)
stop_on_error (returned none c) = returned none (false, c)
stop_on_error (returned (some e) c) = returned none (true, c)
stop_on_error (stopped x) = stopped x

-- if closeSent { stop_signal <- struct{}{}; return }
unfoldable pub ping_unless : Bool → Bytes → Conn → Step (Bool × Conn)
unfolding stop_on_error
ping_unless true payload_data c = returned none (true, c)
ping_unless false payload_data c = stop_on_error (send_ping payload_data c)

-- `payload` is what the caller's function gives for this ping; without one it is empty.
unfoldable pub ping_once : Bytes → Conn → Step (Bool × Conn)
unfolding ping_unless
ping_once payload_data c = ping_unless c.close_sent payload_data c

-- The channel stays with the trigger, so nothing signals in the sleep.
abbrev ping_tick : Bytes × (Conn → Conn) → Tick Conn
ping_tick t = record { trigger = ping_once t.0; asleep = λ c. (false, t.1 c) }

unfoldable pub start_ping_loop : List (Bytes × (Conn → Conn)) → Conn → Looping Conn
unfolding loop
start_ping_loop ticks c = loop (map ping_tick ticks) c

-- A tick's ping.
abbrev pub ping_frame : Bytes → Frame
ping_frame p = new_frame (record { payload_data = p; opcode = opcode_ping; fin = true })

-- A ping loop ends at its next tick, with nothing written, once a close is on record, whoever sent
-- it and whatever ticks were to come.
pub start_ping_loop_closed :
    (p : Bytes) (asleep : Conn → Conn) (ticks : List (Bytes × (Conn → Conn))) (c : Conn)
    → c.close_sent ≡ true
    → start_ping_loop ((p, asleep) ∷ ticks) c ≡ ended c
unfolding start_ping_loop ping_once
start_ping_loop_closed p asleep ticks c closed =
    ap (λ b. unless_signalled (ping_unless b p c) (λ s. start_ping_loop ticks (asleep s))) closed

-- One tick as others see it: its payload, what they do to the connection while the loop sleeps, how
-- many keys they draw and which bytes they send.
pub record Beat : Type 0 where
  pub payload : Bytes
  pub others : Conn → Conn
  pub drawn : ℕ
  pub sent : Bytes

abbrev pub script : Beat → Bytes × (Conn → Conn)
script t = (t.payload, t.others)

-- A payload that a ping may have, and others that use the connection as its senders do, whatever was
-- drawn and sent before, and send no close.
abbrev pub IsBeat : Conn → ℕ → Beat → Type 0
IsBeat c n t =
    IsBytes t.payload
    × (length t.payload ≤ 125)
    × ((d : ℕ) (s : Bytes)
        → t.others (over c d (healthy n [] s)) ≡ over c (d + t.drawn) (healthy n [] (s ++ t.sent)))

-- The stream of the loop: a ping for each tick, with the key that is next where the side masks, and
-- behind it what the others send before the next.
abbrev pub beats : Bool → (ℕ → MaskingKey) → ℕ → List Beat → Bytes
beats m keys d [] = []
beats m keys d (t ∷ ts) =
    wire (sent_frame m (keys d) (ping_frame t.payload))
    ++ t.sent
    ++ beats m keys ((if m then d + 1 else d) + t.drawn) ts
