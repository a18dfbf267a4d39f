-- ===== src/Conn/Send/Closed.antt =====
-- The sends of a message, once a close has gone out.
use wlgows.Base.{
  ℕ, suc, ◌≡◌, refl, ap, sym, ◌∙◌, Bool, true, false, ◌||◌, Option, some, [], ◌∷◌, arith, length,
  take, leb, ◌==◌, Bool-cases, inl, inr,
}
use wlgows.Base.Bytes.{Bytes}
use wlgows.Errors.{Error, ok, sentinel, close_already_sent}
use wlgows.Frame.{Frame, NewFrameConfig, new_frame}
use wlgows.Control.{new_data_frame}
use wlgows.Opcode.{is_data_opcode}
use wlgows.Step.{returned, ◌>>=◌, within}
use wlgows.Conn.{Conn, validate_send_frame, buffered_write_frame, send_frame}
use wlgows.Conn.Send.Shape.{
  IsMsgOpcode, with_lock, msg_opcode-data, msg_opcode-new, new_data_frame_lem, send_data_lem,
}
use wlgows.Conn.Send.{
  send_built, chunks_from, send_chunks, send_data, flush_conn, transmit_opcode,
  start_long_data_transmission, transmit_data, end_long_data_transmission,
}

abbrev refused : Option Error
refused = some (sentinel close_already_sent)

validate_send_frame_closed :
    (f : Frame) (c : Conn)
    → c.close_sent ≡ true
    → is_data_opcode f.opcode ≡ true
    → validate_send_frame f c.close_sent ≡ refused
unfolding validate_send_frame
validate_send_frame_closed f c closed d = rw (closed, d)

buffered_write_frame_closed :
    (f : Frame) (c : Conn)
    → c.close_sent ≡ true
    → is_data_opcode f.opcode ≡ true
    → buffered_write_frame f c ≡ returned refused (f, c)
unfolding buffered_write_frame
buffered_write_frame_closed f c closed d = rw (validate_send_frame_closed f c closed d)

send_built_closed :
    (f : Frame) (c : Conn)
    → c.close_sent ≡ true
    → is_data_opcode f.opcode ≡ true
    → send_built (ok f) c ≡ returned refused c
unfolding send_built send_frame
send_built_closed f c closed d = rw (buffered_write_frame_closed f c closed d)

send_chunks_closed :
    (fuel : ℕ) (f : Frame) (p : Bytes) (chunk_size : ℕ) (c : Conn)
    → c.close_sent ≡ true
    → is_data_opcode f.opcode ≡ true
    → send_chunks (suc fuel) f p chunk_size c ≡ returned refused c
unfolding send_chunks chunks_from
send_chunks_closed fuel f p chunk_size c closed d =
    elim (Bool-cases (chunk_size == 0 || leb (length p) chunk_size)) [
      | inl whole ↦ simp (
        whole,
        buffered_write_frame_closed (record f { fin = true; payload_data = p }) c closed d,
      )
      | inr part ↦ simp (
        part,
        buffered_write_frame_closed (record f { fin = false; payload_data = take chunk_size p }) c
            closed d,
      )
    ]

new_frame_data :
    (opcode : ℕ)
    → IsMsgOpcode opcode
    → is_data_opcode (new_frame (record { opcode = opcode; payload_data = []; fin = false })).opcode
      ≡ true
unfolding new_frame
new_frame_data opcode kind = msg_opcode-data opcode kind

send_data_closed :
    (opcode : ℕ) (p : Bytes) (chunk_size : ℕ) (c : Conn)
    → IsMsgOpcode opcode
    → c.close_sent ≡ true
    → c.data_frames_locked ≡ false
    → send_data opcode p chunk_size c ≡ returned refused c
send_data_closed opcode p chunk_size c kind closed unlocked =
    send_data_lem opcode p chunk_size c kind unlocked
    ∙ ap (λ r. within (with_lock false) (r >>= flush_conn))
        (send_chunks_closed (length p)
          (new_frame (record { opcode = opcode; payload_data = []; fin = false })) p chunk_size
          (with_lock true c) closed (new_frame_data opcode kind))
    ∙ ap (λ b. returned refused (with_lock b c)) (sym unlocked)

start_closed :
    (opcode : ℕ) (c : Conn)
    → IsMsgOpcode opcode
    → c.close_sent ≡ true
    → start_long_data_transmission opcode c ≡ returned refused c
unfolding start_long_data_transmission
start_closed opcode c kind closed =
    rw (msg_opcode-new opcode kind, msg_opcode-data opcode kind, closed)

data_continuation : is_data_opcode 0 ≡ true
unfolding is_data_opcode
data_continuation = refl

transmit_opcode-data :
    (c : Conn)
    → IsMsgOpcode c.current_transmit_data_msg_opcode
    → is_data_opcode (transmit_opcode c) ≡ true
unfolding transmit_opcode
transmit_opcode-data c kind = elim (Bool-cases c.current_transmit_data_msg_opened) [
  | inl opened ↦ simp opened data_continuation
  | inr fresh ↦ simp fresh (msg_opcode-data c.current_transmit_data_msg_opcode kind)
]

-- Once a close has gone out, no message can be begun: where no message holds the lock, SendData and
-- StartLongDataTransmission of a text or binary message return ErrCloseAlreadySent, and leave the
-- connection as it was, unlocked and with nothing written or buffered.
pub close_ends_messages :
    (c : Conn) (opcode : ℕ) (p : Bytes) (chunk_size : ℕ)
    → c.close_sent ≡ true
    → c.data_frames_locked ≡ false
    → IsMsgOpcode opcode
    → (send_data opcode p chunk_size c ≡ returned (some (sentinel close_already_sent)) c)
      × (start_long_data_transmission opcode c ≡ returned (some (sentinel close_already_sent)) c)
close_ends_messages c opcode p chunk_size closed unlocked kind =
    (send_data_closed opcode p chunk_size c kind closed unlocked, start_closed opcode c kind closed)

new_fragment_closed :
    (c : Conn) (d : Bytes) (fin : Bool)
    → c.close_sent ≡ true
    → IsMsgOpcode c.current_transmit_data_msg_opcode
    → send_built
        (new_data_frame (record { opcode = transmit_opcode c; payload_data = d; fin = fin }))
        c
      ≡ returned refused c
unfolding new_frame
new_fragment_closed c d fin closed kind =
    let config : NewFrameConfig = record {
      opcode = transmit_opcode c;
      payload_data = d;
      fin = fin;
    } in
    ap (λ r. send_built r c) (new_data_frame_lem config (transmit_opcode-data c kind))
    ∙ send_built_closed (new_frame config) c closed (transmit_opcode-data c kind)

-- Nor can one that is being transmitted go on: behind a close, a piece with bytes in it and the end
-- are refused with ErrCloseAlreadySent, and the connection is left as it was.
pub close_ends_transmission :
    (c : Conn) (b : ℕ) (d last : Bytes)
    → c.close_sent ≡ true
    → IsMsgOpcode c.current_transmit_data_msg_opcode
    → (transmit_data (b ∷ d) c ≡ returned (some (sentinel close_already_sent)) c)
      × (end_long_data_transmission last c ≡ returned (some (sentinel close_already_sent)) c)
unfolding transmit_data end_long_data_transmission
close_ends_transmission c b d last closed kind =
    let begun = msg_opcode-new c.current_transmit_data_msg_opcode kind in
    let full : (length (b ∷ d) == 0) ≡ false = ground arith in
    (
      rw (begun, full, new_fragment_closed c (b ∷ d) false closed kind),
      rw (begun, new_fragment_closed c last true closed kind),
    )
