-- ===== src/Conn/Send.antt =====
-- ConnectionControlFrame.go, ConnectionDataFrame.go, ConnectionLongDataTransmission.go: the calls that
-- send a control frame, a message, or a message piece by piece.
pub mod Shape
pub mod Closed
pub mod Fragments
pub mod Chunks
pub mod Data
pub mod Transmission
use wlgows.Base.{
  ℕ, zero, suc, Bool, true, false, not, ◌&&◌, Option, none, some, List, [], ◌∷◌, ltb, leb, ◌==◌,
  ◌||◌, length, take, drop, if◌then◌else◌,
}
use wlgows.Base.Bytes.{Bytes}
use wlgows.Errors.{
  Error, Result, ok, err, sentinel, continuation_frame_without_msg, not_data_frame_opcode,
  close_already_sent, invalid_utf8, long_data_transmission_not_started,
}
use wlgows.Opcode.{
  is_data_opcode, opcode_continuation, opcode_text, opcode_binary, opcode_close, opcode_ping,
  opcode_pong,
}
use wlgows.Frame.{Frame, NewFrameConfig}
use wlgows.Control.{ClosePayload, close_payload_bytes, new_control_frame, new_data_frame}
use wlgows.Utf8.{utf8_valid}
use wlgows.Step.{Step, blocked, endless, fatal, returned, stopped, ◌>>=◌, within}
use wlgows.Writer.{flush}
use wlgows.Conn.{Conn, buffered_write_frame, send_frame}

-- `f, err := …; if err != nil { return err }; return di.SendFrame(f)`, the frame let go afterwards
unfoldable pub send_built : Result Frame → Conn → Step Conn
unfolding send_frame
send_built (err e) c = returned (some e) c
send_built (ok f) c = within (λ (s : Frame × Conn). s.1) (send_frame f c)

unfoldable pub send_close : Option ClosePayload → Conn → Step Conn
unfolding send_built
send_close payload c =
    send_built
      (new_control_frame
        (record { opcode = opcode_close; payload_data = close_payload_bytes payload }))
      c

unfoldable pub send_ping : Bytes → Conn → Step Conn
unfolding send_built
send_ping payload_data c =
    send_built (new_control_frame (record { opcode = opcode_ping; payload_data = payload_data })) c

unfoldable pub send_pong : Bytes → Conn → Step Conn
unfolding send_built
send_pong payload_data c =
    send_built (new_control_frame (record { opcode = opcode_pong; payload_data = payload_data })) c

-- A frame that went out is followed by the rest; `return err` otherwise.
unfoldable pub chunks_from : Step (Frame × Conn) → (Frame → Conn → Step Conn) → Step Conn
chunks_from (returned none s) rest = rest s.0 s.1
chunks_from (returned (some e) s) rest = returned (some e) s.1
chunks_from (stopped x) rest = stopped x

-- One frame for every chunk. The fuel bounds the chunks; a chunk size of 0 stands for any that is
-- 0 or less.
unfoldable pub send_chunks : ℕ → Frame → Bytes → ℕ → Conn → Step Conn
unfolding chunks_from
send_chunks zero f payload chunk_size c = stopped endless
send_chunks (suc fuel) f payload chunk_size c =
    let fin = chunk_size == 0 || leb (length payload) chunk_size in
    let rest = λ (g : Frame) (c' : Conn).
      send_chunks fuel (record g { opcode = opcode_continuation }) (drop chunk_size payload)
        chunk_size c' in
    if fin
    then chunks_from (buffered_write_frame (record f { fin = true; payload_data = payload }) c)
        (λ _ c'. returned none c')
    else chunks_from
        (buffered_write_frame (record f { fin = false; payload_data = take chunk_size payload }) c)
        rest

-- c.writer.Flush()
unfoldable pub flush_conn : Conn → Step Conn
flush_conn c = within (λ o. record c { out = o }) (flush c.out)

-- `dataFramesWriteLocker.Lock(); defer Unlock()` around a body
unfoldable pub with_data_lock : (Conn → Step Conn) → Conn → Step Conn
with_data_lock body c =
    if c.data_frames_locked
    then stopped blocked
    else within (λ (c' : Conn). record c' { data_frames_locked = false })
        (body (record c { data_frames_locked = true }))

-- A chunk holds a byte at least, so a frame a byte is enough fuel.
unfoldable pub send_frames : Result Frame → Bytes → ℕ → Conn → Step Conn
unfolding send_chunks flush_conn
send_frames (err e) payload chunk_size c = returned (some e) c
send_frames (ok f) payload chunk_size c =
    send_chunks (suc (length payload)) f payload chunk_size c >>= flush_conn

unfoldable pub send_data : ℕ → Bytes → ℕ → Conn → Step Conn
unfolding with_data_lock send_frames
send_data opcode payload chunk_size c =
    if opcode == opcode_continuation
    then returned (some (sentinel continuation_frame_without_msg)) c
    else with_data_lock
        (send_frames (new_data_frame (record { opcode = opcode; payload_data = []; fin = false }))
          payload chunk_size)
        c

unfoldable pub send_text : Bytes → ℕ → Conn → Step Conn
unfolding send_data
send_text text chunk_size c =
    if not (utf8_valid text)
    then returned (some (sentinel invalid_utf8)) c
    else send_data opcode_text text chunk_size c

unfoldable pub send_binary : Bytes → ℕ → Conn → Step Conn
unfolding send_data
send_binary d chunk_size c = send_data opcode_binary d chunk_size c

-- Start leaves dataFramesWriteLocker locked; Release unlocks it.
unfoldable pub start_long_data_transmission : ℕ → Conn → Step Conn
start_long_data_transmission opcode c =
    if opcode == opcode_continuation
    then returned (some (sentinel continuation_frame_without_msg)) c
    else if not (is_data_opcode opcode)
    then returned (some (sentinel not_data_frame_opcode)) c
    else if c.close_sent
    then returned (some (sentinel close_already_sent)) c
    else if c.data_frames_locked
    then stopped blocked
    else returned none
        (record c { data_frames_locked = true; current_transmit_data_msg_opcode = opcode })

-- The opcode of the next frame of the message that is being transmitted.
unfoldable pub transmit_opcode : Conn → ℕ
transmit_opcode c =
    if c.current_transmit_data_msg_opened
    then opcode_continuation
    else c.current_transmit_data_msg_opcode

unfoldable pub transmit_data : Bytes → Conn → Step Conn
unfolding send_built transmit_opcode
transmit_data d c =
    if c.current_transmit_data_msg_opcode == 0
    then returned (some (sentinel long_data_transmission_not_started)) c
    else if length d == 0
    then returned none c
    else send_built
        (new_data_frame (record { opcode = transmit_opcode c; payload_data = d; fin = false })) c
      >>= λ c'. returned none (record c' { current_transmit_data_msg_opened = true })

unfoldable pub end_long_data_transmission : Bytes → Conn → Step Conn
unfolding send_built transmit_opcode
end_long_data_transmission d c =
    if c.current_transmit_data_msg_opcode == 0
    then returned (some (sentinel long_data_transmission_not_started)) c
    else send_built
        (new_data_frame (record { opcode = transmit_opcode c; payload_data = d; fin = true })) c

-- Unlocking a lock that is not locked ends the process.
unfoldable pub release_long_data_transmission : Conn → Step Conn
release_long_data_transmission c =
    if c.data_frames_locked
    then returned none (record c {
      current_transmit_data_msg_opcode = 0;
      current_transmit_data_msg_opened = false;
      data_frames_locked = false;
    })
    else stopped fatal
