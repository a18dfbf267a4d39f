-- ===== src/Conn/Send/Shape.antt =====
-- What SendData and a long transmission come to for the opcode of a message, where no lock is held.
use wlgows.Base.{ℕ, suc, ◌≡◌, ◌⊎◌, Bool, true, false, [], arith, length, ◌==◌, inl, inr}
use wlgows.Base.Bytes.{Bytes}
use wlgows.Errors.{ok}
use wlgows.Frame.{NewFrameConfig, new_frame}
use wlgows.Control.{new_data_frame}
use wlgows.Opcode.{is_data_opcode, opcode_text, opcode_binary}
use wlgows.Step.{◌>>=◌, within}
use wlgows.Conn.{Conn}
use wlgows.Conn.Send.{send_chunks, send_frames, with_data_lock, flush_conn, send_data}

-- The opcode of a message: text or binary.
abbrev pub IsMsgOpcode : ℕ → Type 0
IsMsgOpcode opcode = (opcode ≡ opcode_text) ⊎ (opcode ≡ opcode_binary)

-- dataFramesWriteLocker, taken and let go.
abbrev pub with_lock : Bool → Conn → Conn
with_lock locked c = record c { data_frames_locked = locked }

pub new_data_frame_lem :
    (config : NewFrameConfig)
    → is_data_opcode config.opcode ≡ true
    → new_data_frame config ≡ ok (new_frame config)
unfolding new_data_frame
new_data_frame_lem config d = rw d

pub msg_opcode-data : (opcode : ℕ) → IsMsgOpcode opcode → is_data_opcode opcode ≡ true
unfolding is_data_opcode
msg_opcode-data opcode (inl text) = ground arith
msg_opcode-data opcode (inr binary) = ground arith

pub msg_opcode-new : (opcode : ℕ) → IsMsgOpcode opcode → (opcode == 0) ≡ false
msg_opcode-new opcode (inl text) = ground arith
msg_opcode-new opcode (inr binary) = ground arith

pub send_data_lem :
    (opcode : ℕ) (p : Bytes) (chunk_size : ℕ) (c : Conn)
    → IsMsgOpcode opcode
    → c.data_frames_locked ≡ false
    → send_data opcode p chunk_size c
      ≡ within (with_lock false) (
          send_chunks
            (suc (length p))
            (new_frame (record { opcode = opcode; payload_data = []; fin = false }))
            p
            chunk_size
            (with_lock true c)
          >>= flush_conn)
unfolding send_data with_data_lock send_frames
send_data_lem opcode p chunk_size c kind unlocked = rw (
  msg_opcode-new opcode kind,
  unlocked,
  new_data_frame_lem (record { opcode = opcode; payload_data = []; fin = false })
      (msg_opcode-data opcode kind),
)
