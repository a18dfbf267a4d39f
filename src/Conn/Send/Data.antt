-- ===== src/Conn/Send/Data.antt =====
-- SendData as a whole: the lock, the frames, the flush.
use wlgows.Base.{
  ℕ, suc, ◌≤◌, ◌≡◌, ap, subst, sym, ◌∙◌, true, false, none, [], ◌++◌, arith, length, All,
}
use wlgows.Base.Bytes.{Bytes, IsBytes}
use wlgows.Frame.{MaskingKey, new_frame}
use wlgows.Message.{Frames}
use wlgows.Message.Laws.{payload}
use wlgows.Listener.Run.Delivery.{IsMessage}
use wlgows.Read.{max_alloc}
use wlgows.Step.{Step, returned, ◌>>=◌, within}
use wlgows.Writer.Laws.{healthy, flush-healthy}
use wlgows.Conn.{Conn}
use wlgows.Conn.Send.{send_chunks, flush_conn, send_data}
use wlgows.Conn.Send.Shape.{IsMsgOpcode, with_lock, send_data_lem}
use wlgows.Conn.Send.Fragments.{
  wires, over, IsSent, SendsMessage, CanSend, new-IsFragment, new_frame_opcode,
}
use wlgows.Conn.Send.Chunks.{send_chunks-healthy}

-- A message that is sent in frames and flushed: all of it has gone out.
flush_message :
    (c : Conn) (n : ℕ) (st : Bytes) (opcode : ℕ) (p : Bytes) (r : Step Conn)
    (h : SendsMessage c n st opcode p r)
    → (r >>= flush_conn) ≡ returned none (over c h.drawn (healthy n [] (st ++ wires h.frames)))
unfolding flush_conn
flush_message c n st opcode p r h = rw (h.result, flush-healthy n h.buf h.sent, h.stream)

-- On a connection that takes what is written, SendData of a text or binary message succeeds, for
-- any chunk size and any buffer of 14 bytes or more. What it adds to the wire is the wire forms of
-- frames that are one message of that opcode, FIN on the last only, whose payloads join to exactly
-- what was passed; each has fields that agree, no reserved bit, and the mask of its side. Nothing
-- is left in the buffer, and the lock of the data frames is let go.
pub send_data-wires :
    (c : Conn) (keys : ℕ → MaskingKey) (n : ℕ) (opcode : ℕ) (p : Bytes) (chunk_size : ℕ)
    (b s : Bytes)
    → CanSend c keys n
    → c.out ≡ healthy n b s
    → length b ≤ n
    → c.data_frames_locked ≡ false
    → IsMsgOpcode opcode
    → IsBytes p
    → length p ≤ max_alloc
    → (fs : Frames) × (draws : ℕ) × (send_data opcode p chunk_size c
        ≡ returned none (record c { draws = draws; out = healthy n [] ((s ++ b) ++ wires fs) }))
      × IsMessage opcode fs
      × (payload fs ≡ p)
      × (length fs ≤ suc (length p))
      × All (IsSent c.mask_send_frame) fs
send_data-wires c keys n opcode p chunk_size b s can o fits unlocked kind hp len =
    let f = new_frame (record { opcode = opcode; payload_data = []; fin = false }) in
    let locked = with_lock true (over c c.draws (healthy n b s)) in
    let m =
      send_chunks-healthy locked keys n
        (record { key = can.key; drawn = can.drawn; size = can.size; unclosed = can.unclosed })
        (suc (length p)) f p chunk_size c.draws b s (new-IsFragment opcode kind) hp len
        (omega arith) fits in
    (
      m.frames,
      m.drawn,
      send_data_lem opcode p chunk_size c kind unlocked
          ∙ ap
              (λ o'.
                within (with_lock false) (sent_in_chunks (record (with_lock true c) { out = o' })))
              o
          ∙ ap (λ r. within (with_lock false) r)
              (flush_message locked n (s ++ b) f.opcode p
                (send_chunks (suc (length p)) f p chunk_size locked) m)
          ∙ ap
              (λ lock.
                returned none
                  (with_lock lock (over c m.drawn (healthy n [] ((s ++ b) ++ wires m.frames)))))
              (sym unlocked),
      subst (λ op. IsMessage op m.frames) (new_frame_opcode opcode) m.shape,
      m.whole,
      m.count,
      m.each,
    )
  where
    sent_in_chunks : Conn → Step Conn
    sent_in_chunks c' =
        send_chunks (suc (length p))
          (new_frame (record { opcode = opcode; payload_data = []; fin = false })) p chunk_size c'
        >>= flush_conn
