-- ===== src/Conn/Send/Fragments.antt =====
-- The frames of a message that SendData writes, before and behind a send.
use wlgows.Base.{
  ℕ, suc, ◌≤◌, ◌<◌, ◌≡◌, ◌⊎◌, refl, ◌∙◌, Bool, true, false, none, [], ◌∷◌, ◌++◌, arith, length, All,
}
use wlgows.Base.Bytes.{Bytes}
use wlgows.Errors.{ok}
use wlgows.Frame.{Frame, MaskingKey, fill_payload_length, new_frame}
use wlgows.Frame.Mask.Laws.{IsKey}
use wlgows.Message.{Frames}
use wlgows.Message.Laws.{payload}
use wlgows.Opcode.{is_data_opcode, is_control_opcode}
use wlgows.Listener.Rules.{IsUnreserved}
use wlgows.Listener.Run.Delivery.{IsClean, IsMessage}
use wlgows.Read.Laws.{wire, IsSettled}
use wlgows.Step.{Step, returned}
use wlgows.Writer.{Out}
use wlgows.Writer.Laws.{healthy}
use wlgows.Conn.{Conn, min_writer_size, validate_send_frame, settle_fields}
use wlgows.Conn.Write.{sent_frame}
use wlgows.Conn.Send.Shape.{IsMsgOpcode, msg_opcode-data}

-- The wire forms of the frames, one after the other.
unfoldable pub wires : Frames → Bytes
wires [] = []
wires (f ∷ fs) = wire f ++ wires fs

-- The connection with another writer state, and so many keys drawn.
abbrev pub over : Conn → ℕ → Out → Conn
over c draws o = record c { draws = draws; out = o }

-- A frame as the other side has to have it: fields that agree, masked exactly by a client.
abbrev pub IsSent : Bool → Frame → Type 0
IsSent masked f = IsSettled f × IsClean masked f

-- The call succeeds, and what it added to the stream is one message of `opcode` with the payload.
pub record SendsMessage (c : Conn) (n : ℕ) (st : Bytes) (opcode : ℕ) (p : Bytes) (r : Step Conn)
    : Type 0 where
  pub frames : Frames
  pub buf : Bytes
  pub sent : Bytes
  pub drawn : ℕ
  pub result : r ≡ returned none (over c drawn (healthy n buf sent))
  pub stream : sent ++ buf ≡ st ++ wires frames
  pub shape : IsMessage opcode frames
  pub whole : payload frames ≡ p
  pub count : length frames ≤ suc (length p)
  pub each : All (IsSent c.mask_send_frame) frames

pub validate_send_frame_open :
    (f : Frame) (close_sent : Bool)
    → close_sent ≡ false
    → is_data_opcode f.opcode ≡ true
    → validate_send_frame f close_sent ≡ none
unfolding validate_send_frame is_data_opcode is_control_opcode
validate_send_frame_open f close_sent e d = ground arith

pub data_opcode-lt : (opcode : ℕ) → is_data_opcode opcode ≡ true → opcode < 16
unfolding is_data_opcode
data_opcode-lt opcode d = ground arith

pub sent_frame-IsUnreserved :
    (m : Bool) (k : MaskingKey) (f : Frame) → IsUnreserved f → IsUnreserved (sent_frame m k f)
unfolding settle_fields fill_payload_length
sent_frame-IsUnreserved m k f h = ground arith

pub sent_frame_fin :
    (m : Bool) (k : MaskingKey) (f : Frame)
    → is_data_opcode f.opcode ≡ true
    → (sent_frame m k f).fin ≡ f.fin
unfolding settle_fields fill_payload_length is_data_opcode is_control_opcode
sent_frame_fin m k f d = ground arith

pub IsMessage-cons :
    (opcode : ℕ) (g : Frame) (fs : Frames)
    → g.opcode ≡ opcode
    → g.fin ≡ false
    → IsMessage 0 fs
    → IsMessage opcode (g ∷ fs)
IsMessage-cons opcode g [] o more h = absurd h
IsMessage-cons opcode g (f ∷ []) o more h = (o, more, h)
IsMessage-cons opcode g (f ∷ f' ∷ fs) o more h = (o, more, h)

pub SendsMessage-step :
    {c : Conn} {n : ℕ} {st : Bytes} {opcode : ℕ} {p : Bytes} {r r' : Step Conn}
    → r ≡ r'
    → SendsMessage c n st opcode p r'
    → SendsMessage c n st opcode p r
SendsMessage-step e h = record {
  frames = h.frames;
  buf = h.buf;
  sent = h.sent;
  drawn = h.drawn;
  result = e ∙ h.result;
  stream = h.stream;
  shape = h.shape;
  whole = h.whole;
  count = h.count;
  each = h.each;
}

-- The side of a connection that sends: its keys are `keys`, where it masks at all, the buffer has
-- the size that NewConn asks for, and no close has gone out.
pub record CanSend (c : Conn) (keys : ℕ → MaskingKey) (n : ℕ) : Type 0 where
  pub key : (i : ℕ) → IsKey (keys i)
  pub drawn : (c.mask_send_frame ≡ false) ⊎ ((i : ℕ) → c.keys i ≡ ok (keys i))
  pub size : min_writer_size ≤ n
  pub unclosed : c.close_sent ≡ false

-- A frame of the message before it is sent.
pub record IsFragment (f : Frame) : Type 0 where
  pub data_opcode : is_data_opcode f.opcode ≡ true
  pub unreserved : IsUnreserved f

pub continued : (g : Frame) → IsUnreserved g → IsFragment (record g { opcode = 0 })
unfolding is_data_opcode
continued g h = record { data_opcode = refl; unreserved = h }

pub new-IsFragment :
    (opcode : ℕ)
    → IsMsgOpcode opcode
    → IsFragment (new_frame (record { opcode = opcode; payload_data = []; fin = false }))
unfolding new_frame
new-IsFragment opcode kind = record {
  data_opcode = msg_opcode-data opcode kind;
  unreserved = (refl, refl, refl);
}

pub new_frame_opcode :
    (opcode : ℕ)
    → (new_frame (record { opcode = opcode; payload_data = []; fin = false })).opcode ≡ opcode
unfolding new_frame
new_frame_opcode opcode = refl
