-- ===== src/Conn.antt =====
-- Connection.go and ConnectionWrite.go: a connection's state, and how one frame is checked, settled
-- and written. What runs under writeLocker is one step of the model: no other call comes between.
pub mod Send
pub mod Write
pub mod Closing
pub mod Turns
use wlgows.Base.{
  ℕ, zero, suc, ◌+◌, ◌-◌, ◌*◌, ◌%◌, min, Bool, true, false, not, ◌&&◌, ◌||◌, Option, none, some,
  List, [], ◌∷◌, ◌++◌, ltb, leb, ◌==◌, length, take, drop, if◌then◌else◌,
}
use wlgows.Base.Bytes.{Bytes}
use wlgows.Errors.{
  Error, Result, ok, err, sentinel, wrapped, control_payload_is, close_already_sent,
  control_frame_payload_too_long,
}
use wlgows.Opcode.{is_control_opcode, is_data_opcode, opcode_close}
use wlgows.Frame.{
  Frame, MaskingKey, zero_key, get_header_size, append_sealed_header, fill_payload_length,
}
use wlgows.Frame.Mask.{mask_payload}
use wlgows.Control.{control_frame_payload_max_byte_length}
use wlgows.Read.{Reader, Read, get_frame_from_reader}
use wlgows.Step.{Step, Stop, endless, returned, stopped, ◌>>=◌, within}
use wlgows.Writer.{Writer, Wire, Out, available, new_writer_size, flush, write}

-- `keys` is what crypto/rand gives: the n-th draw of a masking key, or its error. The locks are the
-- flag of dataFramesWriteLocker; readLocker and writeLocker are held within one step only.
pub record Conn : Type 0 where
  pub reader : Reader
  pub mask_send_frame : Bool
  pub current_transmit_data_msg_opcode : ℕ
  pub current_transmit_data_msg_opened : Bool
  pub close_sent : Bool
  pub out : Out
  pub keys : ℕ → Result MaskingKey
  pub draws : ℕ
  pub data_frames_locked : Bool

abbrev pub min_writer_size : ℕ
min_writer_size = 14

-- A writer that is too small is flushed and replaced by one of 14 bytes on the same connection;
-- `o` holds the writer that was passed, over the connection.
unfoldable pub fit_writer : Out → Step Out
fit_writer o =
    if leb min_writer_size o.writer.size
    then returned none o
    else within (λ (o' : Out). record o' { writer = new_writer_size min_writer_size }) (flush o)

-- The fields that NewConn leaves to their zero values, and the rest.
abbrev pub conn_over : Reader → Bool → (ℕ → Result MaskingKey) → Out → Conn
conn_over r mask_send_frame keys o = record {
  reader = r;
  mask_send_frame = mask_send_frame;
  current_transmit_data_msg_opcode = 0;
  current_transmit_data_msg_opened = false;
  close_sent = false;
  out = o;
  keys = keys;
  draws = 0;
  data_frames_locked = false;
}

-- `return nil, err`, or the Conn on the writer that fits
unfoldable pub conn_from : (Out → Conn) → Step Out → Step (Option Conn)
conn_from make (returned none o) = returned none (some (make o))
conn_from make (returned (some e) o) = returned (some e) none
conn_from make (stopped x) = stopped x

unfoldable pub new_conn : Reader → Out → Bool → (ℕ → Result MaskingKey) → Step (Option Conn)
unfolding fit_writer conn_from
new_conn r w mask_send_frame keys = conn_from (conn_over r mask_send_frame keys) (fit_writer w)

unfoldable pub get_next_frame : ℕ → Conn → Read Frame
get_next_frame max_byte_length c = get_frame_from_reader c.reader max_byte_length

unfoldable pub validate_send_frame : Frame → Bool → Option Error
validate_send_frame f close_sent =
    if close_sent && (is_data_opcode f.opcode || f.opcode == opcode_close)
    then some (sentinel close_already_sent)
    else if is_control_opcode f.opcode
        && ltb control_frame_payload_max_byte_length (length f.payload_data)
    then some (
        wrapped (control_payload_is (length f.payload_data))
          (sentinel control_frame_payload_too_long))
    else none

-- fillMaskingKey: the next draw, into the frame.
unfoldable pub fill_masking_key : Result MaskingKey → Frame → Step Frame
fill_masking_key (ok k) f = returned none (record f { masking_key = k })
fill_masking_key (err e) f = returned (some e) f

-- Mask, the length fields and a control frame's FIN, behind the key.
unfoldable pub settle_fields : Bool → Frame → Frame
settle_fields mask_send_frame f =
    let f' = fill_payload_length (record f { mask = mask_send_frame }) in
    if is_control_opcode f'.opcode then record f' { fin = true } else f'

-- if maskSendFrame { … } else { … }
unfoldable pub prepare_side : Bool → Frame → Conn → Step (Frame × Conn)
unfolding fill_masking_key settle_fields
prepare_side true f c =
    within (λ f'. (f', record c { draws = c.draws + 1 })) (fill_masking_key (c.keys c.draws) f)
    >>= λ s. returned none (settle_fields true s.0, s.1)
prepare_side false f c =
    returned none (settle_fields false (record f { masking_key = zero_key }), c)

unfoldable pub prepare_send_frame : Frame → Conn → Step (Frame × Conn)
unfolding prepare_side
prepare_send_frame f c = prepare_side c.mask_send_frame f c

unfoldable pub write_frame_header : Frame → Out → Step Out
write_frame_header f o =
    (if ltb (available o.writer) (get_header_size f) then flush o else returned none o)
    >>= write (append_sealed_header f [])

-- A piece of a masked payload: as much as the buffer has room for, in whole keys unless it is the
-- last.
unfoldable pub piece_size : ℕ → ℕ → ℕ
piece_size free size = let n = min free size in if ltb n size then n - n % 4 else n

-- Each round sends a byte at least, or flushes; `endless` is fuel that has run out.
unfoldable pub write_masked : ℕ → Bytes → MaskingKey → Out → Step Out
write_masked fuel [] k o = returned none o
write_masked zero (b ∷ payload) k o = stopped endless
write_masked (suc fuel) (b ∷ payload) k o =
    let n = piece_size (available o.writer) (length (b ∷ payload)) in
    let flush_first = flush o >>= write_masked fuel (b ∷ payload) k in
    let piece =
      write (mask_payload (take n (b ∷ payload)) k) o
      >>= write_masked fuel (drop n (b ∷ payload)) k in
    if n == 0 then flush_first else piece

-- Two rounds a byte are enough.
unfoldable pub write_frame_payload : Frame → Out → Step Out
unfolding write_masked
write_frame_payload f o =
    if not f.mask
    then write f.payload_data o
    else write_masked (2 * length f.payload_data) f.payload_data f.masking_key o

-- An error of validation leaves the frame and the connection as they were.
unfoldable pub buffered_write_frame : Frame → Conn → Step (Frame × Conn)
buffered_write_frame f c =
    returned (validate_send_frame f c.close_sent) (f, c)
    >>= (λ s. prepare_send_frame s.0 s.1)
    >>= λ s.
        within (λ o. (s.0, record s.1 { out = o }))
          (write_frame_header s.0 s.1.out >>= write_frame_payload s.0)

-- A close counts only once it is on the wire.
unfoldable pub send_frame : Frame → Conn → Step (Frame × Conn)
send_frame f c =
    buffered_write_frame f c
    >>= (λ s. within (λ o. (s.0, record s.1 { out = o })) (flush s.1.out))
    >>= λ s.
        returned none
          (s.0, if s.0.opcode == opcode_close then record s.1 { close_sent = true } else s.1)

-- A flush of the new writer that fails leaves the old one in place.
unfoldable pub replace_writer : Conn → Step Out → Step Conn
replace_writer c (returned none o) = returned none (record c { out = o })
replace_writer c (returned (some e) o) =
    returned (some e) (record c { out = record c.out { wire = o.wire } })
replace_writer c (stopped x) = stopped x

-- `w` is a writer on the same connection.
unfoldable pub renew_writer : Writer → Conn → Step Conn
unfolding fit_writer replace_writer
renew_writer w c = within (λ (o : Out). record c { out = o }) (flush c.out) >>= λ c'.
    replace_writer c' (fit_writer (record { writer = w; wire = c'.out.wire }))
