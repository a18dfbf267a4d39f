-- ===== src/Conn/Write.antt =====
-- bufferedWriteFrame and sendFrame over a connection that takes what is written: the header and the
-- pieces of the payload are together the wire form of the frame.
pub mod Pieces
pub mod Ends
use wlgows.Base.{
  ◌⊎◌, inl, inr, ℕ, zero, suc, ◌+◌, ◌-◌, ◌*◌, ◌%◌, min, ◌≤◌, ◌<◌, ◌≡◌, refl, ap, subst, ap₂, sym,
  ◌∙◌, Bool, true, false, not, ◌&&◌, ◌||◌, Option, none, some, List, [], ◌∷◌, ◌++◌, arith, length,
  take, drop, length-take, length-drop, take-append-drop, append_assoc, append-nil, ltb, leb, ◌==◌,
  if◌then◌else◌, Bool-cases, eq-nil_of_length, All, All-take, All-drop,
}
use wlgows.Base.Bytes.{Bytes, IsByte, IsBytes}
use wlgows.Errors.{Error, Result, ok, err}
use wlgows.Frame.{
  Frame, MaskingKey, fill_payload_length, append_sealed_header, zero_key, get_header_size,
}
use wlgows.Frame.Mask.{mask_payload}
use wlgows.Frame.Mask.Laws.{IsKey, mask_payload-append}
use wlgows.Read.{max_alloc}
use wlgows.Opcode.{is_control_opcode, opcode_close}
use wlgows.Read.Laws.{wire, wire_payload, IsSettled}
use wlgows.Step.{Step, returned, stopped, endless, ◌>>=◌, within}
use wlgows.Writer.{Writer, Out, available, flush, write}
use wlgows.Writer.Laws.{
  healthy, Sends, Sends->>=, Sends-step, Sends-stream, flush-healthy, write-healthy,
}
use wlgows.Conn.Write.Pieces.{write_frame-wire}
use wlgows.Conn.{
  Conn, min_writer_size, settle_fields, prepare_side, fill_masking_key, validate_send_frame,
  prepare_send_frame, write_frame_header, piece_size, write_masked, write_frame_payload,
  buffered_write_frame, send_frame,
}

-- The frame as a send leaves it: what prepareSendFrame settles, with the key drawn.
abbrev pub sent_frame : Bool → MaskingKey → Frame → Frame
sent_frame masked k f =
    settle_fields masked (record f { masking_key = if masked then k else zero_key })

-- The connection behind a frame: a key is drawn where the side masks.
abbrev pub behind : Bool → Conn → Out → Conn
behind masked c o = record c { draws = (if masked then c.draws + 1 else c.draws); out = o }

prepare_side_lem :
    (m : Bool) (f : Frame) (k : MaskingKey) (c : Conn)
    → (m ≡ false) ⊎ (c.keys c.draws ≡ ok k)
    → prepare_side m f c ≡ returned none (sent_frame m k f, behind m c c.out)
unfolding prepare_side
prepare_side_lem true f k c (inl server) = absurd (ground arith)
prepare_side_lem true f k c (inr drawn) = simp drawn
prepare_side_lem false f k c drawn = refl

prepare_send_frame_lem :
    (f : Frame) (k : MaskingKey) (c : Conn)
    → (c.mask_send_frame ≡ false) ⊎ (c.keys c.draws ≡ ok k)
    → prepare_send_frame f c
      ≡ returned none (sent_frame c.mask_send_frame k f, behind c.mask_send_frame c c.out)
unfolding prepare_send_frame
prepare_send_frame_lem f k c drawn = prepare_side_lem c.mask_send_frame f k c drawn

pub sent_frame_fields :
    (m : Bool) (k : MaskingKey) (f : Frame)
    → ((sent_frame m k f).payload_data ≡ f.payload_data)
      × ((sent_frame m k f).opcode ≡ f.opcode)
      × ((sent_frame m k f).masking_key ≡ (if m then k else zero_key))
      × ((sent_frame m k f).mask ≡ m)
unfolding settle_fields fill_payload_length
sent_frame_fields m k f = ground arith

sent_frame_lengths :
    (m : Bool) (k : MaskingKey) (f : Frame)
    → fill_payload_length (sent_frame m k f) ≡ sent_frame m k f
unfolding settle_fields fill_payload_length
sent_frame_lengths m k f = ground arith

chosen-IsKey : (m : Bool) (k : MaskingKey) → IsKey k → IsKey (if m then k else zero_key)
chosen-IsKey true k h = h
chosen-IsKey false k h = ground arith

sent_frame-IsKey :
    (m : Bool) (k : MaskingKey) (f : Frame) → IsKey k → IsKey (sent_frame m k f).masking_key
sent_frame-IsKey m k f h = subst IsKey (sym (sent_frame_fields m k f).2) (chosen-IsKey m k h)

unmasked_key_lem :
    (m : Bool) (k : MaskingKey) → (m ≡ true) ⊎ ((if m then k else zero_key) ≡ zero_key)
unmasked_key_lem true k = inl refl
unmasked_key_lem false k = inr refl

either_by :
    {m m' : Bool} {k k' : MaskingKey}
    → m' ≡ m
    → k' ≡ k
    → (m ≡ true) ⊎ (k ≡ zero_key)
    → (m' ≡ true) ⊎ (k' ≡ zero_key)
either_by e e' (inl h) = inl (e ∙ h)
either_by e e' (inr h) = inr (e' ∙ h)

pub sent_frame-IsSettled :
    (m : Bool) (k : MaskingKey) (f : Frame)
    → IsKey k
    → IsBytes f.payload_data
    → f.opcode < 16
    → length f.payload_data ≤ max_alloc
    → IsSettled (sent_frame m k f)
sent_frame-IsSettled m k f hk hp op len =
    let fields = sent_frame_fields m k f in
    record {
      opcode_fits = omega (arith, fields);
      length_fits = omega (arith, ap (λ (p : Bytes). length p) fields.0);
      lengths = sent_frame_lengths m k f;
      unmasked_key = either_by fields.3 fields.2 (unmasked_key_lem m k);
      key = sent_frame-IsKey m k f hk;
      payload = subst IsBytes (sym fields.0) hp;
    }

-- What a send needs of the connection: the writer of NewConn's size, no error so far and none to
-- come, and for a side that masks, a key that can be drawn.
pub record IsReady (c : Conn) (k : MaskingKey) (n : ℕ) (b s : Bytes) : Type 0 where
  pub out : c.out ≡ healthy n b s
  pub size : min_writer_size ≤ n
  pub fits : length b ≤ n
  pub key : IsKey k
  pub drawn : (c.mask_send_frame ≡ false) ⊎ (c.keys c.draws ≡ ok k)

-- A frame that passes validation is appended whole to what was written before, sealed and masked
-- as the side has it, whatever the buffer holds.
pub buffered_write_frame-wire :
    (f : Frame) (c : Conn) (k : MaskingKey) (n : ℕ) (b s : Bytes)
    → IsReady c k n b s
    → IsBytes f.payload_data
    → validate_send_frame f c.close_sent ≡ none
    → let g = sent_frame c.mask_send_frame k f in
      (b' s' : Bytes) × (buffered_write_frame f c
        ≡ returned none (g, behind c.mask_send_frame c (healthy n b' s')))
      × (s' ++ b' ≡ (s ++ b) ++ wire g)
      × (length b' ≤ n)
unfolding buffered_write_frame
buffered_write_frame-wire f c k n b s ready hp valid =
    let m = c.mask_send_frame in
    let fields = sent_frame_fields m k f in
    let sends =
      write_frame-wire (sent_frame m k f) n b s (sent_frame-IsKey m k f ready.key)
        (subst IsBytes (sym fields.0) hp) (omega (arith, ready.size)) ready.fits in
    (
      sends.buf,
      sends.sent,
      rw (valid, prepare_send_frame_lem f k c ready.drawn, ready.out, sends.result) refl,
      sends.stream,
      sends.fits,
    )

close_flag :
    (closing : Bool) (c : Conn)
    → (if closing then record c { close_sent = true } else c)
      ≡ record c { close_sent = closing || c.close_sent }
close_flag true c = refl
close_flag false c = refl

-- A frame that passes validation, on a connection that takes what is written: it succeeds, all of
-- what was buffered and then the frame's wire form has gone out, the buffer is empty, and a close
-- frame is on record as sent. The frame is left with the mask, key and length of its wire form.
pub send_frame-wire :
    (f : Frame) (c : Conn) (k : MaskingKey) (n : ℕ) (b s : Bytes)
    → IsReady c k n b s
    → IsBytes f.payload_data
    → validate_send_frame f c.close_sent ≡ none
    → let g = sent_frame c.mask_send_frame k f in
      send_frame f c
      ≡ returned none (
        g,
        record (behind c.mask_send_frame c (healthy n [] ((s ++ b) ++ wire g))) {
          close_sent = f.opcode == opcode_close || c.close_sent;
        },
      )
unfolding send_frame
send_frame-wire f c k n b s ready hp valid =
    let g = sent_frame c.mask_send_frame k f in
    let written = buffered_write_frame-wire f c k n b s ready hp valid in
    let c' = behind c.mask_send_frame c (healthy n [] ((s ++ b) ++ wire g)) in
    rw (written.2, flush-healthy n written.0 written.1, written.3)
      (ap (λ c''. returned none (g, c''))
        (close_flag (g.opcode == opcode_close) c'
          ∙ ap (λ op. record c' { close_sent = op == opcode_close || c.close_sent })
              (sent_frame_fields c.mask_send_frame k f).1))
