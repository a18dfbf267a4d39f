-- ===== src/Conn/Send/Transmission.antt =====
-- ConnectionLongDataTransmission.go as it is used: one Start, any number of TransmitData, one End and
-- the Release that is deferred behind Start.
use wlgows.Base.{
  ℕ, suc, ◌+◌, ◌≤◌, ◌≡◌, refl, ap, ap₂, ◌∙◌, Bool, true, false, none, List, [], ◌∷◌, ◌++◌, arith,
  length, append_assoc, append-nil, All, ◌==◌, ◌||◌, if◌then◌else◌,
}
use wlgows.Base.Bytes.{Bytes, IsBytes}
use wlgows.Opcode.{is_data_opcode, opcode_close}
use wlgows.Frame.{Frame, MaskingKey, new_frame}
use wlgows.Control.{new_data_frame}
use wlgows.Message.{Frames}
use wlgows.Message.Laws.{payload}
use wlgows.Listener.Run.Delivery.{IsMessage}
use wlgows.Read.{max_alloc}
use wlgows.Read.Laws.{wire}
use wlgows.Step.{Step, returned, ◌>>=◌, within}
use wlgows.Writer.{Out}
use wlgows.Writer.Laws.{healthy}
use wlgows.Conn.{Conn}
use wlgows.Conn.Write.{sent_frame, sent_frame_fields, behind, send_frame-wire}
use wlgows.Conn.Send.{
  send_built, start_long_data_transmission, transmit_data, end_long_data_transmission,
  release_long_data_transmission,
}
use wlgows.Conn.Send.Shape.{IsMsgOpcode, msg_opcode-data, msg_opcode-new, new_data_frame_lem}
use wlgows.Conn.Send.Fragments.{
  wires, IsSent, CanSend, IsFragment, validate_send_frame_open, sent_frame_fin, IsMessage-cons,
}
use wlgows.Conn.Send.Chunks.{ready, sent_frame-IsSent}

-- The pieces one after the other, and the last of them with End.
abbrev pub transmit_pieces : List Bytes → Bytes → Conn → Step Conn
transmit_pieces [] last c = end_long_data_transmission last c
transmit_pieces (d ∷ ds) last c = transmit_data d c >>= transmit_pieces ds last

abbrev pub transmission : ℕ → List Bytes → Bytes → Conn → Step Conn
transmission opcode ds last c =
    start_long_data_transmission opcode c
    >>= transmit_pieces ds last
    >>= release_long_data_transmission

abbrev pub joined : List Bytes → Bytes → Bytes
joined [] last = last
joined (d ∷ ds) last = d ++ joined ds last

abbrev pub IsPiece : Bytes → Type 0
IsPiece d = IsBytes d × (length d ≤ max_alloc)

-- The connection during a transmission, with its message opened or not.
abbrev sending : Conn → ℕ → Bool → ℕ → Bytes → ℕ → Conn
sending c opcode opened n s d = record c {
  data_frames_locked = true;
  current_transmit_data_msg_opcode = opcode;
  current_transmit_data_msg_opened = opened;
  draws = d;
  out = healthy n [] s;
}

abbrev wire_opcode : ℕ → Bool → ℕ
wire_opcode opcode opened = if opened then 0 else opcode

close_flag_data : (o : ℕ) (b : Bool) → is_data_opcode o ≡ true → (o == opcode_close || b) ≡ b
unfolding is_data_opcode
close_flag_data o b d = ground arith

module _ (c : Conn) (keys : ℕ → MaskingKey) (n : ℕ) (can : CanSend c keys n) (opcode : ℕ)
    (kind : IsMsgOpcode opcode) where
  abbrev fragment : Bool → Bytes → Bool → Frame
  fragment opened p fin =
      new_frame (record { opcode = wire_opcode opcode opened; payload_data = p; fin = fin })

  wire_opcode-data : (opened : Bool) → is_data_opcode (wire_opcode opcode opened) ≡ true
  unfolding is_data_opcode
  wire_opcode-data true = refl
  wire_opcode-data false = msg_opcode-data opcode kind

  fragment-IsFragment :
      (opened : Bool) (p : Bytes) (fin : Bool) → IsFragment (fragment opened p fin)
  unfolding new_frame
  fragment-IsFragment opened p fin = record {
    data_opcode = wire_opcode-data opened;
    unreserved = (refl, refl, refl);
  }

  -- One fragment: its wire form has gone out, and nothing else has changed but the draws.
  send_fragment :
      (opened : Bool) (p : Bytes) (fin : Bool) (s : Bytes) (d : ℕ)
      → IsBytes p
      → send_built
          (new_data_frame
            (record { opcode = wire_opcode opcode opened; payload_data = p; fin = fin }))
          (sending c opcode opened n s d)
        ≡ returned none (
            sending c opcode opened n
              (s ++ wire (sent_frame c.mask_send_frame (keys d) (fragment opened p fin)))
              (if c.mask_send_frame then d + 1 else d))
  unfolding send_built new_frame
  send_fragment opened p fin s d hp =
      let f = fragment opened p fin in
      let g = sent_frame c.mask_send_frame (keys d) f in
      let now = sending c opcode opened n s d in
      let can_now : CanSend now keys n = record {
        key = can.key;
        drawn = can.drawn;
        size = can.size;
        unclosed = can.unclosed;
      } in
      ap (λ r. send_built r now)
        (new_data_frame_lem
          (record { opcode = wire_opcode opcode opened; payload_data = p; fin = fin })
          (wire_opcode-data opened))
      ∙ ap (λ r. within (λ (x : Frame × Conn). x.1) r)
          (send_frame-wire f now (keys d) n [] s (ready now keys n can_now d [] s (omega arith)) hp
            (validate_send_frame_open f c.close_sent can.unclosed
              (fragment-IsFragment opened p fin).data_opcode))
      ∙ ap₂
          (λ (st : Bytes) (flag : Bool).
            returned none (record (behind c.mask_send_frame now (healthy n [] (st ++ wire g))) {
              close_sent = flag;
            }))
          (append-nil s)
          (close_flag_data f.opcode c.close_sent (fragment-IsFragment opened p fin).data_opcode)

  -- The frames that the rest of a transmission writes are the rest of one message.
  record SendsPieces (opened : Bool) (s p : Bytes) (k : ℕ) (r : Step Conn) : Type 0 where
    frames : Frames
    drawn : ℕ
    opened' : Bool
    result : r ≡ returned none (sending c opcode opened' n (s ++ wires frames) drawn)
    shape : IsMessage (wire_opcode opcode opened) frames
    whole : payload frames ≡ p
    count : length frames ≤ suc k
    each : All (IsSent c.mask_send_frame) frames

  end_pieces :
      (opened : Bool) (last s : Bytes) (d : ℕ)
      → IsBytes last
      → length last ≤ max_alloc
      → SendsPieces opened s last 0
          (end_long_data_transmission last (sending c opcode opened n s d))
  unfolding end_long_data_transmission wires payload new_frame
  end_pieces opened last s d hp len =
      let f = fragment opened last true in
      let g = sent_frame c.mask_send_frame (keys d) f in
      let fields = sent_frame_fields c.mask_send_frame (keys d) f in
      let shaped = fragment-IsFragment opened last true in
      record {
        frames = g ∷ [];
        drawn = if c.mask_send_frame then d + 1 else d;
        opened' = opened;
        result =
            rw
              (
                msg_opcode-new opcode kind,
                send_fragment opened last true s d hp,
                append-nil (wire g),
              )
              refl;
        shape = (fields.1, sent_frame_fin c.mask_send_frame (keys d) f shaped.data_opcode);
        whole = append-nil g.payload_data ∙ fields.0;
        count = omega arith;
        each = (sent_frame-IsSent c keys n can d f shaped hp len, tt);
      }

  abbrev next_draw : ℕ → ℕ
  next_draw d = if c.mask_send_frame then d + 1 else d

  transmit_data_lem :
      (opened : Bool) (b : ℕ) (d s : Bytes) (i : ℕ)
      → IsBytes (b ∷ d)
      → transmit_data (b ∷ d) (sending c opcode opened n s i)
        ≡ returned none (
            sending c opcode true n
              (s ++ wire (sent_frame c.mask_send_frame (keys i) (fragment opened (b ∷ d) false)))
              (next_draw i))
  unfolding transmit_data
  transmit_data_lem opened b d s i hp =
      let some_byte : (length (b ∷ d) == 0) ≡ false = ground arith in
      rw (msg_opcode-new opcode kind, some_byte, send_fragment opened (b ∷ d) false s i hp) refl

  next_piece :
      (opened : Bool) (b : ℕ) (d s p : Bytes) (i k : ℕ) (rest : Conn → Step Conn)
      → IsBytes (b ∷ d)
      → length (b ∷ d) ≤ max_alloc
      → ((s' : Bytes) (i' : ℕ) → SendsPieces true s' p k (rest (sending c opcode true n s' i')))
      → SendsPieces opened s
          ((b ∷ d) ++ p)
          (suc k)
          (transmit_data (b ∷ d) (sending c opcode opened n s i) >>= rest)
  unfolding wires payload new_frame
  next_piece opened b d s p i k rest hp len others =
      let f = fragment opened (b ∷ d) false in
      let g = sent_frame c.mask_send_frame (keys i) f in
      let fields = sent_frame_fields c.mask_send_frame (keys i) f in
      let shaped = fragment-IsFragment opened (b ∷ d) false in
      let behind_it = others (s ++ wire g) (next_draw i) in
      record {
        frames = g ∷ behind_it.frames;
        drawn = behind_it.drawn;
        opened' = behind_it.opened';
        result =
            ap (λ r. r >>= rest) (transmit_data_lem opened b d s i hp)
            ∙ behind_it.result
            ∙ ap
                (λ (st : Bytes).
                  returned none (sending c opcode behind_it.opened' n st behind_it.drawn))
                (append_assoc s (wire g) (wires behind_it.frames));
        shape =
            IsMessage-cons (wire_opcode opcode opened) g behind_it.frames fields.1
              (sent_frame_fin c.mask_send_frame (keys i) f shaped.data_opcode) behind_it.shape;
        whole = ap₂ (λ (x y : Bytes). x ++ y) fields.0 behind_it.whole;
        count = omega (arith, behind_it.count);
        each = (sent_frame-IsSent c keys n can i f shaped hp len, behind_it.each);
      }

  -- An empty piece is dropped.
  empty_piece :
      (opened : Bool) (s p : Bytes) (i k : ℕ) (rest : Conn → Step Conn)
      → SendsPieces opened s p k (rest (sending c opcode opened n s i))
      → SendsPieces opened s p (suc k) (transmit_data [] (sending c opcode opened n s i) >>= rest)
  unfolding transmit_data
  empty_piece opened s p i k rest h = record {
    frames = h.frames;
    drawn = h.drawn;
    opened' = h.opened';
    result = rw (msg_opcode-new opcode kind) h.result;
    shape = h.shape;
    whole = h.whole;
    count = omega (arith, h.count);
    each = h.each;
  }

  transmit_pieces-healthy :
      (opened : Bool) (ds : List Bytes) (last s : Bytes) (i : ℕ)
      → All IsPiece ds
      → IsPiece last
      → SendsPieces opened s
          (joined ds last)
          (length ds)
          (transmit_pieces ds last (sending c opcode opened n s i))
  transmit_pieces-healthy opened [] last s i hs h = end_pieces opened last s i h.0 h.1
  transmit_pieces-healthy opened ([] ∷ ds) last s i hs h =
      empty_piece opened s (joined ds last) i (length ds) (transmit_pieces ds last)
        (transmit_pieces-healthy opened ds last s i hs.1 h)
  transmit_pieces-healthy opened ((b ∷ d) ∷ ds) last s i hs h =
      next_piece opened b d s (joined ds last) i (length ds) (transmit_pieces ds last) hs.0.0 hs.0.1
        (λ s' i'. transmit_pieces-healthy true ds last s' i' hs.1 h)

start_lem :
    (c : Conn) (n opcode : ℕ) (s : Bytes)
    → c.close_sent ≡ false
    → c.out ≡ healthy n [] s
    → c.data_frames_locked ≡ false
    → c.current_transmit_data_msg_opened ≡ false
    → IsMsgOpcode opcode
    → start_long_data_transmission opcode c ≡ returned none (sending c opcode false n s c.draws)
unfolding start_long_data_transmission
start_lem c n opcode s unclosed o unlocked fresh kind =
    (start_claims
      ∙ ap₂
          (λ (out : Out) (opened : Bool). returned none (record c {
            data_frames_locked = true;
            current_transmit_data_msg_opcode = opcode;
            current_transmit_data_msg_opened = opened;
            out = out;
          }))
          o fresh)
  where
    start_claims :
        start_long_data_transmission opcode c
        ≡ returned none
            (record c { data_frames_locked = true; current_transmit_data_msg_opcode = opcode })
    start_claims =
        rw (msg_opcode-new opcode kind, msg_opcode-data opcode kind, unclosed, unlocked) refl

-- A transmission on a connection that takes what is written, which no other message holds: Start,
-- every piece, End and Release succeed. What has gone out is the wire forms of frames that are one
-- message of the opcode, FIN on the last only, whose payloads join to the pieces in their order; an
-- empty piece makes no frame, unless it is the last. The connection is free again.
pub transmission-wires :
    (c : Conn) (keys : ℕ → MaskingKey) (n : ℕ) (opcode : ℕ) (ds : List Bytes) (last s : Bytes)
    → CanSend c keys n
    → c.out ≡ healthy n [] s
    → c.data_frames_locked ≡ false
    → c.current_transmit_data_msg_opened ≡ false
    → IsMsgOpcode opcode
    → All IsPiece ds
    → IsPiece last
    → (fs : Frames) × (draws : ℕ) × (transmission opcode ds last c
        ≡ returned none (record c {
          draws = draws;
          out = healthy n [] (s ++ wires fs);
          data_frames_locked = false;
          current_transmit_data_msg_opcode = 0;
          current_transmit_data_msg_opened = false;
        }))
      × IsMessage opcode fs
      × (payload fs ≡ joined ds last)
      × (length fs ≤ suc (length ds))
      × All (IsSent c.mask_send_frame) fs
unfolding release_long_data_transmission
transmission-wires c keys n opcode ds last s can o unlocked fresh kind hs h =
    let m = transmit_pieces-healthy c keys n can opcode kind false ds last s c.draws hs h in
    (
      m.frames,
      m.drawn,
      ap (λ r. r >>= transmit_pieces ds last >>= release_long_data_transmission)
            (start_lem c n opcode s can.unclosed o unlocked fresh kind)
          ∙ ap (λ r. r >>= release_long_data_transmission) m.result,
      m.shape,
      m.whole,
      m.count,
      m.each,
    )
