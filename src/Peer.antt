-- ===== src/Peer.antt =====
-- The two ends together: what SendText and SendBinary put on the wire (ConnectionDataFrame.go), read
-- by GetFrameFromReader (FrameRead.go) and handed over by the peer's Listen (ListenerListen.go).
pub mod Stream
use wlgows.Base.{
  ℕ, suc, ◌^◌, ◌≤◌, ◌<◌, ◌≡◌, ◌⊎◌, refl, ap, sym, ◌∙◌, Bool, true, false, none, some, List, [], ◌∷◌,
  ◌++◌, map, arith, length, length-append, append_assoc, All, if◌then◌else◌, inl, inr,
}
use wlgows.Base.Bytes.{Bytes, IsBytes}
use wlgows.Errors.{External, sentinel, invalid_utf8}
use wlgows.Frame.{Frame, MaskingKey}
use wlgows.Message.{Frames}
use wlgows.Message.Laws.{payload}
use wlgows.Utf8.{utf8_valid}
use wlgows.Read.{Reader, returned, max_alloc, get_frame_from_reader}
use wlgows.Read.Header.{reader}
use wlgows.Read.Laws.{wire, IsSettled, get_frame_from_reader-wire}
use wlgows.Writer.Laws.{healthy}
use wlgows.Step.{returned}
use wlgows.Conn.{Conn}
use wlgows.Conn.Send.{send_data, send_text, send_binary}
use wlgows.Conn.Send.Fragments.{wires, IsSent, CanSend}
use wlgows.Conn.Send.Data.{send_data-wires}
use wlgows.Listener.{Call, frames_call, Hook, Listener, reset_current_data_frames}
use wlgows.Listener.Route.Assembly.{IsIdle}
use wlgows.Listener.Route.Whole.{Fits}
use wlgows.Listener.Run.{Request, Round, finished, call, listen_frames}
use wlgows.Listener.Run.Loop.{IsListening, quiet}
use wlgows.Listener.Run.Delivery.{IsClean, HasRoomFor, held}
use wlgows.Listener.Run.Messages.{listen_frames_text, listen_frames_binary}

-- Calls of GetFrameFromReader, one after the other, that return these frames.
pub data Reads (limit : ℕ) : Reader → Frames → Reader → Type 0 where
  done : {r : Reader} → Reads limit r [] r
  next :
      {r r' r'' : Reader} {f : Frame} {fs : Frames}
      → get_frame_from_reader r limit ≡ returned f none r'
      → Reads limit r' fs r''
      → Reads limit r (f ∷ fs) r''

pub within_limit : {limit a b : ℕ} → (limit ≡ 0) ⊎ (b ≤ limit) → a ≤ b → (limit ≡ 0) ⊎ (a ≤ limit)
within_limit (inl unlimited) le = inl unlimited
within_limit (inr small) le = inr (omega arith)

-- The frames of a stream, within the limit, are read one by one, and what follows them is left.
pub Reads-wires :
    (limit : ℕ) (fs : Frames) (rest : Bytes) (e : External)
    → (limit ≡ 0) ⊎ (length (payload fs) ≤ limit)
    → All IsSettled fs
    → Reads limit (reader (wires fs ++ rest) e) fs (reader rest e)
unfolding wires payload
Reads-wires limit [] rest e small h = done
Reads-wires limit (f ∷ fs) rest e small h =
    let sum = length-append f.payload_data (payload fs) in
    next
      (ap (λ bytes. get_frame_from_reader (reader bytes e) limit)
          (append_assoc (wire f) (wires fs) rest)
        ∙ get_frame_from_reader-wire f (wires fs ++ rest) e limit h.0
            (within_limit small (omega (arith, sum))))
      (Reads-wires limit fs rest e (within_limit small (omega (arith, sum))) h.1)

-- The two ends of a message `p`: the sender's side can send it, the listener of the other side is
-- idle, knows which side it is, and has budgets (0 is none) for its bytes and its frames.
pub record CanReach (c : Conn) (keys : ℕ → MaskingKey) (n : ℕ) (k : ℕ) (l : Listener) (p : Bytes)
    : Type 0 where
  pub can : CanSend c keys n
  pub unlocked : c.data_frames_locked ≡ false
  pub bytes : IsBytes p
  pub size : length p ≤ max_alloc
  pub listening : IsListening k l
  pub idle : IsIdle l
  pub no_data_hook : l.config.data_hook ≡ none
  pub sides : l.config.peer_is_client ≡ c.mask_send_frame
  pub payload_budget :
      (l.config.max_msg_payload_byte_len ≡ 0) ⊎ (length p ≤ l.config.max_msg_payload_byte_len)
  pub frame_budget :
      (l.config.max_msg_frame_count ≡ 0) ⊎ (suc (length p) ≤ l.config.max_msg_frame_count)

pub fits : (limit a b : ℕ) → (limit ≡ 0) ⊎ (b ≤ limit) → a ≤ b → b < 2 ^ 64 → Fits limit a
fits limit a b small le wide = (within_limit small le, omega arith)

room_lem :
    (c : Conn) (keys : ℕ → MaskingKey) (n k : ℕ) (l : Listener) (p : Bytes) (fs : Frames)
    → CanReach c keys n k l p
    → payload fs ≡ p
    → length fs ≤ suc (length p)
    → HasRoomFor fs l
room_lem c keys n k l p fs m whole count = (
  fits l.config.max_msg_payload_byte_len _ (length p) m.payload_budget
      (omega (arith, m.idle.2, ap (λ (q : Bytes). length q) whole)) (omega (arith, m.size)),
  fits l.config.max_msg_frame_count _ (suc (length p)) m.frame_budget (omega (arith, m.idle.0))
      (omega (arith, m.size)),
)

pub settled : (m : Bool) (fs : Frames) → All (IsSent m) fs → All IsSettled fs
settled m [] h = tt
settled m (f ∷ fs) h = (h.0.0, settled m fs h.1)

pub clean : (m m' : Bool) (fs : Frames) → m' ≡ m → All (IsSent m) fs → All (IsClean m') fs
clean m m' [] e h = tt
clean m m' (f ∷ fs) e h = ((h.0.1.0, h.0.1.1 ∙ sym e), clean m m' fs e h.1)

send_text_valid :
    (text : Bytes) (chunk_size : ℕ) (c : Conn)
    → utf8_valid text ≡ true
    → send_text text chunk_size c ≡ send_data 1 text chunk_size c
unfolding send_text
send_text_valid text chunk_size c valid = rw valid

module _ (c : Conn) (keys : ℕ → MaskingKey) (n k : ℕ) (l : Listener) (b s : Bytes)
    (o : c.out ≡ healthy n b s) (buffered : length b ≤ n) (hooks : Call → List Request)
    (more : List Round) (h : Hook) (p : Bytes) (chunk_size : ℕ) (m : CanReach c keys n k l p)
    (limit : ℕ) (small : (limit ≡ 0) ⊎ (length p ≤ limit)) (rest : Bytes) (e : External) where
  -- A text message in valid UTF-8, sent by one side in chunks of any size and read by the other:
  -- the send succeeds, the peer's reads return its frames one by one and leave what follows, and
  -- a Listen that gets those frames runs its Text hook once, with frames whose payloads join to
  -- exactly the text that was sent, and is idle again for what follows.
  pub send_text_reaches_hook :
      utf8_valid p ≡ true
      → l.config.text ≡ some h
      → (fs : Frames) × (draws : ℕ) × (send_text p chunk_size c
          ≡ returned none (record c { draws = draws; out = healthy n [] ((s ++ b) ++ wires fs) }))
        × Reads limit (reader (wires fs ++ rest) e) fs (reader rest e)
        × (listen_frames hooks k (map quiet fs ++ more) l
            ≡ listen_frames hooks k more
                (call hooks (frames_call h (held fs)) (reset_current_data_frames l)))
        × (payload (held fs) ≡ p)
  send_text_reaches_hook valid t =
      let sends =
        send_data-wires c keys n 1 p chunk_size b s m.can o buffered m.unlocked (inl refl) m.bytes
          m.size in
      let fs = sends.0 in
      let runs =
        listen_frames_text hooks k more l fs h m.listening m.idle m.no_data_hook
          (clean c.mask_send_frame l.config.peer_is_client fs m.sides sends.6)
          (room_lem c keys n k l p fs m sends.4 sends.5) t sends.3 in
      (
        fs,
        sends.1,
        send_text_valid p chunk_size c valid ∙ sends.2,
        Reads-wires limit fs rest e
            (within_limit small (omega (arith, ap (λ (q : Bytes). length q) sends.4)))
            (settled c.mask_send_frame fs sends.6),
        runs.0 ∙ accepted fs sends.4,
        runs.1 ∙ sends.4,
      )
    where
      accepted :
          (fs : Frames)
          → payload fs ≡ p
          → (if utf8_valid (payload fs)
              then listen_frames hooks k more
                  (call hooks (frames_call h (held fs)) (reset_current_data_frames l))
              else finished (some (sentinel invalid_utf8)) (reset_current_data_frames l))
            ≡ listen_frames hooks k more
                (call hooks (frames_call h (held fs)) (reset_current_data_frames l))
      accepted fs whole = rw (whole, valid)

  -- A binary message reaches the Binary hook of the other side in the same way, whatever its bytes.
  pub send_binary_reaches_hook :
      l.config.binary ≡ some h
      → (fs : Frames) × (draws : ℕ) × (send_binary p chunk_size c
          ≡ returned none (record c { draws = draws; out = healthy n [] ((s ++ b) ++ wires fs) }))
        × Reads limit (reader (wires fs ++ rest) e) fs (reader rest e)
        × (listen_frames hooks k (map quiet fs ++ more) l
            ≡ listen_frames hooks k more
                (call hooks (frames_call h (held fs)) (reset_current_data_frames l)))
        × (payload (held fs) ≡ p)
  unfolding send_binary
  send_binary_reaches_hook t =
      let sends =
        send_data-wires c keys n 2 p chunk_size b s m.can o buffered m.unlocked (inr refl) m.bytes
          m.size in
      let fs = sends.0 in
      let runs =
        listen_frames_binary hooks k more l fs h m.listening m.idle m.no_data_hook
          (clean c.mask_send_frame l.config.peer_is_client fs m.sides sends.6)
          (room_lem c keys n k l p fs m sends.4 sends.5) t sends.3 in
      (
        fs,
        sends.1,
        sends.2,
        Reads-wires limit fs rest e
            (within_limit small (omega (arith, ap (λ (q : Bytes). length q) sends.4)))
            (settled c.mask_send_frame fs sends.6),
        runs.0,
        runs.1 ∙ sends.4,
      )
