-- ===== src/Peer/Stream.antt =====
-- A long transmission (ConnectionLongDataTransmission.go), read by GetFrameFromReader and handed over by
-- the peer's Listen.
use wlgows.Base.{
  ℕ, suc, ◌^◌, ◌≤◌, ◌<◌, ◌≡◌, ◌⊎◌, refl, ap, ◌∙◌, true, false, none, some, List, [], ◌++◌, map,
  arith, length, All, if◌then◌else◌, inl,
}
use wlgows.Base.Bytes.{Bytes}
use wlgows.Errors.{External, sentinel, invalid_utf8}
use wlgows.Frame.{MaskingKey}
use wlgows.Message.{Frames}
use wlgows.Message.Laws.{payload}
use wlgows.Utf8.{utf8_valid}
use wlgows.Read.Header.{reader}
use wlgows.Writer.Laws.{healthy}
use wlgows.Step.{returned}
use wlgows.Conn.{Conn}
use wlgows.Conn.Send.Fragments.{wires, CanSend}
use wlgows.Conn.Send.Transmission.{transmission, joined, IsPiece, transmission-wires}
use wlgows.Listener.{Call, frames_call, Hook, Listener, reset_current_data_frames}
use wlgows.Listener.Route.Assembly.{IsIdle}
use wlgows.Listener.Run.{Request, Round, finished, call, listen_frames}
use wlgows.Listener.Run.Loop.{IsListening, quiet}
use wlgows.Listener.Run.Delivery.{HasRoomFor, held}
use wlgows.Listener.Run.Messages.{listen_frames_text}
use wlgows.Peer.{Reads, Reads-wires, within_limit, fits, settled, clean}

-- The two ends of a transmission of these pieces: the sender's side is free and can send, the listener
-- of the other side is idle, knows which side it is, and has budgets (0 is none) for the joined bytes
-- and for a frame for every piece.
pub record CanStream (c : Conn) (keys : ℕ → MaskingKey) (n k : ℕ) (l : Listener) (ds : List Bytes)
    (last : Bytes) : Type 0 where
  pub can : CanSend c keys n
  pub unlocked : c.data_frames_locked ≡ false
  pub fresh : c.current_transmit_data_msg_opened ≡ false
  pub pieces : All IsPiece ds
  pub last_piece : IsPiece last
  pub size : length (joined ds last) < 2 ^ 64
  pub number : suc (length ds) < 2 ^ 64
  pub listening : IsListening k l
  pub idle : IsIdle l
  pub no_data_hook : l.config.data_hook ≡ none
  pub sides : l.config.peer_is_client ≡ c.mask_send_frame
  pub payload_budget :
      (l.config.max_msg_payload_byte_len ≡ 0)
      ⊎ (length (joined ds last) ≤ l.config.max_msg_payload_byte_len)
  pub frame_budget :
      (l.config.max_msg_frame_count ≡ 0) ⊎ (suc (length ds) ≤ l.config.max_msg_frame_count)

stream_room :
    (c : Conn) (keys : ℕ → MaskingKey) (n k : ℕ) (l : Listener) (ds : List Bytes) (last : Bytes)
    (fs : Frames)
    → CanStream c keys n k l ds last
    → payload fs ≡ joined ds last
    → length fs ≤ suc (length ds)
    → HasRoomFor fs l
stream_room c keys n k l ds last fs m whole count = (
  fits l.config.max_msg_payload_byte_len _ (length (joined ds last)) m.payload_budget
      (omega (arith, m.idle.2, ap (λ (q : Bytes). length q) whole)) m.size,
  fits l.config.max_msg_frame_count _ (suc (length ds)) m.frame_budget
      (omega (arith, m.idle.0, count)) m.number,
)

-- A text sent piece by piece, valid UTF-8 as a whole though a piece may end inside a rune, and read by
-- the other side: the transmission succeeds, the peer's reads return its frames one by one and leave
-- what follows, and a Listen that gets those frames runs its Text hook once, with frames whose payloads
-- join to the pieces, and is idle again.
pub transmission_reaches_hook :
    (c : Conn) (keys : ℕ → MaskingKey) (n k : ℕ) (l : Listener) (s : Bytes)
    (hooks : Call → List Request) (more : List Round) (h : Hook) (ds : List Bytes) (last : Bytes)
    (limit : ℕ) (rest : Bytes) (e : External)
    → c.out ≡ healthy n [] s
    → CanStream c keys n k l ds last
    → (limit ≡ 0) ⊎ (length (joined ds last) ≤ limit)
    → utf8_valid (joined ds last) ≡ true
    → l.config.text ≡ some h
    → (fs : Frames) × (draws : ℕ) × (transmission 1 ds last c
        ≡ returned none (record c {
          draws = draws;
          out = healthy n [] (s ++ wires fs);
          data_frames_locked = false;
          current_transmit_data_msg_opcode = 0;
          current_transmit_data_msg_opened = false;
        }))
      × Reads limit (reader (wires fs ++ rest) e) fs (reader rest e)
      × (listen_frames hooks k (map quiet fs ++ more) l
          ≡ listen_frames hooks k more
              (call hooks (frames_call h (held fs)) (reset_current_data_frames l)))
      × (payload (held fs) ≡ joined ds last)
transmission_reaches_hook c keys n k l s hooks more h ds last limit rest e o m small valid t =
    let sends =
      transmission-wires c keys n 1 ds last s m.can o m.unlocked m.fresh (inl refl) m.pieces
        m.last_piece in
    let fs = sends.0 in
    let runs =
      listen_frames_text hooks k more l fs h m.listening m.idle m.no_data_hook
        (clean c.mask_send_frame l.config.peer_is_client fs m.sides sends.6)
        (stream_room c keys n k l ds last fs m sends.4 sends.5) t sends.3 in
    (
      fs,
      sends.1,
      sends.2,
      Reads-wires limit fs rest e
          (within_limit small (omega (arith, ap (λ (q : Bytes). length q) sends.4)))
          (settled c.mask_send_frame fs sends.6),
      runs.0 ∙ accepted fs sends.4,
      runs.1 ∙ sends.4,
    )
  where
    accepted :
        (fs : Frames)
        → payload fs ≡ joined ds last
        → (if utf8_valid (payload fs)
            then listen_frames hooks k more
                (call hooks (frames_call h (held fs)) (reset_current_data_frames l))
            else finished (some (sentinel invalid_utf8)) (reset_current_data_frames l))
          ≡ listen_frames hooks k more
              (call hooks (frames_call h (held fs)) (reset_current_data_frames l))
    accepted fs whole = rw (whole, valid)
