-- ===== src/NextFrames/Sent.antt =====
-- ReadNextFrames (example/example_helpers/ReadNextFrames.go) behind the other side's SendData.
use wlgows.Base.{
  ℕ, suc, zero, ◌≤◌, ◌<◌, ◌≡◌, ◌⊎◌, ap, ◌∙◌, Bool, true, false, Option, none, some, [], ◌∷◌, ◌++◌,
  length, append_assoc, arith, if◌then◌else◌,
}
use wlgows.Base.Bytes.{Bytes, IsBytes}
use wlgows.Errors.{External}
use wlgows.Frame.{Frame, MaskingKey}
use wlgows.Message.{Frames, bytes}
use wlgows.Message.Laws.{bytes-eq-payload}
use wlgows.Read.{Reader, Read, returned, max_alloc, get_frame_from_reader}
use wlgows.Read.Header.{reader}
use wlgows.Writer.Laws.{healthy}
use wlgows.Step.{returned}
use wlgows.Conn.{Conn}
use wlgows.Conn.Send.{send_data}
use wlgows.Conn.Send.Fragments.{wires, CanSend}
use wlgows.Conn.Send.Shape.{IsMsgOpcode}
use wlgows.Conn.Send.Data.{send_data-wires}
use wlgows.Listener.Run.Delivery.{Continues, IsMessage}
use wlgows.Peer.{Reads, done, next, Reads-wires, within_limit, settled}
use wlgows.NextFrames.{append_next, read_rounds, read_next_frames}
use wlgows.NextFrames.Gathered.{reader_shrinks}

-- FIN on the last frame and only there.
abbrev EndsOnce : Frames → Type 0
EndsOnce [] = ⊥
EndsOnce (f ∷ []) = f.fin ≡ true
EndsOnce (f ∷ g ∷ fs) = (f.fin ≡ false) × EndsOnce (g ∷ fs)

Continues-EndsOnce : (fs : Frames) → Continues fs → EndsOnce fs
Continues-EndsOnce [] h = h
Continues-EndsOnce (f ∷ []) h = h.1
Continues-EndsOnce (f ∷ g ∷ fs) h = (h.1, Continues-EndsOnce (g ∷ fs) h.2)

IsMessage-EndsOnce : (opcode : ℕ) (fs : Frames) → IsMessage opcode fs → EndsOnce fs
IsMessage-EndsOnce opcode [] h = h
IsMessage-EndsOnce opcode (f ∷ []) h = h.1
IsMessage-EndsOnce opcode (f ∷ g ∷ fs) h = (h.1, Continues-EndsOnce (g ∷ fs) h.2)

module _ (conn : Conn) (limit : ℕ) where
  -- A round that reads a frame goes the frame's way.
  round_lem :
      (rounds : ℕ) (frames : Frames) (r : Reader) {f : Frame} {r' : Reader} {last : Bool}
      → get_frame_from_reader r limit ≡ returned f none r'
      → f.fin ≡ last
      → read_rounds (suc rounds) limit conn frames r ≡ (
          if last
          then some (returned (frames ++ (f ∷ [])) none r')
          else read_rounds rounds limit conn (frames ++ (f ∷ [])) r')
  unfolding read_rounds
  round_lem rounds frames r {f} {r'} got is_last =
      let again : Frames → Reader → Option (Read Frames) =
        λ frames' r''. read_rounds rounds limit conn frames' r'' in
      ap (λ (m : Read Frame). append_next frames m again) got
      ∙ ap
          (λ (b : Bool).
            if b
            then some (returned (frames ++ (f ∷ [])) none r')
            else again (frames ++ (f ∷ [])) r')
          is_last

  read_rounds_lem :
      (rounds : ℕ) (r : Reader) (frames fs : Frames) {r' : Reader}
      → length r.pending < rounds
      → Reads limit r fs r'
      → EndsOnce fs
      → read_rounds rounds limit conn frames r ≡ some (returned (frames ++ fs) none r')
  read_rounds_lem zero r frames fs enough reads ends =
      let impossible : ⊥ = omega arith in absurd impossible
  read_rounds_lem (suc rounds) r frames [] enough reads ends = absurd ends
  read_rounds_lem (suc rounds) r frames (f ∷ []) enough (next got done) ends =
      round_lem rounds frames r got ends
  read_rounds_lem (suc rounds) r frames (f ∷ g ∷ fs) {r' = r'} enough (next got reads) ends =
      let less = reader_shrinks r limit got in
      round_lem rounds frames r got ends.0
      ∙ read_rounds_lem rounds _ (frames ++ (f ∷ [])) (g ∷ fs) (omega arith) reads ends.1
      ∙ ap (λ (gs : Frames). some (returned gs none r')) (append_assoc frames (f ∷ []) (g ∷ fs))

-- The two ends together: what SendData sends of a text or binary message, in chunks of any size, over a
-- connection that takes what is written, is what the other side's ReadNextFrames returns once it arrives,
-- whatever follows: the frames of one message, whose Bytes are exactly those that were sent.
pub send_data-read_next_frames :
    (c conn : Conn) (keys : ℕ → MaskingKey) (n : ℕ) (opcode : ℕ) (p : Bytes) (chunk_size : ℕ)
    (b s : Bytes) (limit : ℕ) (rest : Bytes) (e : External)
    → CanSend c keys n
    → c.out ≡ healthy n b s
    → length b ≤ n
    → c.data_frames_locked ≡ false
    → IsMsgOpcode opcode
    → IsBytes p
    → length p ≤ max_alloc
    → (limit ≡ 0) ⊎ (length p ≤ limit)
    → (fs : Frames) × (draws : ℕ) × (send_data opcode p chunk_size c
        ≡ returned none (record c { draws = draws; out = healthy n [] ((s ++ b) ++ wires fs) }))
      × (read_next_frames (record conn { reader = reader (wires fs ++ rest) e }) limit
          ≡ some (returned fs none (reader rest e)))
      × IsMessage opcode fs
      × (bytes fs ≡ p)
unfolding read_next_frames
send_data-read_next_frames c conn keys n opcode p chunk_size b s limit rest e can o fits unlocked
      kind hp len small =
    let (fs, draws, sent, message, whole, count, settled_all) =
      send_data-wires c keys n opcode p chunk_size b s can o fits unlocked kind hp len in
    let at = reader (wires fs ++ rest) e in
    (
      fs,
      draws,
      sent,
      read_rounds_lem (record conn { reader = at }) limit (suc (length at.pending)) at [] fs
          (omega arith)
          (Reads-wires limit fs rest e
            (within_limit small (omega (arith, ap (λ (q : Bytes). length q) whole)))
            (settled c.mask_send_frame fs settled_all))
          (IsMessage-EndsOnce opcode fs message),
      message,
      bytes-eq-payload fs ∙ whole,
    )
