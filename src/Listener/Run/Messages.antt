-- ===== src/Listener/Run/Messages.antt =====
-- The read loop delivers what a peer sends: one message, whole, to the hook of its type.
use wlgows.Base.{
  ℕ, ◌+◌, ◌<◌, ◌≡◌, ◌⊎◌, inl, inr, refl, ap, sym, ◌∙◌, true, false, none, some, List, [], ◌∷◌, ◌++◌,
  map, arith, length, length-append, append_assoc, All, Bool-cases, ◌==◌, if◌then◌else◌,
}
use wlgows.Errors.{sentinel, invalid_utf8}
use wlgows.Opcode.{is_data_opcode}
use wlgows.Frame.{Frame}
use wlgows.Message.{Frames}
use wlgows.Message.Laws.{payload}
use wlgows.Utf8.{utf8_valid}
use wlgows.Listener.{Call, frames_call, Hook, Listener, reset_current_data_frames}
use wlgows.Listener.Route.{deliver}
use wlgows.Listener.Route.Assembly.{IsIdle}
use wlgows.Listener.Route.Whole.{HasRoom, holding, route_more, route_dropped, route_last}
use wlgows.Listener.Run.{Request, Round, Run, finished, call, settle, listen_frames}
use wlgows.Listener.Run.Loop.{IsListening, quiet, listen_frames-quiet}
use wlgows.Listener.Run.Delivery.{
  IsClean, Continues, IsMessage, kept, held, payload-held, valid_text_utf8_lem, HasRoomFor, Fits-le,
  continuation_passes, opening_passes,
}

length-payload_head :
    (f : Frame) (fs : Frames)
    → length (payload (f ∷ fs)) ≡ length f.payload_data + length (payload fs)
unfolding payload
length-payload_head f fs = length-append f.payload_data (payload fs)

head_room : (f : Frame) (fs : Frames) (l : Listener) → HasRoomFor (f ∷ fs) l → HasRoom f l
head_room f fs l room = (
  Fits-le l.config.max_msg_payload_byte_len _ _ (omega (arith, length-payload_head f fs)) room.0,
  Fits-le l.config.max_msg_frame_count _ _ (omega arith) room.1,
)

-- Room for the rest, once the head is held, and also once an empty head is dropped.
tail_room :
    (opcode : ℕ) (f : Frame) (fs : Frames) (l : Listener)
    → HasRoomFor (f ∷ fs) l
    → HasRoomFor fs (holding opcode f l)
unfolding holding
tail_room opcode f fs l room = (
  Fits-le l.config.max_msg_payload_byte_len _ _ (omega (arith, length-payload_head f fs)) room.0,
  Fits-le l.config.max_msg_frame_count _ _ (omega arith) room.1,
)

rest_room : (f : Frame) (fs : Frames) (l : Listener) → HasRoomFor (f ∷ fs) l → HasRoomFor fs l
rest_room f fs l room = (
  Fits-le l.config.max_msg_payload_byte_len _ _ (omega (arith, length-payload_head f fs)) room.0,
  Fits-le l.config.max_msg_frame_count _ _ (omega arith) room.1,
)

kept_last : (f : Frame) → f.fin ≡ true → kept (f ∷ []) ≡ f ∷ []
unfolding kept
kept_last f last = ground arith

kept_empty :
    (f : Frame) (fs : Frames) → f.fin ≡ false → length f.payload_data ≡ 0 → kept (f ∷ fs) ≡ kept fs
unfolding kept
kept_empty f fs more empty = ground arith

kept_full :
    (f : Frame) (fs : Frames) → (length f.payload_data == 0) ≡ false → kept (f ∷ fs) ≡ f ∷ kept fs
unfolding kept
kept_full f fs full = ground arith

opening : {a b : ℕ} → a ≡ b → (b ≡ 1) ⊎ (b ≡ 2) → (a ≡ 1) ⊎ (a ≡ 2)
opening e (inl t) = inl (e ∙ t)
opening e (inr b) = inr (e ∙ b)

module _ (hooks : Call → List Request) (c : ℕ) (more : List Round) where
  -- What the loop comes to when `fs` is delivered under `opcode`.
  abbrev delivered : ℕ → Frames → Listener → Run
  delivered opcode fs l =
      settle (deliver (call hooks) l.config fs opcode (reset_current_data_frames l))
        (listen_frames hooks c more)

  -- The continuations of an open message, from the frames that are held so far.
  continuations :
      (opcode : ℕ) (fs : Frames) (l : Listener)
      → IsListening c l
      → l.config.data_hook ≡ none
      → l.current_data_frame_opcode ≡ opcode
      → 0 < l.current_data_frame_count
      → Continues fs
      → All (IsClean l.config.peer_is_client) fs
      → HasRoomFor fs l
      → listen_frames hooks c (map quiet fs ++ more) l
        ≡ delivered opcode (l.current_data_frames ++ kept fs) l
  unfolding is_data_opcode holding reset_current_data_frames
  continuations opcode [] l h d o p k cl room = absurd k
  continuations opcode (f ∷ []) l h d o p k cl room =
      listen_frames-quiet hooks c f more l h (continuation_passes l f cl.0 k.0 p)
      ∙ ap (λ r. settle r (listen_frames hooks c more))
          (route_last (call hooks) f l d (head_room f [] l room) opcode (ground arith) k.1
            (ground arith))
      ∙ ap (λ fs. delivered opcode (l.current_data_frames ++ fs) l) (sym (kept_last f k.1))
  continuations opcode (f ∷ g ∷ fs) l h d o p k cl room =
      let room' = head_room f (g ∷ fs) l room in
      let first =
        listen_frames-quiet hooks c f (map quiet (g ∷ fs) ++ more) l h
          (continuation_passes l f cl.0 k.0 p) in
      elim (Bool-cases (length f.payload_data == 0)) [
        | inl empty ↦
            first
            ∙ ap (λ r. settle r (listen_frames hooks c (map quiet (g ∷ fs) ++ more)))
                (route_dropped (call hooks) f l d room' k.0 k.1 (ground arith))
            ∙ continuations opcode (g ∷ fs) l h d o p k.2 cl.1 (rest_room f (g ∷ fs) l room)
            ∙ ap (λ fs. delivered opcode (l.current_data_frames ++ fs) l)
                (sym (kept_empty f (g ∷ fs) k.1 (ground arith)))
        | inr full ↦
            first
            ∙ ap (λ r. settle r (listen_frames hooks c (map quiet (g ∷ fs) ++ more)))
                (route_more (call hooks) f l d room' opcode (ground arith) k.1 (ground arith)
                  (ground arith))
            ∙ continuations opcode (g ∷ fs) (holding opcode f l) h d refl (omega arith) k.2 cl.1
                (tail_room opcode f (g ∷ fs) l room)
            ∙ ap (λ fs. delivered opcode fs l)
                (append_assoc l.current_data_frames (f ∷ []) (kept (g ∷ fs))
                  ∙ ap (λ fs. l.current_data_frames ++ fs) (sym (kept_full f (g ∷ fs) full)))
      ]

  whole :
      (opcode : ℕ) (fs : Frames) (l : Listener)
      → (opcode ≡ 1) ⊎ (opcode ≡ 2)
      → IsListening c l
      → IsIdle l
      → l.config.data_hook ≡ none
      → IsMessage opcode fs
      → All (IsClean l.config.peer_is_client) fs
      → HasRoomFor fs l
      → listen_frames hooks c (map quiet fs ++ more) l ≡ delivered opcode (held fs) l
  unfolding is_data_opcode holding held kept reset_current_data_frames
  whole opcode [] l t h idle d m cl room = absurd m
  whole opcode (f ∷ []) l t h idle d m cl room =
      listen_frames-quiet hooks c f more l h (opening_passes l f cl.0 (opening m.0 t) idle.0)
      ∙ ap (λ r. settle r (listen_frames hooks c more))
          (route_last (call hooks) f l d (head_room f [] l room) opcode (ground arith) m.1
            (ground arith))
      ∙ ap (λ fs. delivered opcode (fs ++ f ∷ []) l) idle.1
  whole opcode (f ∷ g ∷ fs) l t h idle d m cl room =
      listen_frames-quiet hooks c f (map quiet (g ∷ fs) ++ more) l h
        (opening_passes l f cl.0 (opening m.0 t) idle.0)
      ∙ ap (λ r. settle r (listen_frames hooks c (map quiet (g ∷ fs) ++ more)))
          (route_more (call hooks) f l d (head_room f (g ∷ fs) l room) opcode (ground arith) m.1
            (ground arith) (ground arith))
      ∙ continuations opcode (g ∷ fs) (holding opcode f l) h d refl (omega arith) m.2 cl.1
          (tail_room opcode f (g ∷ fs) l room)
      ∙ ap (λ frames. delivered opcode ((frames ++ f ∷ []) ++ kept (g ∷ fs)) l) idle.1

  module _ (l : Listener) (fs : Frames) (h : Hook) (listening : IsListening c l) (idle : IsIdle l)
      (no_data_hook : l.config.data_hook ≡ none) (clean : All (IsClean l.config.peer_is_client) fs)
      (room : HasRoomFor fs l) where
    -- From an idle listener, the frames of one text message (fragmented in any way, empty fragments
    -- included, within the budgets) run the Text hook once, with frames whose payloads join to the
    -- message, and leave the listener idle for what follows, if the joined bytes are valid UTF-8;
    -- if they are not, the run ends with ErrInvalidUTF8 and no hook is run.
    pub listen_frames_text :
        l.config.text ≡ some h
        → IsMessage 1 fs
        → (listen_frames hooks c (map quiet fs ++ more) l ≡ (
            if utf8_valid (payload fs)
            then listen_frames hooks c more
                (call hooks (frames_call h (held fs)) (reset_current_data_frames l))
            else finished (some (sentinel invalid_utf8)) (reset_current_data_frames l)))
          × (payload (held fs) ≡ payload fs)
    unfolding deliver
    listen_frames_text t m =
        let valid = valid_text_utf8_lem (held fs) ∙ ap utf8_valid (payload-held fs) in
        (
          whole 1 fs l (inl refl) listening idle no_data_hook m clean room
              ∙ elim (Bool-cases (utf8_valid (payload fs))) [
                | inl good ↦ simp (valid, good, t)
                | inr bad ↦ simp (valid, bad)
              ],
          payload-held fs,
        )

    -- The frames of one binary message run the Binary hook once in the same way, with no check of
    -- the bytes.
    pub listen_frames_binary :
        l.config.binary ≡ some h
        → IsMessage 2 fs
        → (listen_frames hooks c (map quiet fs ++ more) l
            ≡ listen_frames hooks c more
                (call hooks (frames_call h (held fs)) (reset_current_data_frames l)))
          × (payload (held fs) ≡ payload fs)
    unfolding deliver
    listen_frames_binary t m =
        (whole 2 fs l (inr refl) listening idle no_data_hook m clean room ∙ simp t, payload-held fs)
