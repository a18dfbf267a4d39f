-- ===== src/Listener/Run/Delivery.antt =====
-- A whole message through the read loop: its fragments, frame by frame, up to the hook.
use wlgows.Base.{
  ℕ, ◌+◌, ◌≤◌, ◌<◌, ◌≡◌, ◌⊎◌, inl, inr, refl, ap, sym, ◌∙◌, Bool, true, false, not, ◌&&◌, none, [],
  ◌∷◌, ◌++◌, arith, length, append-nil, Bool-cases, ◌==◌, if◌then◌else◌, eq-nil_of_length,
}
use wlgows.Opcode.{is_control_opcode}
use wlgows.Frame.{Frame}
use wlgows.Message.{Frames}
use wlgows.Message.Laws.{payload, bytes-eq-payload}
use wlgows.Utf8.{utf8_valid}
use wlgows.Listener.{Listener, validate_frame, valid_text_utf8}
use wlgows.Listener.Rules.{IsUnreserved, validate_frame-IsLegal}
use wlgows.Listener.Route.Whole.{Fits}

-- What an honest peer sends: no reserved bit, and masked exactly by a client.
abbrev pub IsClean : Bool → Frame → Type 0
IsClean peer_is_client f = IsUnreserved f × (f.mask ≡ peer_is_client)

-- The continuations of an open message, FIN on the last and only there (5.4).
abbrev pub Continues : Frames → Type 0
Continues [] = ⊥
Continues (f ∷ []) = (f.opcode ≡ 0) × (f.fin ≡ true)
Continues (f ∷ g ∷ fs) = (f.opcode ≡ 0) × (f.fin ≡ false) × Continues (g ∷ fs)

-- A message: its first frame has its opcode, and is the last too if it is the only one.
abbrev pub IsMessage : ℕ → Frames → Type 0
IsMessage opcode [] = ⊥
IsMessage opcode (f ∷ []) = (f.opcode ≡ opcode) × (f.fin ≡ true)
IsMessage opcode (f ∷ g ∷ fs) = (f.opcode ≡ opcode) × (f.fin ≡ false) × Continues (g ∷ fs)

-- The continuations that are kept: an empty one that is not the last is dropped.
unfoldable pub kept : Frames → Frames
kept [] = []
kept (f ∷ fs) = if not f.fin && length f.payload_data == 0 then kept fs else f ∷ kept fs

-- The frames that the hook is handed.
unfoldable pub held : Frames → Frames
held [] = []
held (f ∷ fs) = f ∷ kept fs

pub payload-kept : (fs : Frames) → payload (kept fs) ≡ payload fs
unfolding kept payload
payload-kept [] = refl
payload-kept (f ∷ fs) = elim (Bool-cases (not f.fin && length f.payload_data == 0)) [
  | inl empty ↦
      let e : f.payload_data ≡ [] = eq-nil_of_length f.payload_data (ground arith) in
      simp empty (payload-kept fs ∙ ap (λ p. p ++ payload fs) (sym e))
  | inr full ↦ simp full (ap (λ p. f.payload_data ++ p) (payload-kept fs))
]

-- Nothing of the message is lost by the drop.
pub payload-held : (fs : Frames) → payload (held fs) ≡ payload fs
unfolding held payload
payload-held [] = refl
payload-held (f ∷ fs) = ap (λ p. f.payload_data ++ p) (payload-kept fs)

-- The joined check is the check of the joined bytes.
pub valid_text_utf8_lem : (fs : Frames) → valid_text_utf8 fs ≡ utf8_valid (payload fs)
unfolding valid_text_utf8 payload
valid_text_utf8_lem [] = rw (bytes-eq-payload [])
valid_text_utf8_lem (f ∷ []) = ap utf8_valid (sym (append-nil f.payload_data))
valid_text_utf8_lem (f ∷ g ∷ fs) = ap utf8_valid (bytes-eq-payload (f ∷ g ∷ fs))

-- The rest of a message has room in both budgets.
abbrev pub HasRoomFor : Frames → Listener → Type 0
HasRoomFor fs l =
    Fits l.config.max_msg_payload_byte_len (l.current_data_acc_length + length (payload fs))
    × Fits l.config.max_msg_frame_count (l.current_data_frame_count + length fs)

pub Fits-le : (limit m n : ℕ) → m ≤ n → Fits limit n → Fits limit m
Fits-le limit m n h (inl z, w) = (inl z, omega arith)
Fits-le limit m n h (inr b, w) = (inr (omega arith), omega arith)

pub continuation_passes :
    (l : Listener) (f : Frame)
    → IsClean l.config.peer_is_client f
    → f.opcode ≡ 0
    → 0 < l.current_data_frame_count
    → validate_frame l f ≡ none
unfolding is_control_opcode
continuation_passes l f clean o opened =
    (validate_frame-IsLegal l f).1 (clean.0, clean.1, inr (inl (inl (o, opened))))

pub opening_passes :
    (l : Listener) (f : Frame)
    → IsClean l.config.peer_is_client f
    → (f.opcode ≡ 1) ⊎ (f.opcode ≡ 2)
    → l.current_data_frame_count ≡ 0
    → validate_frame l f ≡ none
opening_passes l f clean o idle =
    (validate_frame-IsLegal l f).1 (clean.0, clean.1, inr (inl (inr (o, idle))))
