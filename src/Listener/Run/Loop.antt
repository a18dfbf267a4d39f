-- ===== src/Listener/Run/Loop.antt =====
-- One round of the read loop when nobody pauses it: the frame is validated and routed, and the next
-- round goes on from there.
use wlgows.Base.{
  ℕ, zero, suc, ◌≡◌, inl, inr, refl, ap, false, none, some, List, [], ◌∷◌, Bool-cases, ltb,
  get_elem?, set,
}
use wlgows.Errors.{ok}
use wlgows.Frame.{Frame}
use wlgows.Listener.{Call, Chan, Listener, validate_frame}
use wlgows.Listener.Route.{route_frame}
use wlgows.Listener.Run.{
  Request, Round, update_chan, poll_pause, receive, serve_all, call, settle, listen_frames,
}

abbrev pub open_chan : Chan
open_chan = record { held = none; closed = false }

-- The channel of the run is the one that a pause would signal, and nobody has yet.
abbrev pub IsListening : ℕ → Listener → Type 0
IsListening c l = get_elem? l.chans c ≡ some open_chan

-- A round in which the connection hands over `f` and nobody calls anything.
abbrev pub quiet : Frame → Round
quiet f = record { before = []; deadline = none; during = []; next_frame = λ _. ok f }

set-get_elem? {ℓ} :
    {A : Type ℓ} (xs : List A) (i : ℕ) (x : A) → get_elem? xs i ≡ some x → set xs i x ≡ xs
set-get_elem? [] i x e = refl
set-get_elem? (y ∷ xs) zero x e = cc
set-get_elem? (y ∷ xs) (suc i) x e = ap (λ zs. y ∷ zs) (set-get_elem? xs i x e)

poll_quiet : (c : ℕ) (l : Listener) → IsListening c l → poll_pause c l ≡ (none, l)
unfolding poll_pause
poll_quiet c l h =
    let same : update_chan c (λ ch. record ch { held = none }) l.chans ≡ l.chans =
      rw (h, update_chan) (set-get_elem? l.chans c open_chan h) in
    rw (h, receive) (λ i. (none, record l { chans = same i }))

module _ (hooks : Call → List Request) where
  pub listen_frames-quiet :
      (c : ℕ) (f : Frame) (rounds : List Round) (l : Listener)
      → IsListening c l
      → validate_frame l f ≡ none
      → listen_frames hooks c (quiet f ∷ rounds) l
        ≡ settle (route_frame (call hooks) f l) (listen_frames hooks c rounds)
  unfolding listen_frames serve_all
  listen_frames-quiet c f rounds l h v =
      rw (poll_quiet c l h) (elim (Bool-cases (ltb 0 l.config.frame_read_timeout)) [
        | inl armed ↦ simp (armed, v)
        | inr unarmed ↦ simp (unarmed, v)
      ])
