-- ===== src/Listener/Run/Claim.antt =====
-- claimListen and pauseListen: who may run, what ends a run, and what a run is told.
use wlgows.Base.{
  ℕ, zero, suc, ◌≡◌, refl, ap, ◌∙◌, Bool, true, false, Option, none, some, List, [], ◌∷◌, ◌++◌,
  arith, length, get_elem?, set, All, ◌<◌,
}
use wlgows.Errors.{Error, Result, ok, err, sentinel, listener_is_listening}
use wlgows.Listener.{Listener, Call, set_config}
use wlgows.Listener.Run.{
  claim_over, claim_listen, listen, start_run, finished, Round, Request, set_config_to, pause_with,
  serve_all, pause_over, pause_listen, signal, update_chan, receive, poll_pause,
}
use wlgows.Listener.Run.Loop.{open_chan, IsListening}

get_elem?-append_new {ℓ} :
    {A : Type ℓ} (xs : List A) (x : A) → get_elem? (xs ++ x ∷ []) (length xs) ≡ some x
get_elem?-append_new [] x = refl
get_elem?-append_new (y ∷ xs) x = get_elem?-append_new xs x

get_elem?-set_same {ℓ} :
    {A : Type ℓ} (xs : List A) (i : ℕ) (x y : A)
    → get_elem? xs i ≡ some x
    → get_elem? (set xs i y) i ≡ some y
get_elem?-set_same [] i x y e = cc
get_elem?-set_same (z ∷ xs) zero x y e = refl
get_elem?-set_same (z ∷ xs) (suc i) x y e = get_elem?-set_same xs i x y e

-- The run that holds the claim, and whose channel is untouched.
abbrev pub IsClaimedBy : ℕ → Listener → Type 0
IsClaimedBy c l = (l.pause_chan ≡ some c) × IsListening c l

chan_after_pause :
    (c : ℕ) (e : Option Error) (l : Listener)
    → IsClaimedBy c l
    → get_elem? (pause_listen e l).chans c ≡ some (signal e open_chan)
unfolding pause_listen update_chan
chan_after_pause c e l h =
    simp h.0
      (rw (h.1, update_chan) (get_elem?-set_same l.chans c open_chan (signal e open_chan) h.1))

receive-signal : (e : Option Error) → receive (some (signal e open_chan)) ≡ some e
unfolding receive signal
receive-signal none = refl
receive-signal (some e) = refl

pause_chan-pause_over :
    (p : Option ℕ) (e : Option Error) (l : Listener)
    → l.pause_chan ≡ p
    → (pause_over p e l).pause_chan ≡ none
unfolding pause_over
pause_chan-pause_over none e l h = h
pause_chan-pause_over (some c) e l h = refl

-- Whatever it is called with, a pause leaves no claim.
pause_chan-pause_listen : (e : Option Error) (l : Listener) → (pause_listen e l).pause_chan ≡ none
unfolding pause_listen
pause_chan-pause_listen e l = pause_chan-pause_over l.pause_chan e l refl

pause_idle : (e : Option Error) (l : Listener) → l.pause_chan ≡ none → pause_listen e l ≡ l
unfolding pause_listen
pause_idle e l h = simp h

claimed_exactly :
    (p : Option ℕ) (b : Bool) (l m : Listener) (c : ℕ)
    → claim_over p b l ≡ (ok c, m)
    → (p ≡ none) × (b ≡ true) × IsClaimedBy c m
unfolding claim_over
claimed_exactly (some d) b l m c e = absurd (ground arith)
claimed_exactly none false l m c e = absurd (ground arith)
claimed_exactly none true l m c e =
    (refl, refl, (ground arith, ground (arith, get_elem?-append_new l.chans open_chan)))

refused :
    (p : Option ℕ) (b : Bool) (l : Listener) (c : ℕ)
    → p ≡ some c
    → claim_over p b l ≡ (err (sentinel listener_is_listening), l)
unfolding claim_over
refused none b l c e = absurd (ground arith)
refused (some d) b l c e = refl

has_conn-pause_over :
    (p : Option ℕ) (e : Option Error) (l : Listener) → (pause_over p e l).has_conn ≡ l.has_conn
unfolding pause_over
has_conn-pause_over none e l = refl
has_conn-pause_over (some c) e l = refl

claim_free :
    (p : Option ℕ) (b : Bool) (l : Listener)
    → p ≡ none
    → b ≡ true
    → (m : Listener) × (claim_over p b l ≡ (ok (length l.chans), m))
unfolding claim_over
claim_free (some c) b l e f = absurd (ground arith)
claim_free none false l e f = absurd (ground arith)
claim_free none true l e f = (_, refl)

has_conn-claim_over :
    (p : Option ℕ) (b : Bool) (l m : Listener) (c : ℕ)
    → claim_over p b l ≡ (ok c, m)
    → m.has_conn ≡ l.has_conn
unfolding claim_over
has_conn-claim_over (some d) b l m c e = absurd (ground arith)
has_conn-claim_over none false l m c e = absurd (ground arith)
has_conn-claim_over none true l m c e = ground arith

-- What others may call while a run goes on, save a pause.
abbrev pub IsNoPause : Request → Type 0
IsNoPause (set_config_to config) = Unit {0}
IsNoPause (pause_with e) = ⊥

serve_all_kept :
    (rs : List Request) (c : ℕ) (m : Listener)
    → All IsNoPause rs
    → IsClaimedBy c m
    → IsClaimedBy c (serve_all rs m) × ((serve_all rs m).has_conn ≡ m.has_conn)
unfolding serve_all set_config
serve_all_kept [] c m h claimed = (claimed, refl)
serve_all_kept (set_config_to config ∷ rs) c m h claimed =
    serve_all_kept rs c (set_config config m) h.1 claimed
serve_all_kept (pause_with e ∷ rs) c m h claimed = absurd h.0

get_elem?-bound {ℓ} :
    {A : Type ℓ} (xs : List A) (i : ℕ) (x : A) → get_elem? xs i ≡ some x → i < length xs
get_elem?-bound [] i x e = cc
get_elem?-bound (y ∷ xs) zero x e = omega arith
get_elem?-bound (y ∷ xs) (suc i) x e = omega (arith, get_elem?-bound xs i x e)

refused_start :
    (hooks : Call → List Request) (rounds : List Round) (l : Listener) (x : Result ℕ × Listener)
    → x ≡ (err (sentinel listener_is_listening), l)
    → start_run hooks x rounds ≡ finished (some (sentinel listener_is_listening)) l
unfolding start_run
refused_start hooks rounds l x e = ap (λ (y : Result ℕ × Listener). start_run hooks y rounds) e

-- A claim is granted only when there is a connection and no claim is out. While it lasts, whatever
-- configurations are set meanwhile, its run is not told to stop, and every other Listen is refused and
-- changes nothing, whatever frames are ahead; once the run is paused, the next claim is granted, with
-- another channel.
pub claim_listen_exclusive :
    (l m : Listener) (c : ℕ) (rs : List Request) (hooks : Call → List Request) (rounds : List Round)
    (e : Option Error)
    → claim_listen l ≡ (ok c, m)
    → All IsNoPause rs
    → let m' = serve_all rs m in
      (l.pause_chan ≡ none)
      × (l.has_conn ≡ true)
      × ((poll_pause c m').0 ≡ none)
      × (listen hooks rounds m' ≡ finished (some (sentinel listener_is_listening)) m')
      × (d : ℕ) × (m'' : Listener) × (claim_listen (pause_listen e m') ≡ (ok d, m''))
      × (c < d)
unfolding claim_listen poll_pause listen
claim_listen_exclusive l m c rs hooks rounds e granted quiet =
    let m' = serve_all rs m in
    let (free, conn, claimed) = claimed_exactly l.pause_chan l.has_conn l m c granted in
    let (kept, same_conn) = serve_all_kept rs c m quiet claimed in
    let paused = pause_listen e m' in
    let still : paused.has_conn ≡ true =
      unfold pause_listen in
      (has_conn-pause_over m'.pause_chan e m')
      ∙ same_conn
      ∙ has_conn-claim_over l.pause_chan l.has_conn l m c granted
      ∙ conn in
    let (m'', again) =
      claim_free paused.pause_chan paused.has_conn paused (pause_chan-pause_listen e m') still in
    (
      free,
      conn,
      rw kept.1 (unfold receive in refl),
      refused_start hooks rounds m' (claim_listen m')
          (refused m'.pause_chan m'.has_conn m' c kept.0),
      length paused.chans,
      m'',
      again,
      get_elem?-bound paused.chans c (signal e open_chan) (chan_after_pause c e m' kept),
    )

-- The first pause of a run decides: its loop is told that reason (nil included) the next time it
-- looks, the claim is released, and a second pause changes nothing, its error included.
pub pause_listen_first :
    (c : ℕ) (e e' : Option Error) (l : Listener)
    → IsClaimedBy c l
    → ((poll_pause c (pause_listen e l)).0 ≡ some e)
      × ((pause_listen e l).pause_chan ≡ none)
      × (pause_listen e' (pause_listen e l) ≡ pause_listen e l)
unfolding poll_pause
pause_listen_first c e e' l h = (
  rw (chan_after_pause c e l h) (receive-signal e),
  pause_chan-pause_listen e l,
  pause_idle e' (pause_listen e l) (pause_chan-pause_listen e l),
)

-- A run that was paused may still be in its read; the next Listen is granted a claim all the same,
-- so two loops share the connection. When the first returns, the pause that it defers closes the
-- channel of the second, which is told to stop, with nil, though nobody paused it, and its claim is
-- gone.
pub stale_release_stops_next_run :
    (c : ℕ) (e : Option Error) (l : Listener)
    → IsClaimedBy c l
    → l.has_conn ≡ true
    → (d : ℕ) × (m : Listener) × (claim_listen (pause_listen e l) ≡ (ok d, m))
      × ((poll_pause d m).0 ≡ none)
      × ((poll_pause d (pause_listen none m)).0 ≡ some none)
      × ((pause_listen none m).pause_chan ≡ none)
unfolding claim_listen poll_pause
stale_release_stops_next_run c e l h conn =
    let paused = pause_listen e l in
    let (m, granted) =
      claim_free paused.pause_chan paused.has_conn paused (pause_chan-pause_listen e l)
        (unfold pause_listen in (has_conn-pause_over l.pause_chan e l ∙ conn)) in
    let d = length paused.chans in
    let claimed = (claimed_exactly _ _ paused m d granted).2 in
    (
      d,
      m,
      granted,
      rw claimed.1 (unfold receive in refl),
      rw (chan_after_pause d none m claimed) (receive-signal none),
      pause_chan-pause_listen none m,
    )
