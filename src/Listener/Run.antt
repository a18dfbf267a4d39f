-- ===== src/Listener/Run.antt =====
-- ListenerListen.go: claiming a listener, the read loop, and pausing it. The mutex makes a claim
-- and a pause one step each. What happens outside the loop is a script: for each round what other
-- goroutines call before the loop looks for a pause and while it waits for a frame, and what the
-- connection answers.
pub mod Hooks
pub mod Claim
pub mod Loop
pub mod Delivery
pub mod Messages
use wlgows.Base.{
  ℕ, ◌+◌, Bool, true, false, Option, none, some, List, [], ◌∷◌, ◌++◌, ltb, length, get_elem?, set,
  if◌then◌else◌,
}
use wlgows.Errors.{
  Error, Result, ok, err, sentinel, join, listener_is_listening, listener_conn_is_nil,
}
use wlgows.Frame.{Frame}
use wlgows.Listener.{
  Call, Chan, ListenerConfig, Listener, get_config, set_config, next_frame_byte_limit,
  validate_frame,
}
use wlgows.Listener.Route.{route_frame}

-- The channel that the run watches, or why there is no run.
unfoldable pub claim_over : Option ℕ → Bool → Listener → Result ℕ × Listener
claim_over (some c) has_conn l = (err (sentinel listener_is_listening), l)
claim_over none false l = (err (sentinel listener_conn_is_nil), l)
claim_over none true l = (
  ok (length l.chans),
  record l {
    chans = l.chans ++ (record { held = none; closed = false }) ∷ [];
    pause_chan = some (length l.chans);
  },
)

unfoldable pub claim_listen : Listener → Result ℕ × Listener
unfolding claim_over
claim_listen l = claim_over l.pause_chan l.has_conn l

-- pauseChan <- err, if err is not nil, and close(pauseChan). The channel is empty there.
unfoldable pub signal : Option Error → Chan → Chan
signal none c = record c { closed = true }
signal (some e) c = record c { held = some e; closed = true }

unfoldable pub update_chan : ℕ → (Chan → Chan) → List Chan → List Chan
update_chan i f chans = elim (get_elem? chans i) [ none ↦ chans | some c ↦ set chans i (f c) ]

unfoldable pub pause_over : Option ℕ → Option Error → Listener → Listener
unfolding signal update_chan
pause_over none e l = l
pause_over (some c) e l = record l { chans = update_chan c (signal e) l.chans; pause_chan = none }

unfoldable pub pause_listen : Option Error → Listener → Listener
unfolding pause_over
pause_listen e l = pause_over l.pause_chan e l

-- A receive from a channel, without waiting: a held error first, then nil once it is closed.
-- `none` is the `default` of the select.
unfoldable pub receive : Option Chan → Option (Option Error)
receive none = none
receive (some c) = elim c.held [
  | some e ↦ some (some e)
  | none ↦ if c.closed then some none else none
]

-- `case err := <-pauseChan`: what the receive takes is no longer held.
unfoldable pub poll_pause : ℕ → Listener → Option (Option Error) × Listener
unfolding receive update_chan
poll_pause c l = (
  receive (get_elem? l.chans c),
  record l { chans = update_chan c (λ ch. record ch { held = none }) l.chans },
)

-- What another goroutine, or a hook, may call on the listener.
pub data Request : Type 0 where
  set_config_to : ListenerConfig → Request
  pause_with : Option Error → Request

unfoldable pub serve : Request → Listener → Listener
serve (set_config_to config) l = set_config config l
serve (pause_with e) l = pause_listen e l

unfoldable pub serve_all : List Request → Listener → Listener
unfolding serve
serve_all [] l = l
serve_all (r ∷ rs) l = serve_all rs (serve r l)

-- One round of the loop, as the outside has it.
pub record Round : Type 0 where
  pub before : List Request
  pub deadline : Option Error
  pub during : List Request
  pub next_frame : ℕ → Result Frame

-- A run that has returned, or one that waits for what the script does not say yet.
pub data Run : Type 0 where
  finished : Option Error → Listener → Run
  waiting : Listener → Run

-- `if err != nil { return err }`, and the rest of the loop
abbrev pub settle : Option Error × Listener → (Listener → Run) → Run
settle (some e, l) rest = finished (some e) l
settle (none, l) rest = rest l

-- `case err := <-pauseChan: return err`
abbrev pub unless_paused : Option (Option Error) × Listener → (Listener → Run) → Run
unless_paused (some e, l) rest = finished e l
unless_paused (none, l) rest = rest l

-- A read that failed is joined with a pause that arrived meanwhile.
abbrev pub read_failed : Option (Option Error) × Listener → Error → Run
read_failed (some pause_err, l) e = finished (some (join pause_err e)) l
read_failed (none, l) e = finished (some e) l

module _ (hooks : Call → List Request) where
  abbrev pub call : Call → Listener → Listener
  call c = serve_all (hooks c)

  -- A frame that was read is validated and routed; `again` is the next round.
  unfoldable pub take_frame : Frame → Listener → (Listener → Run) → Run
  take_frame f l again = settle (validate_frame l f, l) (λ l'. settle (route_frame call f l') again)

  unfoldable pub take_answer : ℕ → Result Frame → Listener → (Listener → Run) → Run
  unfolding take_frame
  take_answer c (ok f) l again = take_frame f l again
  take_answer c (err e) l again = read_failed (poll_pause c l) e

  -- SetReadDeadline, only when a timeout is set; then the read, at the limit of this moment.
  unfoldable pub read_frame : ℕ → Round → Listener → (Listener → Run) → Run
  unfolding get_config take_answer
  read_frame c round l again =
      let deadline_error =
        if ltb 0 (get_config l).frame_read_timeout then round.deadline else none in
      settle (deadline_error, l)
        (λ l'.
          take_answer c (round.next_frame (next_frame_byte_limit l')) (serve_all round.during l')
            again)

  unfoldable pub listen_frames : ℕ → List Round → Listener → Run
  unfolding read_frame
  listen_frames c [] l = waiting l
  listen_frames c (round ∷ rounds) l =
      unless_paused (poll_pause c (serve_all round.before l))
        (λ l'. read_frame c round l' (listen_frames c rounds))

  -- `defer di.pauseListen(nil)`, however the loop ended
  unfoldable pub release : Run → Run
  release (finished e l) = finished e (pause_listen none l)
  release (waiting l) = waiting l

  unfoldable pub start_run : Result ℕ × Listener → List Round → Run
  unfolding listen_frames release
  start_run (err e, l) rounds = finished (some e) l
  start_run (ok c, l) rounds = release (listen_frames c rounds l)

  unfoldable pub listen : List Round → Listener → Run
  unfolding start_run
  listen rounds l = start_run (claim_listen l) rounds
