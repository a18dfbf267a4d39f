-- ===== src/Listener/Run/Hooks.antt =====
-- What hooks and other goroutines can do to a listener, which is to replace its configuration and to
-- pause it, leaves the message in flight alone.
use wlgows.Base.{ℕ, refl, ◌∙◌, Option, none, some, List, [], ◌∷◌}
use wlgows.Errors.{Error}
use wlgows.Listener.{Call, Listener, set_config}
use wlgows.Listener.Route.Assembly.{SameAssembly}
use wlgows.Listener.Run.{
  Request, set_config_to, pause_with, pause_over, pause_listen, serve, serve_all, call,
}

same : (l : Listener) → SameAssembly l l
same l = record { frames = refl; count = refl; acc = refl; opcode = refl }

SameAssembly-trans : {k l m : Listener} → SameAssembly k l → SameAssembly l m → SameAssembly k m
SameAssembly-trans a b = record {
  frames = a.frames ∙ b.frames;
  count = a.count ∙ b.count;
  acc = a.acc ∙ b.acc;
  opcode = a.opcode ∙ b.opcode;
}

pause_over-SameAssembly :
    (c : Option ℕ) (e : Option Error) (l : Listener) → SameAssembly (pause_over c e l) l
unfolding pause_over
pause_over-SameAssembly none e l = same l
pause_over-SameAssembly (some c) e l = record {
  frames = refl;
  count = refl;
  acc = refl;
  opcode = refl;
}

serve-SameAssembly : (r : Request) (l : Listener) → SameAssembly (serve r l) l
unfolding serve set_config pause_listen
serve-SameAssembly (set_config_to config) l = record {
  frames = refl;
  count = refl;
  acc = refl;
  opcode = refl;
}
serve-SameAssembly (pause_with e) l = pause_over-SameAssembly l.pause_chan e l

pub serve_all-SameAssembly : (rs : List Request) (l : Listener) → SameAssembly (serve_all rs l) l
unfolding serve_all
serve_all-SameAssembly [] l = same l
serve_all-SameAssembly (r ∷ rs) l =
    SameAssembly-trans (serve_all-SameAssembly rs (serve r l)) (serve-SameAssembly r l)

pub call-SameAssembly :
    (hooks : Call → List Request) (c : Call) (l : Listener) → SameAssembly (call hooks c l) l
call-SameAssembly hooks c l = serve_all-SameAssembly (hooks c) l
