-- ===== src/Tests/Pings.antt =====
-- The ping loop at concrete inputs.
use wlgows.Base.{ℕ, false, none, ◌+◌, ◌≡◌, refl, true, [], ◌∷◌, ◌++◌}
use wlgows.Base.Bytes.{Bytes}
use wlgows.Errors.{eof, ok}
use wlgows.Writer.Laws.{healthy}
use wlgows.Conn.{Conn, conn_over}
use wlgows.PingLoop.{Beat, Tick, ended, loop}
use wlgows.Step.{returned}
use wlgows.Tests.Data.{key, hello}

abbrev client : Conn
client = conn_over (record { pending = []; ending = eof }) true (λ _. ok key) (healthy 16 [] [])

-- Another sender's pong, masked with a key of its own, in the first sleep.
abbrev pong : Bytes
pong = 0x8A ∷ 0x80 ∷ 1 ∷ 2 ∷ 3 ∷ 4 ∷ []

abbrev with_pong : Beat
with_pong = record {
  payload = hello;
  others = λ c. record c {
    draws = c.draws + 1;
    out = record c.out { wire = record c.out.wire { sent = c.out.wire.sent ++ pong } };
  };
  drawn = 1;
  sent = pong;
}

abbrev alone : Beat
alone = record { payload = []; others = λ c. c; drawn = 0; sent = [] }

-- A stop that is sent in the sleep is seen before the next trigger.
abbrev stopping : Tick ℕ
stopping = record { trigger = λ n. returned none (false, n + 1); asleep = λ n. (true, n) }

stopped_asleep : loop (stopping ∷ stopping ∷ []) 0 ≡ ended 1
unfolding loop
stopped_asleep = refl
