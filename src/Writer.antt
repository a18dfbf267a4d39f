-- ===== src/Writer.antt =====
-- bufio.Writer over a connection's write side, as the package uses it: Size, Available, Flush,
-- Write and NewWriterSize. The connection follows a script of what each of its Writes does.
pub mod Laws
pub mod Ends
use wlgows.Base.{
  ℕ, ◌+◌, ◌-◌, ◌≤◌, ◌<◌, Bool, true, false, Option, none, some, List, [], ◌∷◌, ◌++◌, ltb, leb, ◌==◌,
  length, take, drop, max, if◌then◌else◌,
}
use wlgows.Base.Bytes.{Bytes}
use wlgows.Errors.{Error}
use wlgows.Step.{Step, returned, stopped, ◌>>=◌}

-- What one Write of the connection does: takes all, or takes some bytes and fails.
pub data Fate : Type 0 where
  takes_all : Fate
  fails_after : ℕ → Error → Fate

-- What the peer is sent, and the fates of the Writes to come; behind them, all succeed.
pub record Wire : Type 0 where
  pub sent : Bytes
  pub fates : List Fate

pub record Writer : Type 0 where
  pub size : ℕ
  pub buf : Bytes
  pub failed : Option Error

-- A writer and the connection under it.
pub record Out : Type 0 where
  pub writer : Writer
  pub wire : Wire

unfoldable pub available : Writer → ℕ
available w = w.size - length w.buf

-- bufio.NewWriterSize: a size of 0 or less gives the default, and the package asks for 14.
abbrev pub new_writer_size : ℕ → Writer
new_writer_size n = record { size = n; buf = []; failed = none }

-- conn.Write(p): how many bytes were taken, and the error.
unfoldable pub wire_write : Bytes → List Fate → Wire → (ℕ × Option Error) × Wire
wire_write p [] w = ((length p, none), record w { sent = w.sent ++ p })
wire_write p (takes_all ∷ fates) w =
    ((length p, none), record { sent = w.sent ++ p; fates = fates })
wire_write p (fails_after n e ∷ fates) w =
    ((length (take n p), some e), record { sent = w.sent ++ take n p; fates = fates })

-- The writer after a Write of its buffer: an error sticks, with what was not taken.
unfoldable pub flushed : (ℕ × Option Error) × Wire → Writer → Step Out
flushed ((n, none), wire) w = returned none (record { writer = record w { buf = [] }; wire = wire })
flushed ((n, some e), wire) w =
    returned (some e)
      (record { writer = record w { buf = drop n w.buf; failed = some e }; wire = wire })

unfoldable pub flush_clear : Option Error → Out → Step Out
unfolding wire_write flushed
flush_clear (some e) o = returned (some e) o
flush_clear none o =
    if length o.writer.buf == 0
    then returned none o
    else flushed (wire_write o.writer.buf o.wire.fates o.wire) o.writer

unfoldable pub flush : Out → Step Out
unfolding flush_clear
flush o = flush_clear o.writer.failed o

-- A Write past an empty buffer goes straight to the connection; what fits is kept.
unfoldable pub written : (ℕ × Option Error) × Wire → Writer → Step Out
written ((n, none), wire) w = returned none (record { writer = w; wire = wire })
written ((n, some e), wire) w =
    returned (some e) (record { writer = record w { failed = some e }; wire = wire })

unfoldable pub write_empty : Bytes → Out → Step Out
unfolding wire_write written
write_empty p o =
    if leb (length p) o.writer.size
    then returned none (record o { writer = record o.writer { buf = p } })
    else written (wire_write p o.wire.fates o.wire) o.writer

-- The loop of Write runs at most twice: it fills the buffer and flushes, and then the buffer is
-- empty. The count of bytes that Write returns is not used by the package.
unfoldable pub write_clear : Option Error → Bytes → Out → Step Out
unfolding available
write_clear (some e) p o = returned (some e) o
write_clear none p o =
    let room = available o.writer in
    if leb (length p) room
    then returned none (record o { writer = record o.writer { buf = o.writer.buf ++ p } })
    else if length o.writer.buf == 0
    then write_empty p o
    else flush (record o { writer = record o.writer { buf = o.writer.buf ++ take room p } })
      >>= write_empty (drop room p)

unfoldable pub write : Bytes → Out → Step Out
unfolding write_clear
write p o = write_clear o.writer.failed p o
