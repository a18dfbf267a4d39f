-- ===== src/NextFrames.antt =====
-- example/example_helpers/ReadNextFrames.go: the loop that gathers frames until one has FIN set.
pub mod Gathered
pub mod Sent
use wlgows.Base.{ℕ, suc, zero, Option, none, some, [], ◌∷◌, ◌++◌, length, if◌then◌else◌}
use wlgows.Frame.{Frame}
use wlgows.Message.{Frames}
use wlgows.Read.{Reader, Read, returned, panicked}
use wlgows.Conn.{Conn, get_next_frame}

-- One round of the loop behind its call of GetNextFrame; `again` is the loop's next round.
unfoldable pub append_next :
    Frames → Read Frame → (Frames → Reader → Option (Read Frames)) → Option (Read Frames)
append_next frames (returned f none r) again =
    let frames' = frames ++ (f ∷ []) in
    if f.fin then some (returned frames' none r) else again frames' r
append_next frames (returned f (some e) r) again = some (returned frames (some e) r)
append_next frames panicked again = some panicked

-- The loop with a bound on its rounds; none says that the rounds are used up.
unfoldable pub read_rounds : ℕ → ℕ → Conn → Frames → Reader → Option (Read Frames)
unfolding append_next get_next_frame
read_rounds zero max_byte_length conn frames r = none
read_rounds (suc rounds) max_byte_length conn frames r =
    append_next frames (get_next_frame max_byte_length (record conn { reader = r }))
      (λ frames' r'. read_rounds rounds max_byte_length conn frames' r')

-- Every frame takes two bytes at least, so there is a round for every byte that arrives, and one more.
unfoldable pub read_next_frames : Conn → ℕ → Option (Read Frames)
unfolding read_rounds
read_next_frames conn max_byte_length =
    read_rounds (suc (length conn.reader.pending)) max_byte_length conn [] conn.reader
