-- ===== src/Message.antt =====
-- Frames.go and FramesInclude.go: one message as the frames that it arrived in.
pub mod Laws
use wlgows.Base.{ℕ, ◌+◌, Bool, true, false, not, List, [], ◌∷◌, ◌++◌, length, if◌then◌else◌}
use wlgows.Base.Bytes.{Bytes}
use wlgows.Frame.{Frame}

abbrev pub Frames : Type 0
Frames = List Frame

-- for _, frame := range f { total += len(frame.PayloadData) }
unfoldable pub byte_len_from : ℕ → Frames → ℕ
byte_len_from total [] = total
byte_len_from total (frame ∷ f) = byte_len_from (total + length frame.payload_data) f

unfoldable pub byte_len : Frames → ℕ
unfolding byte_len_from
byte_len = byte_len_from 0

-- for _, frame := range f { result = append(result, frame.PayloadData...) }
unfoldable pub bytes_from : Bytes → Frames → Bytes
bytes_from result [] = result
bytes_from result (frame ∷ f) = bytes_from (result ++ frame.payload_data) f

unfoldable pub bytes : Frames → Bytes
unfolding bytes_from
bytes = bytes_from []

-- The builder writes the payloads in the same order; a Go string is its bytes.
unfoldable pub string : Frames → Bytes
unfolding bytes_from
string = bytes_from []

unfoldable pub is_included_masked_frame : Frames → Bool
is_included_masked_frame [] = false
is_included_masked_frame (frame ∷ f) = if frame.mask then true else is_included_masked_frame f

unfoldable pub is_included_unmasked_frame : Frames → Bool
is_included_unmasked_frame [] = false
is_included_unmasked_frame (frame ∷ f) =
    if not frame.mask then true else is_included_unmasked_frame f
