-- ===== src/Http/Message.antt =====
-- An HTTP/1.1 message as RFC 7230, 3 has it read: lines that end in CR LF, a start line of words, fields
-- up to an empty line. It is what net/http's parsers make of the bytes that the handshakes send.
pub mod Laws
use wlgows.Base.{ℕ, Bool, true, false, ◌&&◌, ◌||◌, List, [], ◌∷◌, ◌==◌, drop, if◌then◌else◌}
use wlgows.Base.Bytes.{Bytes}
use wlgows.Http.Text.{same}
use wlgows.Http.Fields.{canonical, first_of}

-- The text in front of the first `c`, and the text behind it.
unfoldable pub before : ℕ → Bytes → Bytes
before c [] = []
before c (d ∷ s) = if d == c then [] else d ∷ before c s

unfoldable pub behind : ℕ → Bytes → Bytes
behind c [] = []
behind c (d ∷ s) = if d == c then s else behind c s

abbrev pub put_first : ℕ → List Bytes → List Bytes
put_first c [] = (c ∷ []) ∷ []
put_first c (line ∷ rest) = (c ∷ line) ∷ rest

-- The lines, each without its LF.
unfoldable pub lines : Bytes → List Bytes
lines [] = []
lines (c ∷ s) = if c == 10 then [] ∷ lines s else put_first c (lines s)

-- The field lines: those in front of the empty one.
unfoldable pub field_lines : List Bytes → List Bytes
field_lines [] = []
field_lines (line ∷ rest) = if same line (13 ∷ []) then [] else line ∷ field_lines rest

-- The lines behind the empty one: the body's.
unfoldable pub body_lines : List Bytes → List Bytes
body_lines [] = []
body_lines (line ∷ rest) = if same line (13 ∷ []) then rest else body_lines rest

-- Optional white space: spaces and tabs.
abbrev pub is_ows : ℕ → Bool
is_ows c = c == 32 || c == 9

unfoldable pub trim_left : Bytes → Bytes
trim_left [] = []
trim_left (c ∷ s) = if is_ows c then trim_left s else c ∷ s

abbrev pub none_left : Bytes → Bool
none_left [] = true
none_left (c ∷ s) = false

unfoldable pub trim_right : Bytes → Bytes
trim_right [] = []
trim_right (c ∷ s) = let t = trim_right s in if none_left t && is_ows c then [] else c ∷ t

unfoldable pub trimmed : Bytes → Bytes
unfolding trim_left trim_right
trimmed s = trim_right (trim_left s)

-- A field's value is what stands behind the colon, without the white space around it.
unfoldable pub field_value : Bytes → Bytes
unfolding behind before trimmed
field_value line = trimmed (before 13 (behind b':' line))

unfoldable pub values_in : Bytes → List Bytes → List Bytes
unfolding before field_value
values_in key [] = []
values_in key (line ∷ rest) =
    let more = values_in key rest in
    if same (canonical (before b':' line)) (canonical key) then field_value line ∷ more else more

-- The values that the message has for a key, in their order.
unfoldable pub message_values : Bytes → Bytes → List Bytes
unfolding values_in lines field_lines
message_values m key = values_in key (field_lines (drop 1 (lines m)))

-- The three words of the start line, the last up to the CR.
unfoldable pub start_line : Bytes → Bytes
unfolding lines
start_line m = first_of (lines m)

unfoldable pub first_word : Bytes → Bytes
unfolding start_line before
first_word m = before b' ' (start_line m)

unfoldable pub second_word : Bytes → Bytes
unfolding start_line before behind
second_word m = before b' ' (behind b' ' (start_line m))

unfoldable pub third_word : Bytes → Bytes
unfolding start_line before behind
third_word m = before 13 (behind b' ' (behind b' ' (start_line m)))

unfoldable pub message_body_lines : Bytes → List Bytes
unfolding lines body_lines
message_body_lines m = body_lines (drop 1 (lines m))
