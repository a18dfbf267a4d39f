-- ===== src/Tests/Gathering.antt =====
-- ReadNextFrames on bytes, and its theorems at concrete inputs.
use wlgows.Base.{ℕ, ◌≡◌, refl, true, false, none, some, [], ◌∷◌, ◌++◌, arith, inl, inr}
use wlgows.Base.Bytes.{Bytes}
use wlgows.Errors.{ok, external, eof, unexpected_eof}
use wlgows.Frame.{Frame, zero_frame, get_max_payload_length}
use wlgows.Message.{Frames, bytes}
use wlgows.Read.{
  Read, returned, get_frame_from_reader, read_from_reader, parse_first_section, rest_header_length,
  read_rest_header, read_payload, store_payload,
}
use wlgows.Read.Header.{reader}
use wlgows.Step.{returned}
use wlgows.Writer.Laws.{healthy}
use wlgows.Conn.{Conn, conn_over}
use wlgows.Conn.Send.{send_data}
use wlgows.Conn.Send.Fragments.{wires, CanSend}
use wlgows.Listener.Run.Delivery.{IsMessage}
use wlgows.NextFrames.{read_next_frames}
use wlgows.NextFrames.Gathered.{Gathered, read_next_frames-Gathered}
use wlgows.NextFrames.Sent.{send_data-read_next_frames}
use wlgows.Tests.Data.{key, hello, key-IsKey, hello-IsBytes}

-- A side that reads these bytes, and then the connection's end.
abbrev reading : Bytes → Conn
reading arriving = conn_over (reader arriving eof) false (λ _. ok key) (healthy 16 [] [])

abbrev part : ℕ → Frame
part byte = record zero_frame { payload_length = 1; payload_data = byte ∷ [] }

abbrev first : Frame
first = record (part 0x61) { opcode = 1 }

abbrev last : Frame
last = record (part 0x62) { fin = true }

-- Two frames of a text, and the first byte of what follows.
abbrev two_frames : Bytes
two_frames = 0x01 ∷ 0x01 ∷ 0x61 ∷ 0x80 ∷ 0x01 ∷ 0x62 ∷ 0x89 ∷ []

two_frames_read :
    read_next_frames (reading two_frames) 0
    ≡ some (returned (first ∷ last ∷ []) none (reader (0x89 ∷ []) eof))
unfolding read_next_frames get_frame_from_reader read_from_reader parse_first_section
    rest_header_length read_rest_header read_payload store_payload get_max_payload_length
two_frames_read = refl

-- The stream ends inside the second frame: the first is returned with the error.
cut_read :
    read_next_frames (reading (0x01 ∷ 0x01 ∷ 0x61 ∷ 0x80 ∷ [])) 0
    ≡ some (returned (first ∷ []) (some (external unexpected_eof)) (reader [] eof))
unfolding read_next_frames get_frame_from_reader read_from_reader parse_first_section
    rest_header_length read_rest_header read_payload store_payload get_max_payload_length
cut_read = refl

read_next_frames-Gathered_example :
    (x : Read Frames) × (read_next_frames (reading two_frames) 10 ≡ some x)
    × Gathered 10 (reader two_frames eof) x
read_next_frames-Gathered_example = read_next_frames-Gathered (reading two_frames) 10

abbrev client : Conn
client = conn_over (reader [] eof) true (λ _. ok key) (healthy 16 (1 ∷ []) [])

client-CanSend : CanSend client (λ _. key) 16
client-CanSend = record {
  key = λ _. key-IsKey;
  drawn = inr (λ _. refl);
  size = omega arith;
  unclosed = refl;
}

-- Chunks of two bytes, read with a limit of 100.
send_data-read_next_frames_example :
    (fs : Frames) × (draws : ℕ) × (send_data 1 hello 2 client
      ≡ returned none
          (record client { draws = draws; out = healthy 16 [] (([] ++ (1 ∷ [])) ++ wires fs) }))
    × (read_next_frames (reading (wires fs ++ two_frames)) 100
        ≡ some (returned fs none (reader two_frames eof)))
    × IsMessage 1 fs
    × (bytes fs ≡ hello)
send_data-read_next_frames_example =
    send_data-read_next_frames client (reading []) (λ _. key) 16 1 hello 2 (1 ∷ []) [] 100
      two_frames eof client-CanSend refl (omega arith) refl (inl refl) hello-IsBytes (omega arith)
      (inr (omega arith))
