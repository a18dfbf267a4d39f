-- ===== src/Tests/Frames.antt =====
-- Frames, masking, reading and close bodies at concrete inputs.
use wlgows.Base.{ℕ, ◌≡◌, ◌≢◌, true, none, some, [], ◌∷◌, ◌++◌, arith, inr, ltb, ◌&&◌, if◌then◌else◌}
use wlgows.Base.Bytes.{Bytes}
use wlgows.Frame.{zero_frame, Frame, append_sealed_header, get_max_payload_length}
use wlgows.Read.{
  Reader, returned, panicked, max_alloc, io_read_full, store_payload, get_frame_from_reader,
}
use wlgows.Errors.{ok, eof, sentinel, wrapped, header_declares, frame_byte_length_exceeded}
use wlgows.Opcode.{opcode_close}
use wlgows.Frame.Mask.{mask_payload}
use wlgows.Frame.Mask.Laws.{mask_from, mask_payload-eq-mask_from}
use wlgows.Control.{ClosePayload, new_control_frame, close_payload_bytes, get_close_payload}
use wlgows.Control.Close.{get_close_payload-new_control_frame}
use wlgows.Read.Header.{reader, headed}
use wlgows.Read.Laws.{wire, get_frame_from_reader-wire}
use wlgows.Read.Guard.{
  get_frame_from_reader-ne-panicked, get_frame_from_reader_limit, unlimited_panics,
}
use wlgows.Tests.Data.{
  key, hello, hello_frame, key-IsKey, hello_frame-IsSettled, nine_bytes, nine_bytes-IsBytes,
  huge_frame, huge_frame-IsHeader, huge_frame_declares,
}

-- The masked bytes of RFC 6455 5.7.
mask_hello : mask_payload hello key ≡ 0x7f ∷ 0x9f ∷ 0x4d ∷ 0x51 ∷ 0x58 ∷ []
unfolding mask_payload
mask_hello = ground arith

mask_payload-eq-mask_from_example : mask_payload nine_bytes key ≡ mask_from 0 nine_bytes key
mask_payload-eq-mask_from_example =
    mask_payload-eq-mask_from nine_bytes key key-IsKey nine_bytes-IsBytes

get_frame_from_reader-wire_example :
    get_frame_from_reader (reader (wire hello_frame ++ (0x8a ∷ 0 ∷ [])) eof) 125
    ≡ returned hello_frame none (reader (0x8a ∷ 0 ∷ []) eof)
get_frame_from_reader-wire_example =
    get_frame_from_reader-wire hello_frame (0x8a ∷ 0 ∷ []) eof 125 hello_frame-IsSettled
      (inr (omega arith))

get_frame_from_reader_limit_example :
    get_frame_from_reader (reader (append_sealed_header huge_frame [] ++ hello) eof) 125 ≡ (
      if ltb 0 125 && ltb 125 (get_max_payload_length huge_frame)
      then returned
          (headed huge_frame)
          (some (
            wrapped
              (header_declares (get_max_payload_length huge_frame) 125)
              (sentinel frame_byte_length_exceeded)))
          (reader hello eof)
      else if ltb max_alloc (get_max_payload_length huge_frame)
      then panicked
      else store_payload
          (headed huge_frame)
          (io_read_full (reader hello eof) (get_max_payload_length huge_frame)))
get_frame_from_reader_limit_example =
    get_frame_from_reader_limit huge_frame hello eof 125 huge_frame-IsHeader

get_frame_from_reader-ne-panicked_example :
    get_frame_from_reader (reader (append_sealed_header huge_frame []) eof) 125 ≢ panicked
get_frame_from_reader-ne-panicked_example =
    get_frame_from_reader-ne-panicked (reader (append_sealed_header huge_frame []) eof) 125
      (omega arith) (omega arith)

unlimited_panics_example :
    get_frame_from_reader (reader (append_sealed_header huge_frame [] ++ []) eof) 0 ≡ panicked
unlimited_panics_example =
    unlimited_panics huge_frame [] eof huge_frame-IsHeader huge_frame_declares

abbrev going_away : ClosePayload
going_away = record { status_code = 1001; reason = hello }

get_close_payload-new_control_frame_example :
    (f : Frame) × (new_control_frame
        (record { opcode = opcode_close; payload_data = close_payload_bytes (some going_away) })
      ≡ ok f)
    × (f.opcode ≡ opcode_close)
    × (f.fin ≡ true)
    × (get_close_payload f ≡ ok (some going_away))
get_close_payload-new_control_frame_example =
    get_close_payload-new_control_frame (some going_away) (omega arith, omega arith)

-- An unmasked "Hi", with a byte of the next frame behind it.
abbrev hi_frame : Frame
hi_frame = record zero_frame {
  fin = true;
  opcode = 1;
  payload_length = 2;
  payload_data = 0x48 ∷ 0x69 ∷ [];
}

abbrev limit : ℕ
limit = 125

abbrev hi_ahead : Reader
hi_ahead = reader (0x81 ∷ 0x02 ∷ 0x48 ∷ 0x69 ∷ 9 ∷ []) eof
