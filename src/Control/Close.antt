-- ===== src/Control/Close.antt =====
-- Close frames and their body: what is built decodes to what it was built from.
use wlgows.Base.{◌≤◌, ◌≡◌, refl, true, Option, none, some, arith, length}
use wlgows.Base.Bytes.{IsU16}
use wlgows.Errors.{ok}
use wlgows.Opcode.{is_control_opcode, opcode_close}
use wlgows.Frame.{Frame, new_frame}
use wlgows.Control.{ClosePayload, new_control_frame, close_payload_bytes, get_close_payload}

abbrev pub IsSendable : Option ClosePayload → Type 0
IsSendable none = Unit {0}
IsSendable (some c) = IsU16 c.status_code × (length c.reason ≤ 123)

abbrev close_frame : Option ClosePayload → Frame
close_frame p =
    new_frame (record { payload_data = close_payload_bytes p; opcode = opcode_close; fin = true })

-- From any of the three legal shapes (no body; a 16-bit status code; a code with a reason of at
-- most 123 bytes) a close frame is built, it is a final close frame, and it decodes to that shape.
pub get_close_payload-new_control_frame :
    (p : Option ClosePayload)
    → IsSendable p
    → (f : Frame) × (new_control_frame
          (record { opcode = opcode_close; payload_data = close_payload_bytes p })
        ≡ ok f)
      × (f.opcode ≡ opcode_close)
      × (f.fin ≡ true)
      × (get_close_payload f ≡ ok p)
unfolding new_control_frame close_payload_bytes get_close_payload new_frame is_control_opcode
get_close_payload-new_control_frame none h = (close_frame none, refl, refl, refl, refl)
get_close_payload-new_control_frame (some c) h =
    (close_frame (some c), ground arith, refl, refl, ground arith)
