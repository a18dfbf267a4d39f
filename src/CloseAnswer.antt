-- ===== src/CloseAnswer.antt =====
-- Errors.go, StandardClosePayloadFor: the close payload that answers an error.
use wlgows.Base.{
  ℕ, ◌≡◌, ◌+◌, ◌%◌, ◌^◌, refl, Bool, true, false, not, ◌||◌, ◌&&◌, Option, none, some, List, [],
  ◌∷◌, ◌++◌, ltb, leb, ◌==◌, length, take, drop, if◌then◌else◌, Bool-cases, inl, inr,
}
use wlgows.Base.Bytes.{Bytes, be_uint}
use wlgows.Errors.{
  Sentinel, Error, External, sentinel, external, wrapped, error_is, header_declares, invalid_utf8,
  frame_byte_length_exceeded, msg_frame_count_exceeded, reserved_bits_set, frame_not_masked,
  frame_masked, control_frame_fragmented, control_frame_payload_too_long,
  continuation_frame_without_msg, data_frame_during_msg, invalid_close_status_code,
  close_payload_too_short, listener_is_listening, listener_conn_is_nil,
}
use wlgows.Opcode.{is_data_opcode, is_control_opcode}
use wlgows.Frame.{Frame}
use wlgows.Control.{
  ClosePayload, close_invalid_frame_payload_data, close_message_too_big, close_protocol_error,
}
use wlgows.Message.{Frames}
use wlgows.Utf8.{utf8_valid}
use wlgows.Listener.{
  differs, valid_text_utf8, reset_current_data_frames, Call, Hook, Listener, ListenerConfig,
  validate_frame, validate_close_payload, valid_close_status_code,
}
use wlgows.Listener.Route.{route_frame, route_close, route_data_frame, hand_over, assemble, deliver}

-- One of the `errors.Is` of a case.
unfoldable pub is_any : Error → List Sentinel → Bool
unfolding error_is
is_any e [] = false
is_any e (s ∷ ss) = error_is e s || is_any e ss

abbrev pub only_code : ℕ → Option ClosePayload
only_code c = some (record { status_code = c; reason = [] })

unfoldable pub standard_close_payload_for : Error → Option ClosePayload
unfolding is_any
standard_close_payload_for e =
    if error_is e invalid_utf8
    then only_code close_invalid_frame_payload_data
    else if is_any e (frame_byte_length_exceeded ∷ msg_frame_count_exceeded ∷ [])
    then only_code close_message_too_big
    else if is_any e (
        reserved_bits_set ∷ frame_not_masked ∷ frame_masked ∷ control_frame_fragmented
        ∷ control_frame_payload_too_long ∷ continuation_frame_without_msg ∷ data_frame_during_msg
        ∷ invalid_close_status_code ∷ close_payload_too_short ∷ [])
    then only_code close_protocol_error
    else none

-- What a check returns, none or an error with a close payload that answers it and that may be on
-- the wire.
pub data IsAnswered : Option Error → Type 0 where
  passes : IsAnswered none
  answered :
      (e : Error) {p : ClosePayload}
      → standard_close_payload_for e ≡ some p
      → valid_close_status_code p.status_code ≡ true
      → IsAnswered (some e)

-- What a check returns, none or an error that is answered as a protocol error.
pub data IsProtocolError : Option Error → Type 0 where
  obeys : IsProtocolError none
  breaks :
      (e : Error)
      → standard_close_payload_for e ≡ only_code close_protocol_error
      → IsProtocolError (some e)

if_either {ℓ} :
    {A : Type ℓ} (P : A → Type 0) (b : Bool) {x y : A} → P x → P y → P (if b then x else y)
if_either P true hx hy = hx
if_either P false hx hy = hy

validate_frame-IsProtocolError : (l : Listener) (f : Frame) → IsProtocolError (validate_frame l f)
unfolding validate_frame standard_close_payload_for
validate_frame-IsProtocolError l f =
    let P = IsProtocolError in
    if_either P (f.rsv1 || (f.rsv2 || f.rsv3)) (breaks (sentinel reserved_bits_set) refl) (
      if_either P (differs f.mask l.config.peer_is_client)
        (if_either P l.config.peer_is_client (breaks (sentinel frame_not_masked) refl)
          (breaks (sentinel frame_masked) refl))
        (if_either P (is_control_opcode f.opcode)
          (if_either P (not f.fin) (breaks (sentinel control_frame_fragmented) refl) (
            if_either P (ltb 125 (length f.payload_data))
              (breaks (sentinel control_frame_payload_too_long) refl) obeys))
          (if_either P (not (is_data_opcode f.opcode)) obeys (
            if_either P (ltb 0 l.current_data_frame_count)
              (if_either P (not (f.opcode == 0)) (breaks (sentinel data_frame_during_msg) refl)
                obeys)
              (if_either P (f.opcode == 0) (breaks (sentinel continuation_frame_without_msg) refl)
                obeys)))))

validate_close_payload-IsAnswered : (p : Bytes) → IsAnswered (validate_close_payload p)
unfolding validate_close_payload standard_close_payload_for valid_close_status_code
validate_close_payload-IsAnswered p =
    let P = IsAnswered in
    if_either P (length p == 1) (answered (sentinel close_payload_too_short) refl refl) (
      if_either P (leb 2 (length p) && not (valid_close_status_code (be_uint (take 2 p))))
        (answered (sentinel invalid_close_status_code) refl refl)
        (if_either P (ltb 2 (length p) && not (utf8_valid (drop 2 p)))
          (answered (sentinel invalid_utf8) refl refl) passes))

module _ (call : Call → Listener → Listener) where
  deliver-IsAnswered :
      (config : ListenerConfig) (fs : Frames) (opcode : ℕ) (l : Listener)
      → IsAnswered (deliver call config fs opcode l).0
  unfolding deliver standard_close_payload_for valid_close_status_code
  deliver-IsAnswered config fs opcode l = elim (Bool-cases (opcode == 1)) [
    | inl text ↦ elim (Bool-cases (valid_text_utf8 fs)) [
      | inl good ↦ simp (text, good) passes
      | inr bad ↦ simp (text, bad) (answered (sentinel invalid_utf8) refl refl)
    ]
    | inr other ↦ elim (Bool-cases (opcode == 2)) [
      | inl binary ↦ simp (other, binary) passes
      | inr none_open ↦ simp (other, none_open) passes
    ]
  ]

  hand_over-IsAnswered :
      (h : Option Hook) (config : ListenerConfig) (f : Frame) (l : Listener)
      → IsAnswered (hand_over call h config f l).0
  unfolding hand_over assemble
  hand_over-IsAnswered none config f l = elim (Bool-cases f.fin) [
    | inl last ↦ simp last (
        deliver-IsAnswered config (l.current_data_frames ++ f ∷ []) l.current_data_frame_opcode (
          reset_current_data_frames
            (record l { current_data_frames = l.current_data_frames ++ f ∷ [] })))
    | inr more ↦ simp more passes
  ]
  hand_over-IsAnswered (some h) config f l = passes

  route_data_frame-IsAnswered :
      (config : ListenerConfig) (f : Frame) (l : Listener)
      → IsAnswered (route_data_frame call config f l).0
  unfolding route_data_frame standard_close_payload_for valid_close_status_code
  route_data_frame-IsAnswered config f l =
      let acc = (l.current_data_acc_length + length f.payload_data) % 2 ^ 64 in
      let count = (l.current_data_frame_count + 1) % 2 ^ 64 in
      elim (Bool-cases (f.opcode == 0 && (not f.fin && length f.payload_data == 0))) [
        | inl dropped ↦ simp dropped passes
        | inr kept ↦
            elim (Bool-cases
              (ltb 0 config.max_msg_payload_byte_len && ltb config.max_msg_payload_byte_len acc)) [
                | inl long ↦
                    simp (kept, long) (answered (sentinel frame_byte_length_exceeded) refl refl)
                | inr short ↦
                    elim (Bool-cases
                      (ltb 0 config.max_msg_frame_count && ltb config.max_msg_frame_count count)) [
                        | inl many ↦
                            simp (kept, short, many)
                              (answered (sentinel msg_frame_count_exceeded) refl refl)
                        | inr few ↦
                            simp (kept, short, few)
                              (hand_over-IsAnswered config.data_hook config f (record l {
                                current_data_acc_length = acc;
                                current_data_frame_count = count;
                                current_data_frame_opcode =
                                    if not (f.opcode == 0)
                                    then f.opcode
                                    else l.current_data_frame_opcode;
                              }))
                      ]
              ]
      ]

  route_close-IsAnswered :
      (e : Option Error) (config : ListenerConfig) (f : Frame) (l : Listener)
      → IsAnswered e
      → IsAnswered (route_close call e config f l).0
  unfolding route_close
  route_close-IsAnswered (some e) config f l h = h
  route_close-IsAnswered none config f l h = passes

  route_frame-IsAnswered : (f : Frame) (l : Listener) → IsAnswered (route_frame call f l).0
  unfolding route_frame
  route_frame-IsAnswered f l = elim (Bool-cases (f.opcode == 9)) [
    | inl ping ↦ simp ping passes
    | inr a ↦ elim (Bool-cases (f.opcode == 10)) [
      | inl pong ↦ simp (a, pong) passes
      | inr b ↦ elim (Bool-cases (f.opcode == 8)) [
        | inl close ↦
            simp (a, b, close)
              (route_close-IsAnswered (validate_close_payload f.payload_data) l.config f l
                (validate_close_payload-IsAnswered f.payload_data))
        | inr c ↦ elim (Bool-cases (is_data_opcode f.opcode)) [
          | inl d ↦ simp (a, b, c, d) (route_data_frame-IsAnswered l.config f l)
          | inr reserved ↦ simp (a, b, c, reserved) passes
        ]
      ]
    ]
  ]

  -- Whatever the listener refuses a frame for has a close payload that answers it and that may be
  -- on the wire: a frame that validateFrame refuses is a protocol error (1002), and one that
  -- routeFrame refuses is answered with some code that a peer may send.
  pub refusals-IsAnswered :
      (l : Listener) (f : Frame)
      → IsProtocolError (validate_frame l f) × IsAnswered (route_frame call f l).0
  refusals-IsAnswered l f = (validate_frame-IsProtocolError l f, route_frame-IsAnswered f l)

-- Nothing that the peer broke no rule for is answered: not the connection's own error, and not a
-- Listen that was refused; a frame over the read limit is answered as too big.
pub unattributed :
    (x : External) (n limit : ℕ)
    → (standard_close_payload_for (external x) ≡ none)
      × (standard_close_payload_for (sentinel listener_is_listening) ≡ none)
      × (standard_close_payload_for (sentinel listener_conn_is_nil) ≡ none)
      × (standard_close_payload_for
            (wrapped (header_declares n limit) (sentinel frame_byte_length_exceeded))
          ≡ only_code close_message_too_big)
unfolding standard_close_payload_for
unattributed x n limit = (refl, refl, refl, refl)
