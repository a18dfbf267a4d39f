-- ===== src/StandardListener/Answers.antt =====
-- What the standard hooks put on the wire.
use wlgows.Base.{
  ℕ, ◌≤◌, ◌≡◌, refl, ap, ap₂, subst, sym, ◌∙◌, Bool, true, false, none, some, [], ◌∷◌, ◌++◌, arith,
  length, ltb,
}
use wlgows.Base.Bytes.{Bytes, IsBytes}
use wlgows.Errors.{ok, sentinel, close_already_sent}
use wlgows.Opcode.{opcode_close, opcode_pong, is_control_opcode, is_data_opcode}
use wlgows.Frame.{Frame, MaskingKey, new_frame}
use wlgows.Control.{close_payload_bytes, decode_close_payload, get_close_payload, new_control_frame}
use wlgows.Read.Laws.{wire}
use wlgows.Step.{returned, within}
use wlgows.Writer.Laws.{healthy}
use wlgows.Conn.{Conn, validate_send_frame, buffered_write_frame, send_frame}
use wlgows.Conn.Write.{sent_frame, behind, IsReady, send_frame-wire}
use wlgows.Conn.Send.{send_built, send_close, send_pong}
use wlgows.Listener.{Listener, validate_close_payload}
use wlgows.Listener.Run.{pause_listen}
use wlgows.StandardListener.{
  ignoring, payload_of, answer_and_pause, rfc6455_ping_hook, rfc6455_close_hook,
}

-- A body that passes the listener's check is encoded as it was decoded.
close_payload_bytes-decode :
    (p : Bytes)
    → IsBytes p
    → validate_close_payload p ≡ none
    → close_payload_bytes (payload_of (decode_close_payload p)) ≡ p
unfolding validate_close_payload payload_of decode_close_payload close_payload_bytes
close_payload_bytes-decode [] h v = refl
close_payload_bytes-decode (b ∷ []) h v = absurd (ground arith)
close_payload_bytes-decode (b0 ∷ b1 ∷ reason) h v =
    ap₂ (λ x y. x ∷ y ∷ reason) (omega (arith, h)) (omega (arith, h))

get_close_payload_lem :
    (f : Frame) → f.opcode ≡ 8 → get_close_payload f ≡ decode_close_payload f.payload_data
unfolding get_close_payload
get_close_payload_lem f o = rw o

-- The close frame with a body.
abbrev pub close_frame : Bytes → Frame
close_frame p = new_frame (record { payload_data = p; opcode = opcode_close; fin = true })

new_control_frame_lem :
    (p : Bytes)
    → length p ≤ 125
    → new_control_frame (record { opcode = opcode_close; payload_data = p }) ≡ ok (close_frame p)
unfolding new_control_frame is_control_opcode
new_control_frame_lem p small = ground arith

send_close_lem :
    (f : Frame) (c : Conn)
    → IsBytes f.payload_data
    → f.opcode ≡ 8
    → length f.payload_data ≤ 125
    → validate_close_payload f.payload_data ≡ none
    → send_close (payload_of (get_close_payload f)) c
      ≡ within (λ (s : Frame × Conn). s.1) (send_frame (close_frame f.payload_data) c)
unfolding send_close send_built
send_close_lem f c hp o small valid = rw (
  get_close_payload_lem f o,
  close_payload_bytes-decode f.payload_data hp valid,
  new_control_frame_lem f.payload_data small,
)

close_passes : (p : Bytes) → length p ≤ 125 → validate_send_frame (close_frame p) false ≡ none
unfolding validate_send_frame new_frame is_control_opcode
close_passes p small = ground arith

close_refused :
    (p : Bytes) → validate_send_frame (close_frame p) true ≡ some (sentinel close_already_sent)
unfolding validate_send_frame new_frame is_data_opcode
close_refused p = refl

close_not_sent :
    (p : Bytes) (c : Conn)
    → c.close_sent ≡ true
    → send_frame (close_frame p) c
      ≡ returned (some (sentinel close_already_sent)) (close_frame p, c)
unfolding send_frame buffered_write_frame
close_not_sent p c closed = rw (
    subst (λ b. validate_send_frame (close_frame p) b ≡ some (sentinel close_already_sent))
      (sym closed) (close_refused p))

module _ (f : Frame) (c : Conn) (l : Listener) (hp : IsBytes f.payload_data) (o : f.opcode ≡ 8)
    (small : length f.payload_data ≤ 125)
    (valid : validate_close_payload f.payload_data ≡ none) where
  -- The close hook, run on a close frame that the listener accepted, before this side has sent a
  -- close and on a connection that takes what is written: it answers with a close frame whose body
  -- is byte for byte the one that arrived, puts the close on record, and pauses the listener.
  pub rfc6455_close_hook-wire :
      (k : MaskingKey) (n : ℕ) (b s : Bytes)
      → IsReady c k n b s
      → c.close_sent ≡ false
      → let g = sent_frame c.mask_send_frame k (close_frame f.payload_data) in
        rfc6455_close_hook f (c, l)
        ≡ returned none (
          record (behind c.mask_send_frame c (healthy n [] ((s ++ b) ++ wire g))) {
            close_sent = true;
          },
          pause_listen none l,
        )
  unfolding rfc6455_close_hook new_frame
  rfc6455_close_hook-wire k n b s ready fresh =
      let p = f.payload_data in
      let passes : validate_send_frame (close_frame p) c.close_sent ≡ none =
        subst (λ closed. validate_send_frame (close_frame p) closed ≡ none) (sym fresh)
          (close_passes p small) in
      ap (λ r. answer_and_pause l r)
        (send_close_lem f c hp o small valid
          ∙ ap (λ r. within (λ (s' : Frame × Conn). s'.1) r)
              (send_frame-wire (close_frame p) c k n b s ready hp passes))

  -- After this side's own close, the hook sends nothing more: the connection is left as it was,
  -- and the listener is paused.
  pub rfc6455_close_hook_once :
      c.close_sent ≡ true → rfc6455_close_hook f (c, l) ≡ returned none (c, pause_listen none l)
  unfolding rfc6455_close_hook
  rfc6455_close_hook_once closed =
      ap (λ r. answer_and_pause l r)
        (send_close_lem f c hp o small valid
          ∙ ap (λ r. within (λ (s' : Frame × Conn). s'.1) r)
              (close_not_sent f.payload_data c closed))

pong_frame : Bytes → Frame
pong_frame p = new_frame (record { payload_data = p; opcode = opcode_pong; fin = true })

send_pong_lem :
    (p : Bytes) (c : Conn)
    → length p ≤ 125
    → send_pong p c ≡ within (λ (s : Frame × Conn). s.1) (send_frame (pong_frame p) c)
unfolding send_pong send_built new_control_frame is_control_opcode pong_frame
send_pong_lem p c small = let fits : ltb 125 (length p) ≡ false = ground arith in rw fits

pong_passes :
    (p : Bytes) (closed : Bool) → length p ≤ 125 → validate_send_frame (pong_frame p) closed ≡ none
unfolding validate_send_frame pong_frame new_frame is_control_opcode is_data_opcode
pong_passes p closed small = ground arith

-- The ping hook answers with a pong whose payload is that of the ping, also after a close of this
-- side, and leaves the record of a close as it was.
pub rfc6455_ping_hook-wire :
    (f : Frame) (c : Conn) (k : MaskingKey) (n : ℕ) (b s : Bytes)
    → IsReady c k n b s
    → IsBytes f.payload_data
    → length f.payload_data ≤ 125
    → let g =
        sent_frame c.mask_send_frame k (
          new_frame (record { payload_data = f.payload_data; opcode = opcode_pong; fin = true })) in
      rfc6455_ping_hook f c
      ≡ returned none (record (behind c.mask_send_frame c (healthy n [] ((s ++ b) ++ wire g))) {
        close_sent = c.close_sent;
      })
unfolding rfc6455_ping_hook pong_frame new_frame
rfc6455_ping_hook-wire f c k n b s ready hp small =
    let p = f.payload_data in
    ap (λ r. ignoring r)
      (send_pong_lem p c small
        ∙ ap (λ r. within (λ (s' : Frame × Conn). s'.1) r)
            (send_frame-wire (pong_frame p) c k n b s ready hp (pong_passes p c.close_sent small)))
