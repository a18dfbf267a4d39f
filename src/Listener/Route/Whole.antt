-- ===== src/Listener/Route/Whole.antt =====
-- What the assembly does with the fragments of one message, frame by frame.
use wlgows.Base.{
  ℕ, ◌+◌, ◌%◌, ◌^◌, ◌≤◌, ◌<◌, ◌≡◌, ◌⊎◌, inl, inr, refl, ap, ◌∙◌, true, false, not, ◌&&◌, none, [],
  ◌∷◌, ◌++◌, arith, length, ltb, ◌==◌, if◌then◌else◌,
}
use wlgows.Opcode.{is_data_opcode, opcode_continuation}
use wlgows.Frame.{Frame}
use wlgows.Listener.{Call, Listener, reset_current_data_frames}
use wlgows.Listener.Route.{deliver, assemble, hand_over, route_data_frame, route_frame}
use wlgows.Listener.Route.Assembly.{counted}
use wlgows.Listener.Route.Budget.{route_frame_data}

-- A budget of `limit`, where 0 is none, has room for `n`, and the counter does not wrap.
abbrev pub Fits : ℕ → ℕ → Type 0
Fits limit n = ((limit ≡ 0) ⊎ (n ≤ limit)) × (n < 2 ^ 64)

-- Both budgets have room for one more frame.
abbrev pub HasRoom : Frame → Listener → Type 0
HasRoom f l =
    Fits l.config.max_msg_payload_byte_len (l.current_data_acc_length + length f.payload_data)
    × Fits l.config.max_msg_frame_count (l.current_data_frame_count + 1)

-- `l` with `f` behind the frames that it holds, under the type `opcode`.
unfoldable pub holding : ℕ → Frame → Listener → Listener
holding opcode f l = record l {
  current_data_frames = l.current_data_frames ++ f ∷ [];
  current_data_frame_count = l.current_data_frame_count + 1;
  current_data_acc_length = l.current_data_acc_length + length f.payload_data;
  current_data_frame_opcode = opcode;
}

within_budget :
    (limit n k : ℕ) → Fits limit n → k ≡ n → (ltb 0 limit && ltb limit (k % 2 ^ 64)) ≡ false
within_budget limit n k (inl z, w) e = ground arith
within_budget limit n k (inr h, w) e = ground arith

module _ (call : Call → Listener → Listener) (f : Frame) (l : Listener)
    (no_data_hook : l.config.data_hook ≡ none) (room : HasRoom f l) where
  route_kept :
      (f.opcode == opcode_continuation && (not f.fin && length f.payload_data == 0)) ≡ false
      → route_data_frame call l.config f l ≡ assemble call l.config f (counted f l)
  unfolding route_data_frame hand_over
  route_kept kept = simp (
    kept,
    within_budget l.config.max_msg_payload_byte_len
        (l.current_data_acc_length + length f.payload_data) _ room.0 refl,
    within_budget l.config.max_msg_frame_count (l.current_data_frame_count + 1) _ room.1 refl,
    no_data_hook,
  )

  counted_exact :
      (opcode : ℕ)
      → (if not (f.opcode == opcode_continuation) then f.opcode else l.current_data_frame_opcode)
        ≡ opcode
      → counted f l ≡ record l {
        current_data_frame_count = l.current_data_frame_count + 1;
        current_data_acc_length = l.current_data_acc_length + length f.payload_data;
        current_data_frame_opcode = opcode;
      }
  counted_exact opcode e =
      let acc : (l.current_data_acc_length + length f.payload_data) % 2 ^ 64
          ≡ l.current_data_acc_length + length f.payload_data =
        omega (arith, room.0.1) in
      let count : (l.current_data_frame_count + 1) % 2 ^ 64 ≡ l.current_data_frame_count + 1 =
        omega (arith, room.1.1) in
      λ i. record l {
        current_data_acc_length = acc i;
        current_data_frame_count = count i;
        current_data_frame_opcode = e i;
      }

  -- A fragment that is not the last, and is not an empty continuation, is kept.
  pub route_more :
      (opcode : ℕ)
      → is_data_opcode f.opcode ≡ true
      → f.fin ≡ false
      → (f.opcode == opcode_continuation && length f.payload_data == 0) ≡ false
      → (if not (f.opcode == opcode_continuation) then f.opcode else l.current_data_frame_opcode)
        ≡ opcode
      → route_frame call f l ≡ (none, holding opcode f l)
  unfolding holding assemble
  route_more opcode d more kept e =
      let k : (f.opcode == opcode_continuation && (not f.fin && length f.payload_data == 0))
          ≡ false =
        ground arith in
      route_frame_data call f l d
      ∙ route_kept k
      ∙ ap (assemble call l.config f) (counted_exact opcode e)
      ∙ simp more

  -- An empty continuation that is not the last changes nothing.
  pub route_dropped :
      f.opcode ≡ 0 → f.fin ≡ false → length f.payload_data ≡ 0 → route_frame call f l ≡ (none, l)
  unfolding route_data_frame is_data_opcode
  route_dropped o more empty =
      let k : (f.opcode == opcode_continuation && (not f.fin && length f.payload_data == 0))
          ≡ true =
        ground arith in
      route_frame_data call f l (ground arith) ∙ simp k

  -- The last fragment delivers what is held with it.
  pub route_last :
      (opcode : ℕ)
      → is_data_opcode f.opcode ≡ true
      → f.fin ≡ true
      → (if not (f.opcode == opcode_continuation) then f.opcode else l.current_data_frame_opcode)
        ≡ opcode
      → route_frame call f l
        ≡ deliver call l.config
            (l.current_data_frames ++ f ∷ [])
            opcode
            (reset_current_data_frames l)
  unfolding assemble reset_current_data_frames
  route_last opcode d last e =
      let k : (f.opcode == opcode_continuation && (not f.fin && length f.payload_data == 0))
          ≡ false =
        ground arith in
      route_frame_data call f l d
      ∙ route_kept k
      ∙ ap (assemble call l.config f) (counted_exact opcode e)
      ∙ simp last
