-- ===== src/Listener/Route/Budget.antt =====
-- Whatever a peer sends, what a listener retains stays within its two budgets.
use wlgows.Base.{
  ℕ, ◌+◌, ◌%◌, ◌^◌, ◌≤◌, ◌<◌, ◌≡◌, inl, inr, true, false, not, ◌&&◌, Option, none, some, [], ◌∷◌,
  ◌++◌, arith, length, Bool-cases, ltb, ◌==◌,
}
use wlgows.Opcode.{is_data_opcode, opcode_continuation}
use wlgows.Frame.{Frame}
use wlgows.Message.{Frames}
use wlgows.Listener.{
  Call, frame_call, Hook, Listener, ListenerConfig, validate_frame, reset_current_data_frames,
}
use wlgows.Listener.Rules.{accepted-IsLegalData}
use wlgows.Listener.Route.{run_frames, deliver, assemble, hand_over, route_data_frame, route_frame}
use wlgows.Listener.Route.Assembly.{
  IsAssembling, SameAssembly, IsAssembling-same, route_data_frame-IsAssembling,
  route_frame-SameAssembly, counted,
}

-- A data frame goes to the assembly, whatever its opcode and the hooks.
pub route_frame_data :
    (call : Call → Listener → Listener) (f : Frame) (l : Listener)
    → is_data_opcode f.opcode ≡ true
    → route_frame call f l ≡ route_data_frame call l.config f l
unfolding route_frame is_data_opcode
route_frame_data call f l d =
    let a : (f.opcode == 9) ≡ false = ground arith in
    let b : (f.opcode == 10) ≡ false = ground arith in
    let c : (f.opcode == 8) ≡ false = ground arith in simp (a, b, c, d)

-- The totals are no higher than the two bounds.
abbrev pub IsWithin : ℕ → ℕ → Listener → Type 0
IsWithin m n l = (l.current_data_acc_length ≤ m) × (l.current_data_frame_count ≤ n)

module _ (call : Call → Listener → Listener)
    (keeps : (c : Call) (l : Listener) → SameAssembly (call c l) l) where
  IsWithin-same : (m n : ℕ) (k l : Listener) → SameAssembly k l → IsWithin m n l → IsWithin m n k
  IsWithin-same m n k l s h = omega (arith, s.acc, s.count)

  run_frames-IsWithin :
      (m n : ℕ) (h : Option Hook) (fs : Frames) (l : Listener)
      → IsWithin m n l
      → IsWithin m n (run_frames call h fs l)
  run_frames-IsWithin m n none fs l w = w
  run_frames-IsWithin m n (some h) fs l w = IsWithin-same m n _ l (keeps _ l) w

  deliver-IsWithin :
      (m n : ℕ) (config : ListenerConfig) (fs : Frames) (opcode : ℕ) (l : Listener)
      → IsWithin m n l
      → IsWithin m n (deliver call config fs opcode l).1
  unfolding deliver
  deliver-IsWithin m n config fs opcode l w = ground (
    arith,
    run_frames-IsWithin m n config.text fs l w,
    run_frames-IsWithin m n config.binary fs l w,
  )

  assemble-IsWithin :
      (m n : ℕ) (config : ListenerConfig) (f : Frame) (l : Listener)
      → IsWithin m n l
      → IsWithin m n (assemble call config f l).1
  unfolding assemble
  assemble-IsWithin m n config f l w = elim (Bool-cases f.fin) [
    | inl last ↦
        let joined : Frames = l.current_data_frames ++ f ∷ [] in
        let l' : Listener = reset_current_data_frames (record l { current_data_frames = joined }) in
        simp last (deliver-IsWithin m n config joined l.current_data_frame_opcode l' (omega arith))
    | inr more ↦ simp more w
  ]

  hand_over-IsWithin :
      (m n : ℕ) (h : Option Hook) (config : ListenerConfig) (f : Frame) (l : Listener)
      → IsWithin m n l
      → IsWithin m n (hand_over call h config f l).1
  unfolding hand_over
  hand_over-IsWithin m n none config f l w = assemble-IsWithin m n config f l w
  hand_over-IsWithin m n (some h) config f l w = elim (Bool-cases f.fin) [
    | inl last ↦ simp last (omega arith)
    | inr more ↦ simp more (IsWithin-same m n _ l (keeps (frame_call h f) l) w)
  ]

  route_data_frame-IsWithin :
      (m n : ℕ) (config : ListenerConfig) (f : Frame) (l : Listener)
      → config.max_msg_payload_byte_len ≡ m
      → config.max_msg_frame_count ≡ n
      → 0 < m
      → 0 < n
      → IsWithin m n l
      → IsWithin m n (route_data_frame call config f l).1
  unfolding route_data_frame
  route_data_frame-IsWithin m n config f l em en pm pn w =
      let acc = (l.current_data_acc_length + length f.payload_data) % 2 ^ 64 in
      let count = (l.current_data_frame_count + 1) % 2 ^ 64 in
      let over_bytes =
        ltb 0 config.max_msg_payload_byte_len && ltb config.max_msg_payload_byte_len acc in
      let over_count = ltb 0 config.max_msg_frame_count && ltb config.max_msg_frame_count count in
      elim (Bool-cases
        (f.opcode == opcode_continuation && (not f.fin && length f.payload_data == 0))) [
          | inl dropped ↦ simp dropped w
          | inr kept ↦ elim (Bool-cases over_bytes) [
            | inl e ↦ simp (kept, e) (omega arith)
            | inr e ↦ elim (Bool-cases over_count) [
              | inl e' ↦ simp (kept, e, e') (omega arith)
              | inr e' ↦
                  simp (kept, e, e')
                    (hand_over-IsWithin m n config.data_hook config f (counted f l)
                      (ground arith, ground arith))
            ]
          ]
        ]

  -- Routing a frame that was accepted keeps the assembly state in order: either no message is
  -- open and nothing is held, or one of type text or binary is, its totals cover the frames and
  -- bytes held, and it has no more frames than bytes, plus one. That holds on every branch, errors
  -- included, while the two 64-bit totals do not wrap.
  pub route_frame-IsAssembling :
      (f : Frame) (l : Listener)
      → IsAssembling l
      → validate_frame l f ≡ none
      → l.current_data_acc_length + length f.payload_data < 2 ^ 64
      → l.current_data_frame_count + 1 < 2 ^ 64
      → IsAssembling (route_frame call f l).1
  route_frame-IsAssembling f l a v ha hc = elim (Bool-cases (is_data_opcode f.opcode)) [
    | inl d ↦ rw (route_frame_data call f l d) (
        route_data_frame-IsAssembling call keeps l.config f l a (accepted-IsLegalData l f v d) ha
          hc)
    | inr d ↦ IsAssembling-same _ l (route_frame-SameAssembly call keeps f l d) a
  ]

  -- With both budgets set, the totals never pass them, whatever frame arrives and whatever the
  -- totals add up to; so neither do the bytes and frames that are held.
  pub route_frame-IsWithin :
      (m n : ℕ) (f : Frame) (l : Listener)
      → l.config.max_msg_payload_byte_len ≡ m
      → l.config.max_msg_frame_count ≡ n
      → 0 < m
      → 0 < n
      → IsWithin m n l
      → IsWithin m n (route_frame call f l).1
  route_frame-IsWithin m n f l em en pm pn w = elim (Bool-cases (is_data_opcode f.opcode)) [
    | inl d ↦
        rw (route_frame_data call f l d) (route_data_frame-IsWithin m n l.config f l em en pm pn w)
    | inr d ↦ IsWithin-same m n _ l (route_frame-SameAssembly call keeps f l d) w
  ]
