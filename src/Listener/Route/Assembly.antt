-- ===== src/Listener/Route/Assembly.antt =====
-- The assembly state of a listener: what holds between two frames, whatever arrives.
use wlgows.Base.{
  ℕ, ◌+◌, ◌%◌, ◌^◌, ◌≤◌, ◌<◌, ◌≡◌, ◌⊎◌, inl, inr, refl, ap, false, not, ◌&&◌, Option, none, some,
  [], ◌∷◌, ◌++◌, arith, length, length-append, Bool-cases, ltb, ◌==◌, if◌then◌else◌,
}
use wlgows.Errors.{Error}
use wlgows.Opcode.{is_data_opcode, opcode_continuation}
use wlgows.Frame.{Frame}
use wlgows.Message.{Frames, byte_len}
use wlgows.Message.Laws.{byte_len-append, byte_len-single, byte_len-nil}
use wlgows.Listener.{
  Call, frame_call, Hook, Listener, ListenerConfig, reset_current_data_frames,
  validate_close_payload,
}
use wlgows.Listener.Rules.{IsLegalData}
use wlgows.Listener.Route.{
  run_frame, run_frames, deliver, assemble, hand_over, route_data_frame, route_close, route_frame,
}

-- No message is open.
abbrev pub IsIdle : Listener → Type 0
IsIdle l =
    (l.current_data_frame_count ≡ 0)
    × (l.current_data_frames ≡ [])
    × (l.current_data_acc_length ≡ 0)
    × (l.current_data_frame_opcode ≡ 0)

-- One is: it has a type, and the totals cover what is retained. Every frame but the first has
-- brought a byte.
abbrev pub IsOpen : Listener → Type 0
IsOpen l =
    (0 < l.current_data_frame_count)
    × ((l.current_data_frame_opcode ≡ 1) ⊎ (l.current_data_frame_opcode ≡ 2))
    × (length l.current_data_frames ≤ l.current_data_frame_count)
    × (byte_len l.current_data_frames ≤ l.current_data_acc_length)
    × (l.current_data_frame_count ≤ l.current_data_acc_length + 1)

abbrev pub IsAssembling : Listener → Type 0
IsAssembling l = IsIdle l ⊎ IsOpen l

-- The fields of the message in flight, which no exported method but Listen writes.
pub record SameAssembly (m l : Listener) : Type 0 where
  pub frames : m.current_data_frames ≡ l.current_data_frames
  pub count : m.current_data_frame_count ≡ l.current_data_frame_count
  pub acc : m.current_data_acc_length ≡ l.current_data_acc_length
  pub opcode : m.current_data_frame_opcode ≡ l.current_data_frame_opcode

pub IsAssembling-same : (m l : Listener) → SameAssembly m l → IsAssembling l → IsAssembling m
IsAssembling-same m l s (inl (a, b, c, d)) =
    inl (cc (s.count), cc (s.frames), cc (s.acc), cc (s.opcode))
IsAssembling-same m l s (inr o) = inr (
  omega (arith, s.count),
  type,
  omega (arith, s.count, ap (length {A = Frame}) s.frames),
  omega (arith, s.acc, ap byte_len s.frames),
  omega (arith, s.acc, s.count),
)
  where
    type : (m.current_data_frame_opcode ≡ 1) ⊎ (m.current_data_frame_opcode ≡ 2)
    type = elim o.1 [ inl t ↦ inl (cc (s.opcode)) | inr b ↦ inr (cc (s.opcode)) ]

reset-IsIdle : (l : Listener) → IsIdle (reset_current_data_frames l)
unfolding reset_current_data_frames
reset-IsIdle l = (refl, refl, refl, refl)

-- The totals already count `f`, which is not kept yet.
abbrev IsCounting : Frame → Listener → Type 0
IsCounting f l =
    (0 < l.current_data_frame_count)
    × ((l.current_data_frame_opcode ≡ 1) ⊎ (l.current_data_frame_opcode ≡ 2))
    × (length l.current_data_frames + 1 ≤ l.current_data_frame_count)
    × (byte_len l.current_data_frames + length f.payload_data ≤ l.current_data_acc_length)
    × (l.current_data_frame_count ≤ l.current_data_acc_length + (if f.fin then 2 else 1))

-- `l` with `f` counted, as it stands when the budgets have let `f` pass.
abbrev pub counted : Frame → Listener → Listener
counted f l = record l {
  current_data_acc_length = (l.current_data_acc_length + length f.payload_data) % 2 ^ 64;
  current_data_frame_count = (l.current_data_frame_count + 1) % 2 ^ 64;
  current_data_frame_opcode =
      if not (f.opcode == opcode_continuation) then f.opcode else l.current_data_frame_opcode;
}

counted-IsCounting :
    (f : Frame) (l : Listener)
    → IsAssembling l
    → IsLegalData l f
    → (f.opcode == opcode_continuation && (not f.fin && length f.payload_data == 0)) ≡ false
    → l.current_data_acc_length + length f.payload_data < 2 ^ 64
    → l.current_data_frame_count + 1 < 2 ^ 64
    → IsCounting f (counted f l)
counted-IsCounting f l (inl idle) (inl legal) kept ha hc = absurd (omega arith)
counted-IsCounting f l (inl idle) (inr legal) kept ha hc = (
  omega arith,
  elim legal.0 [ inl t ↦ inl (ground arith) | inr b ↦ inr (ground arith) ],
  omega (arith, ap (length {A = Frame}) idle.1),
  omega (arith, ap byte_len idle.1, byte_len-nil),
  ground arith,
)
counted-IsCounting f l (inr opened) (inl legal) kept ha hc = (
  omega arith,
  elim opened.1 [ inl t ↦ inl (ground arith) | inr b ↦ inr (ground arith) ],
  omega arith,
  omega arith,
  ground arith,
)
counted-IsCounting f l (inr opened) (inr legal) kept ha hc = absurd (omega arith)

module _ (call : Call → Listener → Listener)
    (keeps : (c : Call) (l : Listener) → SameAssembly (call c l) l) where
  run_frame-IsAssembling :
      (h : Option Hook) (f : Frame) (l : Listener)
      → IsAssembling l
      → IsAssembling (run_frame call h f l)
  run_frame-IsAssembling none f l a = a
  run_frame-IsAssembling (some h) f l a = IsAssembling-same _ l (keeps _ l) a

  run_frames-IsAssembling :
      (h : Option Hook) (fs : Frames) (l : Listener)
      → IsAssembling l
      → IsAssembling (run_frames call h fs l)
  run_frames-IsAssembling none fs l a = a
  run_frames-IsAssembling (some h) fs l a = IsAssembling-same _ l (keeps _ l) a

  deliver-IsAssembling :
      (config : ListenerConfig) (fs : Frames) (opcode : ℕ) (l : Listener)
      → IsAssembling l
      → IsAssembling (deliver call config fs opcode l).1
  unfolding deliver
  deliver-IsAssembling config fs opcode l a = ground (
    arith,
    run_frames-IsAssembling config.text fs l a,
    run_frames-IsAssembling config.binary fs l a,
  )

  assemble-IsAssembling :
      (config : ListenerConfig) (f : Frame) (l : Listener)
      → IsCounting f l
      → IsAssembling (assemble call config f l).1
  unfolding assemble
  assemble-IsAssembling config f l c = elim (Bool-cases f.fin) [
    | inl last ↦
        let joined : Frames = l.current_data_frames ++ f ∷ [] in
        let l' : Listener = reset_current_data_frames (record l { current_data_frames = joined }) in
        simp last (
          deliver-IsAssembling config joined l.current_data_frame_opcode l'
            (inl (reset-IsIdle (record l { current_data_frames = joined }))))
    | inr more ↦ simp more (
        inr (
          c.0,
          c.1,
          omega (arith, length-append l.current_data_frames (f ∷ [])),
          omega (arith, byte_len-append l.current_data_frames (f ∷ []), byte_len-single f),
          ground arith,
        ))
  ]

  hand_over-IsAssembling :
      (h : Option Hook) (config : ListenerConfig) (f : Frame) (l : Listener)
      → IsCounting f l
      → IsAssembling (hand_over call h config f l).1
  unfolding hand_over
  hand_over-IsAssembling none config f l c = assemble-IsAssembling config f l c
  hand_over-IsAssembling (some h) config f l c = elim (Bool-cases f.fin) [
    | inl last ↦ simp last (inl (refl, refl, refl, refl))
    | inr more ↦ simp more (
        IsAssembling-same _ l (keeps (frame_call h f) l)
          (inr (c.0, c.1, omega arith, omega arith, ground arith)))
  ]

  pub route_data_frame-IsAssembling :
      (config : ListenerConfig) (f : Frame) (l : Listener)
      → IsAssembling l
      → IsLegalData l f
      → l.current_data_acc_length + length f.payload_data < 2 ^ 64
      → l.current_data_frame_count + 1 < 2 ^ 64
      → IsAssembling (route_data_frame call config f l).1
  unfolding route_data_frame
  route_data_frame-IsAssembling config f l a legal ha hc =
      elim (Bool-cases
        (f.opcode == opcode_continuation && (not f.fin && length f.payload_data == 0))) [
          | inl dropped ↦ simp dropped a
          | inr kept ↦
              let acc = (l.current_data_acc_length + length f.payload_data) % 2 ^ 64 in
              let count = (l.current_data_frame_count + 1) % 2 ^ 64 in
              let over_bytes =
                ltb 0 config.max_msg_payload_byte_len && ltb config.max_msg_payload_byte_len acc in
              let over_count =
                ltb 0 config.max_msg_frame_count && ltb config.max_msg_frame_count count in
              elim (Bool-cases over_bytes) [
                | inl e ↦ simp (kept, e) (inl (refl, refl, refl, refl))
                | inr e ↦ elim (Bool-cases over_count) [
                  | inl e' ↦ simp (kept, e, e') (inl (refl, refl, refl, refl))
                  | inr e' ↦
                      simp (kept, e, e')
                        (hand_over-IsAssembling config.data_hook config f (counted f l)
                          (counted-IsCounting f l a legal kept ha hc))
                ]
              ]
        ]

  run_frame-same :
      (h : Option Hook) (f : Frame) (l : Listener) → SameAssembly (run_frame call h f l) l
  run_frame-same none f l = record { frames = refl; count = refl; acc = refl; opcode = refl }
  run_frame-same (some h) f l = keeps (frame_call h f) l

  route_close-same :
      (e : Option Error) (config : ListenerConfig) (f : Frame) (l : Listener)
      → SameAssembly (route_close call e config f l).1 l
  unfolding route_close
  route_close-same (some e) config f l = run_frame-same none f l
  route_close-same none config f l = run_frame-same config.close f l

  -- A control frame, and one of a reserved opcode, leaves the message in flight as it is, also
  -- between two of its fragments.
  pub route_frame-SameAssembly :
      (f : Frame) (l : Listener)
      → is_data_opcode f.opcode ≡ false
      → SameAssembly (route_frame call f l).1 l
  unfolding route_frame
  route_frame-SameAssembly f l d = elim (Bool-cases (f.opcode == 9)) [
    | inl e ↦ simp e (run_frame-same l.config.ping f l)
    | inr n ↦ elim (Bool-cases (f.opcode == 10)) [
      | inl e ↦ simp (n, e) (run_frame-same l.config.pong f l)
      | inr n' ↦ elim (Bool-cases (f.opcode == 8)) [
        | inl e ↦
            simp (n, n', e) (route_close-same (validate_close_payload f.payload_data) l.config f l)
        | inr n'' ↦ simp (n, n', n'', d) (run_frame-same l.config.unknown f l)
      ]
    ]
  ]
