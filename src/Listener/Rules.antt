-- ===== src/Listener/Rules.antt =====
-- What validateFrame, validateClosePayload and the read limit let through.
use wlgows.Base.{
  ℕ, ◌+◌, ◌≤◌, ◌<◌, ◌≡◌, ◌↔◌, ◌⊎◌, inl, inr, true, false, none, arith, length, Bool-cases, max, ◌-◌,
  ◌^◌, ltb, ◌==◌,
}
use wlgows.Opcode.{is_control_opcode, is_data_opcode}
use wlgows.Frame.{Frame}
use wlgows.Listener.{
  Listener, validate_frame, next_frame_byte_limit, minus_uint64, valid_close_status_code,
}

-- RFC 6455: no reserved bit (5.2), masked exactly by a client (5.1), and for each class of opcode its
-- rule. A control frame is whole and at most 125 bytes (5.5); a data frame continues exactly when a
-- message is open (5.4); a reserved opcode has no rule.
abbrev pub IsUnreserved : Frame → Type 0
IsUnreserved f = (f.rsv1 ≡ false) × (f.rsv2 ≡ false) × (f.rsv3 ≡ false)

abbrev pub IsLegalControl : Frame → Type 0
IsLegalControl f =
    (is_control_opcode f.opcode ≡ true) × (f.fin ≡ true) × (length f.payload_data ≤ 125)

abbrev pub IsLegalData : Listener → Frame → Type 0
IsLegalData l f =
    ((f.opcode ≡ 0) × (0 < l.current_data_frame_count))
    ⊎ (((f.opcode ≡ 1) ⊎ (f.opcode ≡ 2)) × (l.current_data_frame_count ≡ 0))

abbrev pub IsReserved : Frame → Type 0
IsReserved f = (is_control_opcode f.opcode ≡ false) × (is_data_opcode f.opcode ≡ false)

abbrev pub IsLegal : Listener → Frame → Type 0
IsLegal l f =
    IsUnreserved f
    × (f.mask ≡ l.config.peer_is_client)
    × (IsLegalControl f ⊎ IsLegalData l f ⊎ IsReserved f)

accepted_class :
    (l : Listener) (f : Frame)
    → validate_frame l f ≡ none
    → IsLegalControl f ⊎ IsLegalData l f ⊎ IsReserved f
unfolding validate_frame
accepted_class l f e = elim (Bool-cases (is_control_opcode f.opcode)) [
  | inl c ↦ inl (ground arith)
  | inr c ↦ elim (Bool-cases (is_data_opcode f.opcode)) [
    | inr r ↦ inr (inr (c, r))
    | inl d ↦ elim (Bool-cases (ltb 0 l.current_data_frame_count)) [
      | inl opened ↦ inr (inl (inl (ground arith)))
      | inr idle ↦ elim (Bool-cases (f.opcode == 1)) [
        | inl t ↦ inr (inl (inr (inl (ground arith), ground arith)))
        | inr t ↦ inr (inl (inr (inr (unfold is_data_opcode in ground arith), ground arith)))
      ]
    ]
  ]
]

-- validateFrame accepts a frame exactly when it obeys the rules of RFC 6455 that its opcode, its
-- flags, its length and the open message decide.
pub validate_frame-IsLegal : (l : Listener) (f : Frame) → (validate_frame l f ≡ none) ↔ IsLegal l f
unfolding validate_frame is_control_opcode is_data_opcode
validate_frame-IsLegal l f =
    (λ e. (ground arith, ground arith, accepted_class l f e), λ h. ground arith)

-- A data frame that passes continues a message exactly when one is open.
pub accepted-IsLegalData :
    (l : Listener) (f : Frame)
    → validate_frame l f ≡ none
    → is_data_opcode f.opcode ≡ true
    → IsLegalData l f
unfolding is_data_opcode is_control_opcode
accepted-IsLegalData l f e d = elim (accepted_class l f e) [
  | inl c ↦ absurd (ground arith)
  | inr (inl legal) ↦ legal
  | inr (inr r) ↦ absurd (ground arith)
]

limit_side : (m a n : ℕ) → a ≤ m → n ≡ max (m - a) 125 → (n ≡ 125) ⊎ (a + n ≡ m)
limit_side m a n h e = elim (Bool-cases (ltb (m - a) 125)) [
  | inl small ↦ inl (ground arith)
  | inr large ↦ inr (ground arith)
]

-- The limit that is handed to the next read, for a budget that is a uint64. None is set exactly when
-- the configuration sets none; otherwise it grants a control frame its 125 bytes, and grants more only
-- as far as what is left of the message's budget, also where the budget was lowered below what is held,
-- so that the subtraction on uint64 would wrap.
pub next_frame_byte_limit_bounds :
    (l : Listener)
    → l.config.max_msg_payload_byte_len < 2 ^ 64
    → let budget = l.config.max_msg_payload_byte_len in
      ((next_frame_byte_limit l ≡ 0) ↔ (budget ≡ 0))
      × ((budget ≡ 0)
          ⊎ ((125 ≤ next_frame_byte_limit l)
              × ((next_frame_byte_limit l ≡ 125)
                  ⊎ (l.current_data_acc_length + next_frame_byte_limit l ≡ budget))))
unfolding next_frame_byte_limit
next_frame_byte_limit_bounds l wide =
    let m = l.config.max_msg_payload_byte_len in
    let a = l.current_data_acc_length in
    elim (Bool-cases (m == 0)) [
      | inl z ↦
          let e : next_frame_byte_limit l ≡ 0 = rw z in
          ((λ _. ground arith, λ _. e), inl (ground arith))
      | inr n ↦ elim (Bool-cases (ltb m a)) [
        | inl over ↦
            let e : next_frame_byte_limit l ≡ 125 = rw (n, over) in
            ((λ p. absurd (omega arith), λ p. absurd (ground arith)), inr (omega arith, inl e))
        | inr under ↦
            let fits : a ≤ m = ground arith in
            let exact : minus_uint64 m a ≡ m - a = omega arith in
            let e : next_frame_byte_limit l ≡ max (m - a) 125 = rw (n, under, exact) in
            (
              (λ p. absurd (omega arith), λ p. absurd (ground arith)),
              inr (omega arith, limit_side m a (next_frame_byte_limit l) fits e),
            )
      ]
    ]

-- A status code may be on the wire exactly when it is 1000 to 1003, 1007 to 1014, or 3000 to 4999.
pub valid_close_status_code_iff :
    (c : ℕ)
    → (valid_close_status_code c ≡ true)
      ↔ (((1000 ≤ c) × (c ≤ 1003)) ⊎ ((1007 ≤ c) × (c ≤ 1014)) ⊎ ((3000 ≤ c) × (c ≤ 4999)))
unfolding valid_close_status_code
valid_close_status_code_iff c = (λ e. grind arith, λ h. ground arith)
