-- ===== src/Opcode.antt =====
-- FrameOpcode.go: the opcodes of RFC 6455 5.2 and their two classes.
use wlgows.Base.{ℕ, Bool, ◌||◌, ◌==◌}

abbrev pub opcode_continuation : ℕ
opcode_continuation = 0x0

abbrev pub opcode_text : ℕ
opcode_text = 0x1

abbrev pub opcode_binary : ℕ
opcode_binary = 0x2

abbrev pub opcode_close : ℕ
opcode_close = 0x8

abbrev pub opcode_ping : ℕ
opcode_ping = 0x9

abbrev pub opcode_pong : ℕ
opcode_pong = 0xA

unfoldable pub is_control_opcode : ℕ → Bool
is_control_opcode opcode =
    opcode == opcode_close || (opcode == opcode_ping || opcode == opcode_pong)

unfoldable pub is_data_opcode : ℕ → Bool
is_data_opcode opcode =
    opcode == opcode_continuation || (opcode == opcode_text || opcode == opcode_binary)
