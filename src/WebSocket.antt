-- ===== src/WebSocket.antt =====
-- lib/web/websocket: the constants and tests on opcodes and codes that its parts share
-- (constants.js, util.js). A buffer is the list of its bytes.
pub mod Utf8
pub mod Frame
pub mod Connection
pub mod Consume
pub mod Machine
pub mod Payload
pub mod Receiver
pub mod Closing
mod Tests
use undici.Base.{
  ℕ, ◌+◌, ◌*◌, ◌/◌, ◌%◌, Bool, not, ◌&&◌, ◌||◌, List, [], ◌∷◌, Bytes, ltb, leb, ◌==◌, if◌then◌else◌,
}

-- `opcodes`
abbrev pub continuation_op : ℕ
continuation_op = 0x0

abbrev pub text_op : ℕ
text_op = 0x1

abbrev pub binary_op : ℕ
binary_op = 0x2

abbrev pub close_op : ℕ
close_op = 0x8

abbrev pub ping_op : ℕ
ping_op = 0x9

abbrev pub pong_op : ℕ
pong_op = 0xA

abbrev pub max_unsigned16_bit : ℕ
max_unsigned16_bit = 65535

unfoldable pub is_control_frame : ℕ → Bool
is_control_frame opcode = opcode == close_op || opcode == ping_op || opcode == pong_op

unfoldable pub is_continuation_frame : ℕ → Bool
is_continuation_frame opcode = opcode == continuation_op

unfoldable pub is_text_binary_frame : ℕ → Bool
is_text_binary_frame opcode = opcode == text_op || opcode == binary_op

unfoldable pub is_valid_opcode : ℕ → Bool
unfolding is_control_frame is_continuation_frame is_text_binary_frame
is_valid_opcode opcode =
    is_text_binary_frame opcode || is_continuation_frame opcode || is_control_frame opcode

unfoldable pub is_valid_status_code : ℕ → Bool
is_valid_status_code code =
    if leb 1000 code && ltb code 1015
    then not (code == 1004) && not (code == 1005) && not (code == 1006)
    else leb 3000 code && leb code 4999

-- `writeUInt16BE`, for a value below 2 ^ 16; it throws a RangeError for another, which each use excludes
abbrev pub uint16_be : ℕ → Bytes
uint16_be n = (n / 256) ∷ (n % 256) ∷ []

-- `readUInt16BE(0)`; the code reads only buffers of two bytes or more
abbrev pub read_uint16_be : Bytes → ℕ
read_uint16_be (a ∷ b ∷ _) = a * 256 + b
read_uint16_be _ = 0
