-- ===== src/WebSocket/Receiver/Limits.antt =====
-- Which headers pass the guards.
use Prim.Native.Nat.{bit_and}
use undici.Base.{
  ℕ, ◌*◌, ◌/◌, ◌%◌, ◌≤◌, ◌<◌, ◌≡◌, ◌⊎◌, refl, arith, true, false, ◌&&◌, Option, none, some, [], ◌∷◌,
  ◌==◌,
}
use undici.Base.Bits.{passes_below, passes_below_lem}
use undici.WebSocket.{
  is_control_frame, is_continuation_frame, is_text_binary_frame, is_valid_opcode,
}
use undici.WebSocket.Machine.{
  Settings, Machine, next, on_info, obey, refusal, read_header, FrameHeader, Refusal, calling,
  silent,
}

header_bits_table :
    passes_below 256 (λ b.
      (bit_and b 0x80 == b / 128 * 128)
      && (bit_and b 0x40 == b / 64 % 2 * 64)
      && (bit_and b 0x20 == b / 32 % 2 * 32)
      && (bit_and b 0x10 == b / 16 % 2 * 16)
      && (bit_and b 0x0F == b % 16)
      && (bit_and b 0x7F == b % 128))
    ≡ true
unfolding passes_below
header_bits_table = refl

-- The masks of a header byte, as arithmetic.
record IsSplit (b : ℕ) : Type 0 where
  bit7 : bit_and b 0x80 ≡ b / 128 * 128
  bit6 : bit_and b 0x40 ≡ b / 64 % 2 * 64
  bit5 : bit_and b 0x20 ≡ b / 32 % 2 * 32
  bit4 : bit_and b 0x10 ≡ b / 16 % 2 * 16
  low4 : bit_and b 0x0F ≡ b % 16
  low7 : bit_and b 0x7F ≡ b % 128

byte-IsSplit : (b : ℕ) → b < 256 → IsSplit b
byte-IsSplit b h = let t = passes_below_lem 256 _ b header_bits_table h in ground arith

-- What a header that passes says, with the state before it.
pub record IsAccepted (cfg : Settings) (m : Machine) (b0 b1 : ℕ) : Type 0 where
  -- the mask bit is clear
  pub unmasked : b1 < 128
  -- RSV2 and RSV3 are clear, and RSV1 too without the extension
  pub reserved : b0 / 16 % 4 ≡ 0
  pub rsv1 : (b0 / 64 % 2 ≡ 0) ⊎ (cfg.deflate ≡ true)
  -- a control frame is whole and short
  pub control : 8 ≤ b0 % 16 → (128 ≤ b0) × (b1 ≤ 125) × (b0 % 16 ≤ 10)
  -- a data frame starts a message, and is text or binary
  pub dataframe : (b0 % 16 ≡ 0) ⊎ ((b0 % 16 ≡ 1) ⊎ ((b0 % 16 ≡ 2) ⊎ (8 ≤ b0 % 16)))

-- What the guards leave of a header.
record Passed (cfg : Settings) (f : FrameHeader) : Type 0 where
  not_masked : f.masked ≡ false
  rsv1_ok : (f.rsv1 ≡ false) ⊎ (cfg.deflate ≡ true)
  rsv2_ok : f.rsv2 ≡ false
  rsv3_ok : f.rsv3 ≡ false
  control_ok : 8 ≤ f.opcode → (f.fin ≡ true) × (f.payload_length ≤ 125) × (f.opcode ≤ 10)
  opcode_ok : (f.opcode ≡ 0) ⊎ ((f.opcode ≡ 1) ⊎ ((f.opcode ≡ 2) ⊎ (8 ≤ f.opcode)))

refusal-Passed :
    (cfg : Settings) (m : Machine) (f : FrameHeader) → refusal cfg m f ≡ none → Passed cfg f
unfolding refusal is_valid_opcode is_text_binary_frame is_control_frame is_continuation_frame
refusal-Passed cfg m f h = ground arith

obey_next :
    (cfg : Settings) (m : Machine) (f : FrameHeader) (r : Option Refusal) {m' : Machine}
    → obey cfg m f r ≡ next m'
    → r ≡ none
unfolding obey
obey_next cfg m f none e = refl
obey_next cfg m f (some (calling reason)) e = cc
obey_next cfg m f (some (silent reason)) e = cc

header_lem :
    (cfg : Settings) (m : Machine) (b0 b1 : ℕ)
    → IsSplit b0
    → IsSplit b1
    → b1 < 256
    → Passed cfg (read_header b0 b1)
    → IsAccepted cfg m b0 b1
unfolding read_header
header_lem cfg m b0 b1 s0 s1 h p = ground arith

-- A header of two bytes after which the loop goes on is unmasked, has its reserved bits clear (but RSV1
-- under permessage-deflate) and one of the six opcodes; a control frame is not fragmented and has at
-- most 125 bytes.
pub on_info-IsAccepted :
    (cfg : Settings) (m : Machine) (b0 b1 : ℕ) {m' : Machine}
    → b0 < 256
    → b1 < 256
    → on_info cfg m (b0 ∷ b1 ∷ []) ≡ next m'
    → IsAccepted cfg m b0 b1
unfolding on_info
on_info-IsAccepted cfg m b0 b1 h0 h1 e =
    header_lem cfg m b0 b1 (byte-IsSplit b0 h0) (byte-IsSplit b1 h1) h1
      (refusal-Passed cfg m _ (obey_next cfg m (read_header b0 b1) _ e))
