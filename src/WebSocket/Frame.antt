-- ===== src/WebSocket/Frame.antt =====
-- lib/web/websocket/frame.js: the frames that the client sends.
-- `randomFillSync` is the platform's: the bytes that it puts into the buffer at its n-th call are a
-- parameter. A byte buffer that the code allocates and fills is built as a list.
pub mod Decode
pub mod Keys
use Prim.Native.Nat.{bit_and, bit_or, bit_xor}
use undici.Base.{
  ℕ, zero, suc, ◌+◌, ◌*◌, ◌/◌, ◌%◌, ◌^◌, Bool, Option, none, some, List, [], ◌∷◌, ◌++◌, Bytes,
  length, ltb, ◌==◌, if◌then◌else◌,
}
use undici.WebSocket.{text_op, max_unsigned16_bit, uint16_be}

pub record MaskKey : Type 0 where
  pub k0 : ℕ
  pub k1 : ℕ
  pub k2 : ℕ
  pub k3 : ℕ

abbrev pub buffer_size : ℕ
buffer_size = 8 * 1024

-- The module's variables: `fills` counts the calls of `randomFillSync`, and `buffer` is its last one.
pub record MaskState : Type 0 where
  pub fills : ℕ
  pub buf_idx : ℕ

abbrev pub new_mask_state : MaskState
new_mask_state = record { fills = 0; buf_idx = buffer_size }

-- `generateMask`; `random n i` is byte `i` of the n-th filling
unfoldable pub generate_mask : (ℕ → ℕ → ℕ) → MaskState → MaskKey × MaskState
generate_mask random s =
    let s' : MaskState =
      if s.buf_idx == buffer_size then record { fills = s.fills + 1; buf_idx = 0 } else s in
    let byte = λ (i : ℕ). random s'.fills (s'.buf_idx + i) in
    (
      record { k0 = byte 0; k1 = byte 1; k2 = byte 2; k3 = byte 3 },
      record s' { buf_idx = s'.buf_idx + 4 },
    )

-- `maskKey[i]`, for the values that `& 3` takes
unfoldable pub key_byte : MaskKey → ℕ → ℕ
key_byte k i = if i == 0 then k.k0 else if i == 1 then k.k1 else if i == 2 then k.k2 else k.k3

-- the loop `frameData[i] ^ maskKey[i & 3]`, from index `i` on
unfoldable pub mask_from : MaskKey → ℕ → Bytes → Bytes
mask_from k i [] = []
mask_from k i (b ∷ bs) = bit_xor b (key_byte k (bit_and i 3)) ∷ mask_from k (i + 1) bs

-- `payloadLength`, which the second byte holds
unfoldable pub payload_code : ℕ → ℕ
payload_code body_length =
    if ltb max_unsigned16_bit body_length
    then 127
    else if ltb 125 body_length
    then 126
    else body_length

-- `writeUIntBE(n, 4, 6)` behind two cleared bytes, for n below 2^48
abbrev pub uint64_be : ℕ → Bytes
uint64_be n =
    0
    ∷ 0
    ∷ (n / 2 ^ 40 % 256)
    ∷ (n / 2 ^ 32 % 256)
    ∷ (n / 2 ^ 24 % 256)
    ∷ (n / 2 ^ 16 % 256)
    ∷ (n / 2 ^ 8 % 256)
    ∷ (n % 256)
    ∷ []

-- the extended length, between the second byte and the mask key
unfoldable pub extended_length : ℕ → Bytes
extended_length body_length =
    if payload_code body_length == 126
    then uint16_be body_length
    else if payload_code body_length == 127
    then uint64_be body_length
    else []

abbrev pub key_bytes : MaskKey → Bytes
key_bytes k = k.k0 ∷ k.k1 ∷ k.k2 ∷ k.k3 ∷ []

-- `createFrame`, with the key that `generateMask` gave; no data is an empty body
unfoldable pub create_frame : MaskKey → ℕ → Bytes → Bytes
create_frame k opcode body =
    (bit_and (bit_or 0 0x80) 0xF0 + opcode)
    ∷ bit_or (payload_code (length body)) 0x80
    ∷ (extended_length (length body) ++ (key_bytes k ++ mask_from k 0 body))

-- `createFastTextFrame`: the head and the masked body
unfoldable pub create_fast_text_frame : MaskKey → Bytes → Bytes × Bytes
create_fast_text_frame k body = (
  bit_or 0x80 text_op
      ∷ bit_or (payload_code (length body)) 0x80
      ∷ (extended_length (length body) ++ key_bytes k),
  mask_from k 0 body,
)
