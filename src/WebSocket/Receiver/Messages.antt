-- ===== src/WebSocket/Receiver/Messages.antt =====
-- The messages that a well-behaved server sends arrive, whole and in order.
use Prim.Native.Nat.{bit_and}
use undici.Base.{
  ℕ, ◌+◌, ◌*◌, ◌/◌, ◌%◌, ◌^◌, ◌≤◌, ◌<◌, ◌≡◌, ◌⊎◌, refl, ◌∙◌, arith, true, false, none, [], ◌∷◌,
  ◌++◌, Bytes, length, append-nil, ◌==◌, if◌then◌else◌, ltb, leb, ◌&&◌,
}
use undici.Base.Bits.{passes_below, passes_below_lem}
use undici.WebSocket.{is_control_frame, uint16_be, text_op, binary_op}
use undici.WebSocket.Connection.{message, emit}
use undici.WebSocket.Machine.{
  ParserState, info, payload_length_16, payload_length_64, read_data, Settings, Machine, next,
  on_info, on_length_16, on_length_64, accept_header, keep_header, refusal, read_header,
  FrameHeader, payload_fits, obey,
}
use undici.WebSocket.Payload.{
  write_fragments, deliver, announce, consume_fragments, finish_fragment, on_payload, add_fragment,
}

-- A message that a server sends in one frame.
pub data DataKind : Type 0 where
  text binary : DataKind

abbrev pub op_of : DataKind → ℕ
op_of text = text_op
op_of binary = binary_op

-- RFC 6455, section 5.2: the length of an unmasked frame, and the frame.
abbrev pub uint32_be : ℕ → Bytes
uint32_be n = (n / 2 ^ 24) ∷ (n / 2 ^ 16 % 256) ∷ (n / 2 ^ 8 % 256) ∷ (n % 256) ∷ []

abbrev pub length_bytes : ℕ → Bytes
length_bytes n =
    if leb n 125
    then n ∷ []
    else if leb n 65535
    then 126 ∷ uint16_be n
    else 127 ∷ 0 ∷ 0 ∷ 0 ∷ 0 ∷ uint32_be n

abbrev pub server_frame : DataKind → Bytes → Bytes
server_frame kind payload = (128 + op_of kind) ∷ (length_bytes (length payload) ++ payload)

-- The parser is between messages.
pub record IsIdle (m : Machine) : Type 0 where
  pub at_header : m.state ≡ info
  pub no_fragments : m.fragments ≡ []
  pub no_bytes : m.fragments_bytes ≡ 0
  pub plain : m.compressed ≡ false

abbrev pub Fits : Settings → ℕ → Type 0
Fits cfg n = (n < 2 ^ 31) × ((cfg.max_payload_size ≡ 0) ⊎ (n ≤ cfg.max_payload_size))

low_bits_table : passes_below 128 (λ n. bit_and n 0x80 == 0 && bit_and n 0x7F == n) ≡ true
unfolding passes_below
low_bits_table = refl

low_bits : (n : ℕ) → n < 128 → (bit_and n 0x80 ≡ 0) × (bit_and n 0x7F ≡ n)
low_bits n h =
    let t =
      passes_below_lem 128 (λ n. bit_and n 0x80 == 0 && bit_and n 0x7F == n) n low_bits_table h in
    (ground arith, ground arith)

abbrev header_of : DataKind → ℕ → FrameHeader
header_of kind n = record {
  fin = true;
  opcode = op_of kind;
  masked = false;
  payload_length = n;
  rsv1 = false;
  rsv2 = false;
  rsv3 = false;
}

read_header_of :
    (kind : DataKind) (n : ℕ) → n < 128 → read_header (128 + op_of kind) n ≡ header_of kind n
unfolding read_header
read_header_of text n h = ground (arith, low_bits n h)
read_header_of binary n h = ground (arith, low_bits n h)

refusal_of :
    (cfg : Settings) (m : Machine) (kind : DataKind) (n : ℕ)
    → IsIdle m
    → refusal cfg m (header_of kind n) ≡ none
unfolding refusal
refusal_of cfg m text n v = ground arith
refusal_of cfg m binary n v = ground arith

-- The machine behind the header of such a frame, and behind its payload.
abbrev pub headed : Machine → DataKind → ParserState → ℕ → Machine
headed m kind state n = record m {
  state = state;
  opcode = op_of kind;
  fin = true;
  fragmented = false;
  masked = false;
  compressed = false;
  binary_type = op_of kind;
  payload_length = n;
}

abbrev pub delivered : Machine → DataKind → Bytes → Machine
delivered m kind payload = record m {
  state = info;
  opcode = op_of kind;
  fin = true;
  fragmented = false;
  masked = false;
  compressed = false;
  binary_type = op_of kind;
  payload_length = length payload;
  fragments = [];
  fragments_bytes = 0;
  handler = emit m.handler (message (op_of kind) payload);
}

module _ (cfg : Settings) (m : Machine) (v : IsIdle m) where
  on_info_of :
      (kind : DataKind) (n : ℕ)
      → n < 128
      → on_info cfg m ((128 + op_of kind) ∷ n ∷ []) ≡ accept_header cfg m (header_of kind n)
  unfolding on_info obey
  on_info_of kind n h = rw (read_header_of kind n h, refusal_of cfg m kind n v)

  payload_fits_of :
      (m' : Machine)
      → m'.fragments_bytes ≡ 0
      → Fits cfg m'.payload_length
      → payload_fits cfg m' ≡ true
  unfolding payload_fits
  payload_fits_of m' z f = ground arith

  pub on_info_small :
      (kind : DataKind) (n : ℕ)
      → n ≤ 125
      → Fits cfg n
      → on_info cfg m ((128 + op_of kind) ∷ n ∷ []) ≡ next (headed m kind read_data n)
  unfolding accept_header keep_header
  on_info_small text n h f =
      on_info_of text n (omega arith)
      ∙ ground
          (arith, payload_fits_of (record m { payload_length = n; state = read_data }) v.no_bytes f)
  on_info_small binary n h f =
      on_info_of binary n (omega arith)
      ∙ ground
          (arith, payload_fits_of (record m { payload_length = n; state = read_data }) v.no_bytes f)

  pub on_info_16 :
      (kind : DataKind)
      → on_info cfg m ((128 + op_of kind) ∷ 126 ∷ [])
        ≡ next (headed m kind payload_length_16 m.payload_length)
  unfolding accept_header keep_header
  on_info_16 text = on_info_of text 126 (omega arith) ∙ refl
  on_info_16 binary = on_info_of binary 126 (omega arith) ∙ refl

  pub on_info_64 :
      (kind : DataKind)
      → on_info cfg m ((128 + op_of kind) ∷ 127 ∷ [])
        ≡ next (headed m kind payload_length_64 m.payload_length)
  unfolding accept_header keep_header
  on_info_64 text = on_info_of text 127 (omega arith) ∙ refl
  on_info_64 binary = on_info_of binary 127 (omega arith) ∙ refl

  pub on_length_16_of :
      (kind : DataKind) (k n : ℕ)
      → n ≤ 65535
      → Fits cfg n
      → on_length_16 cfg (headed m kind payload_length_16 k) (uint16_be n)
        ≡ next (headed m kind read_data n)
  unfolding on_length_16
  on_length_16_of kind k n h f =
      let e : n / 256 * 256 + n % 256 ≡ n = omega arith in
      rw e (rw (payload_fits_of (headed m kind read_data n) v.no_bytes f))

  pub on_length_64_of :
      (kind : DataKind) (k n : ℕ)
      → Fits cfg n
      → on_length_64 cfg (headed m kind payload_length_64 k) (0 ∷ 0 ∷ 0 ∷ 0 ∷ uint32_be n)
        ≡ next (headed m kind read_data n)
  unfolding on_length_64
  on_length_64_of kind k n f =
      let e : ((n / 2 ^ 24 * 256 + n / 2 ^ 16 % 256) * 256 + n / 2 ^ 8 % 256) * 256 + n % 256 ≡ n =
        omega arith in
      rw e (rw (lt_false, payload_fits_of (headed m kind read_data n) v.no_bytes f))
    where
      lt_false : ltb 0x7fff_ffff n ≡ false
      lt_false = ground arith

  pub on_payload_of :
      (kind : DataKind) (payload : Bytes)
      → on_payload cfg (headed m kind read_data (length payload)) payload
        ≡ next (delivered m kind payload)
  unfolding on_payload is_control_frame write_fragments add_fragment deliver announce
      consume_fragments finish_fragment
  on_payload_of text payload = ground (arith, append-nil payload)
  on_payload_of binary payload = ground (arith, append-nil payload)
