-- ===== src/WebSocket/Machine.antt =====
-- The state of `ByteParser` (lib/web/websocket/receiver.js), and the parts of the loop in `run` that
-- deal with a frame's header and the length of its payload.
-- `Machine` holds the fields that parsing changes; the chunks wait beside it in `ByteParser`.
-- The fields of `#info` that are not set yet are `undefined`, which every test in the code takes for
-- 0 or false, and so does the model.
use Prim.Native.Nat.{bit_and}
use undici.Base.{
  ℕ, ◌+◌, ◌*◌, Bool, true, false, not, ◌&&◌, ◌||◌, Option, none, some, List, [], ◌∷◌, Bytes, codes,
  get_or, ltb, leb, ◌==◌, if◌then◌else◌,
}
use undici.WebSocket.{
  continuation_op, is_control_frame, is_continuation_frame, is_text_binary_frame, is_valid_opcode,
  read_uint16_be,
}
use undici.WebSocket.Connection.{Handler, fail_connection}

-- `parserStates`
pub data ParserState : Type 0 where
  info payload_length_16 payload_length_64 read_data : ParserState

-- `options`, and whether `#extensions` has 'permessage-deflate'
pub record Settings : Type 0 where
  pub deflate : Bool
  pub max_fragments : ℕ
  pub max_payload_size : ℕ

-- the result of `parseCloseBody`; an error carries its code and reason
pub data CloseInfo : Type 0 where
  close_info : Option ℕ → Bytes → CloseInfo
  close_error : ℕ → Bytes → CloseInfo

pub record Machine : Type 0 where
  pub state : ParserState
  pub opcode : ℕ
  pub fin : Bool
  pub fragmented : Bool
  pub masked : Bool
  pub compressed : Bool
  pub binary_type : ℕ
  pub payload_length : ℕ
  pub closing_info : Option CloseInfo
  pub fragments : List Bytes
  pub fragments_bytes : ℕ
  pub handler : Handler

-- How a round of the loop ends: with the next round, with `return callback()`, with a `return` that
-- leaves the callback uncalled, with a payload that was handed to the decompressor, or with an error.
pub data Outcome : Type 0 where
  next : Machine → Outcome
  callback : Machine → Outcome
  stop : Machine → Outcome
  inflate : Machine → Bytes → Outcome
  throws : Machine → Outcome

-- `failWebsocketConnection(this.#handler, code, reason)`
abbrev pub failed : Machine → ℕ → Bytes → Machine
failed m code reason = record m { handler = fail_connection m.handler code reason }

-- What the two bytes of a header say.
pub record FrameHeader : Type 0 where
  pub fin : Bool
  pub opcode : ℕ
  pub masked : Bool
  pub payload_length : ℕ
  pub rsv1 : Bool
  pub rsv2 : Bool
  pub rsv3 : Bool

unfoldable pub read_header : ℕ → ℕ → FrameHeader
read_header b0 b1 = record {
  fin = not (bit_and b0 0x80 == 0);
  opcode = bit_and b0 0x0F;
  masked = bit_and b1 0x80 == 0x80;
  payload_length = bit_and b1 0x7F;
  rsv1 = not (bit_and b0 0x40 == 0);
  rsv2 = not (bit_and b0 0x20 == 0);
  rsv3 = not (bit_and b0 0x10 == 0);
}

abbrev pub is_fragmented : FrameHeader → Bool
is_fragmented f = not f.fin && not (f.opcode == continuation_op)

pub data Refusal : Type 0 where
  -- with `return callback()`
  calling : Bytes → Refusal
  -- with `return`
  silent : Bytes → Refusal

abbrev pub is_empty : List Bytes → Bool
is_empty [] = true
is_empty (b ∷ bs) = false

-- The guards on a header, in order; all of them fail the connection with code 1002.
unfoldable pub refusal : Settings → Machine → FrameHeader → Option Refusal
unfolding is_valid_opcode is_text_binary_frame is_control_frame is_continuation_frame
refusal cfg m f =
    if not (is_valid_opcode f.opcode)
    then some (calling (codes "Invalid opcode received"))
    else if f.masked
    then some (calling (codes "Frame cannot be masked"))
    else if f.rsv1 && not cfg.deflate
    then some (silent (codes "Expected RSV1 to be clear."))
    else if f.rsv2 || f.rsv3
    then some (silent (codes "RSV1, RSV2, RSV3 must be clear"))
    else if is_fragmented f && not (is_text_binary_frame f.opcode)
    then some (silent (codes "Invalid frame type was fragmented."))
    else if is_text_binary_frame f.opcode && not (is_empty m.fragments)
    then some (silent (codes "Expected continuation frame"))
    else if m.fragmented && is_fragmented f
    then some (silent (codes "Fragmented frame exceeded 125 bytes."))
    else if (ltb 125 f.payload_length || is_fragmented f) && is_control_frame f.opcode
    then some (silent (codes "Control frame either too large or fragmented"))
    else if is_continuation_frame f.opcode && is_empty m.fragments && not m.compressed
    then some (silent (codes "Unexpected continuation frame"))
    else none

-- `#validatePayloadLength` without its effect; it reads the opcode and length in `#info`
unfoldable pub payload_fits : Settings → Machine → Bool
unfolding is_control_frame
payload_fits cfg m = not (
    ltb 0 cfg.max_payload_size
    && not (is_control_frame m.opcode)
    && ltb cfg.max_payload_size (m.payload_length + m.fragments_bytes))

abbrev pub too_large : Machine → Outcome
too_large m = stop (failed m 1009 (codes "Payload size exceeds maximum allowed size"))

-- the assignments at the end of the header's branch
unfoldable pub keep_header : Machine → FrameHeader → Machine
unfolding is_text_binary_frame
keep_header m f = record m {
  binary_type = if is_text_binary_frame f.opcode then f.opcode else m.binary_type;
  compressed = if is_text_binary_frame f.opcode then f.rsv1 else m.compressed;
  opcode = f.opcode;
  masked = f.masked;
  fin = f.fin;
  fragmented = is_fragmented f;
}

-- The header's branch behind the guards. The length is checked before `#info.opcode` is set.
unfoldable pub accept_header : Settings → Machine → FrameHeader → Outcome
accept_header cfg m f =
    if leb f.payload_length 125
    then (let m' = record m { payload_length = f.payload_length; state = read_data } in
        if payload_fits cfg m' then next (keep_header m' f) else too_large m')
    else if f.payload_length == 126
    then next (keep_header (record m { state = payload_length_16 }) f)
    else if f.payload_length == 127
    then next (keep_header (record m { state = payload_length_64 }) f)
    else next (keep_header m f)

-- the end of the header's branch: at a guard, or behind all of them
unfoldable pub obey : Settings → Machine → FrameHeader → Option Refusal → Outcome
obey cfg m f none = accept_header cfg m f
obey cfg m f (some (calling reason)) = callback (failed m 1002 reason)
obey cfg m f (some (silent reason)) = stop (failed m 1002 reason)

-- the state INFO, on the two bytes that were consumed
unfoldable pub on_info : Settings → Machine → Bytes → Outcome
on_info cfg m buffer =
    let f = read_header (get_or buffer 0 0) (get_or buffer 1 0) in obey cfg m f (refusal cfg m f)

-- `readUInt32BE(i)`
abbrev pub read_uint32_be : Bytes → ℕ → ℕ
read_uint32_be b i =
    ((get_or b i 0 * 256 + get_or b (i + 1) 0) * 256 + get_or b (i + 2) 0) * 256
    + get_or b (i + 3) 0

-- the check that follows an extended length
abbrev pub check_length : Settings → Machine → Outcome
check_length cfg m = if payload_fits cfg m then next m else too_large m

-- the state PAYLOADLENGTH_16
unfoldable pub on_length_16 : Settings → Machine → Bytes → Outcome
on_length_16 cfg m buffer =
    check_length cfg (record m { payload_length = read_uint16_be buffer; state = read_data })

-- the state PAYLOADLENGTH_64
unfoldable pub on_length_64 : Settings → Machine → Bytes → Outcome
on_length_64 cfg m buffer =
    let upper = read_uint32_be buffer 0 in
    let lower = read_uint32_be buffer 4 in
    if not (upper == 0) || ltb 0x7fff_ffff lower
    then stop (failed m 1009 (codes "Received payload length > 2^31 bytes."))
    else check_length cfg (record m { payload_length = lower; state = read_data })
