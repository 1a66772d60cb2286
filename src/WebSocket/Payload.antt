-- ===== src/WebSocket/Payload.antt =====
-- What `ByteParser` (lib/web/websocket/receiver.js) does with a payload: control frames, fragments of
-- a message, and the results of the decompressor.
use undici.Base.{
  ℕ, ◌+◌, Bool, true, false, not, ◌&&◌, ◌||◌, Option, none, some, [], ◌∷◌, ◌++◌, Bytes, codes,
  length, ltb, ◌==◌, if◌then◌else◌,
}
use undici.WebSocket.{
  close_op, ping_op, pong_op, is_control_frame, is_valid_status_code, uint16_be, read_uint16_be,
}
use undici.WebSocket.Connection.{Handler, closing, write, message, on_ping, on_pong, emit}
use undici.WebSocket.Consume.{joined}
use undici.WebSocket.Utf8.{without_bom, utf8_decode}
use undici.WebSocket.Machine.{
  info, Settings, Machine, Outcome, next, stop, inflate, throws, failed, CloseInfo, close_info,
  close_error,
}

-- the reason, once the code has passed
unfoldable pub close_reason : Option ℕ → Bytes → CloseInfo
unfolding without_bom utf8_decode
close_reason code rest = elim (utf8_decode (without_bom rest)) [
  | none ↦ close_error 1007 (codes "Invalid UTF-8")
  | some reason ↦ close_info code reason
]

-- `parseCloseBody`; `none` is the assertion that fails on a body of one byte
unfoldable pub parse_close_body : Bytes → Option CloseInfo
unfolding is_valid_status_code close_reason
parse_close_body [] = some (close_reason none [])
parse_close_body (a ∷ []) = none
parse_close_body (a ∷ b ∷ rest) =
    let code = read_uint16_be (a ∷ b ∷ []) in
    some (
      if not (is_valid_status_code code)
      then close_error 1002 (codes "Invalid status code")
      else close_reason (some code) rest)

-- the body of the answering Close frame: the code alone, and nothing for no code or the code 0
abbrev pub echo_body : Option ℕ → Bytes
echo_body none = []
echo_body (some code) = if code == 0 then [] else uint16_be code

-- the answer to a well-formed Close frame
unfoldable pub answer_close : Handler → Option ℕ → Handler
answer_close h code =
    let h' =
      if not h.sent && not h.received
      then record (emit h (write close_op (echo_body code))) { sent = true }
      else h in
    record h' { ready_state = closing; received = true }

-- a Close frame whose body was parsed
unfoldable pub end_close : Machine → CloseInfo → Machine
end_close m (close_error code reason) =
    failed (record m { closing_info = some (close_error code reason) }) code reason
end_close m (close_info code reason) = record m {
  closing_info = some (close_info code reason);
  handler = answer_close m.handler code;
}

-- a Close frame, behind `parseCloseBody`
unfoldable pub close_with : Machine → Option CloseInfo → Option (Bool × Machine)
close_with m none = none
close_with m (some parsed) = some (false, end_close m parsed)

-- `parseControlFrame`: whether the loop goes on, and the machine; `none` is a thrown error
unfoldable pub parse_control_frame : Machine → Bytes → Option (Bool × Machine)
parse_control_frame m body =
    if m.opcode == close_op
    then (if m.payload_length == 1
        then some (false, failed m 1002 (codes "Received close frame with a 1-byte body."))
        else close_with m (parse_close_body body))
    else if m.opcode == ping_op
    then some (
      true,
      if not m.handler.received
          then record m { handler = emit (emit m.handler (write pong_op body)) (on_ping body) }
          else m,
    )
    else if m.opcode == pong_op
    then some (true, record m { handler = emit m.handler (on_pong body) })
    else some (true, m)

-- `writeFragments`: `none` where it returns false, having failed the connection
unfoldable pub write_fragments : Settings → Machine → Bytes → Option Machine
write_fragments cfg m fragment =
    if ltb 0 cfg.max_fragments && length m.fragments == cfg.max_fragments
    then none
    else some (record m {
      fragments_bytes = m.fragments_bytes + length fragment;
      fragments = m.fragments ++ (fragment ∷ []);
    })

abbrev pub too_many : Machine → Outcome
too_many m = stop (failed m 1008 (codes "Too many message fragments"))

-- The data of `consumeFragments`. `none` is a buffer that the fragments do not fill exactly: `set` throws a
-- RangeError where it is too small, and where it is too large a part of it is never written.
unfoldable pub consume_fragments : Machine → Option Bytes
consume_fragments m = elim m.fragments [
  | [] ↦ if m.fragments_bytes == 0 then some [] else none
  | first ∷ rest ↦
      if length rest == 0 || m.fragments_bytes == length (joined (first ∷ rest))
      then some (joined (first ∷ rest))
      else none
]

-- the message that arrived, and the parser behind it
unfoldable pub announce : Machine → Option Bytes → Option Machine
announce m none = none
announce m (some body) = some (record m {
  handler = emit m.handler (message m.binary_type body);
  compressed = false;
  fragments = [];
  fragments_bytes = 0;
})

-- `websocketMessageReceived(…, this.consumeFragments())`; `none` where that throws
unfoldable pub deliver : Machine → Option Machine
unfolding announce consume_fragments
deliver m = announce m (consume_fragments m)

-- the state that follows a payload, and the next round; or the error thrown
unfoldable pub finish_fragment : Machine → Option Machine → Outcome
finish_fragment m none = throws m
finish_fragment m (some m') = next (record m' { state = info })

-- a data frame that is not compressed, behind `writeFragments`
unfoldable pub add_fragment : Machine → Option Machine → Outcome
add_fragment m none = too_many m
add_fragment m (some m') =
    finish_fragment m' (if not m'.fragmented && m'.fin then deliver m' else some m')

-- a control frame, behind `parseControlFrame`
unfoldable pub end_control : Machine → Option (Bool × Machine) → Outcome
end_control m none = throws m
end_control m (some (loop, m')) =
    let m'' = record m' { state = info } in if loop then next m'' else stop m''

-- the state READ_DATA, on the payload
unfoldable pub on_payload : Settings → Machine → Bytes → Outcome
on_payload cfg m body =
    if is_control_frame m.opcode
    then end_control m (parse_control_frame m body)
    else if not m.compressed
    then add_fragment m (write_fragments cfg m body)
    else inflate m body

-- What the decompressor calls back with: an error, which is a MessageSizeExceededError or another,
-- with its message, or the data.
pub data Inflated : Type 0 where
  inflate_error : Bool → Bytes → Inflated
  inflated : Bytes → Inflated

-- the callback's part behind `writeFragments`
unfoldable pub add_inflated : Settings → Machine → Option Machine → Outcome
add_inflated cfg m none = too_many m
add_inflated cfg m (some m') =
    if ltb 0 cfg.max_payload_size && ltb cfg.max_payload_size m'.fragments_bytes
    then stop (failed m' 1009 (codes "Max decompressed message size exceeded"))
    else finish_fragment m' (if not m'.fin then some m' else deliver m')

-- the callback given to `decompress`, up to its call of `run`
unfoldable pub on_inflated : Settings → Machine → Inflated → Outcome
on_inflated cfg m (inflate_error size_exceeded reason) =
    stop (failed m (if size_exceeded then 1009 else 1007) reason)
on_inflated cfg m (inflated body) = add_inflated cfg m (write_fragments cfg m body)
