-- ===== src/WebSocket/Tests.antt =====
-- Runs of the WebSocket parts on concrete bytes, and their theorems at these inputs.
use undici.Base.{
  ℕ, ◌+◌, ◌*◌, ◌%◌, ◌≡◌, refl, arith, true, false, some, List, [], ◌∷◌, ◌++◌, Bytes, codes, inr,
}
use undici.WebSocket.{text_op, is_valid_opcode, is_valid_status_code}
use undici.WebSocket.Utf8.{is_utf8, without_bom, utf8_decode}
use undici.WebSocket.Frame.{
  MaskKey, create_frame, mask_from, key_byte, payload_code, extended_length,
}
use undici.WebSocket.Frame.Decode.{AllBytes, decode_frame, IsKey, decode_frame-create_frame}
use undici.WebSocket.Connection.{
  closing, Handler, Effect, write, message, on_ping, abort, destroy, open_state, fail_connection,
  start_closing, close_body, drop_connection,
}
use undici.WebSocket.Closing.{IsClosing, close_connection-IsClosing}
use undici.Base.{ok}
use undici.WebSocket.Connection.{is_out_of_range, validate_close, close_in, close_connection}
use undici.WebSocket.Consume.{joined, gather, consume_chunks, consume}
use undici.WebSocket.Machine.{
  read_data, Settings, Machine, next, FrameHeader, read_header, refusal, payload_fits, keep_header,
  accept_header, obey, on_info,
}
use undici.WebSocket.Payload.{
  finish_fragment, close_with, close_reason, parse_close_body, answer_close, end_close,
  parse_control_frame, write_fragments, deliver, add_fragment, end_control, on_payload, inflated,
}
use undici.WebSocket.Receiver.{
  ByteParser, Run, waits, called, stopped, needed_in, handle_in, run_rounds, run, write_chunk,
  resume, new_parser,
}
use undici.WebSocket.Receiver.Flat.{View, map_run, view}
use undici.WebSocket.Receiver.Fuel.{IsSpinning}
use undici.WebSocket.Receiver.Safe.{Safe}
use undici.WebSocket.Receiver.Chunks.{feed, feed_chunks, write_chunk-ends, write_chunk-Safe}
use undici.WebSocket.Receiver.Invariant.{IsSound, RunOf}
use undici.WebSocket.Receiver.Sound.{write_chunk-IsSound, resume-IsSound}
use undici.WebSocket.Receiver.Limits.{IsAccepted, on_info-IsAccepted}
use undici.WebSocket.Receiver.Messages.{text, binary}
use undici.WebSocket.Receiver.Delivery.{Message, feed_messages}

abbrev settings : Settings
settings = record { deflate = false; max_fragments = 0; max_payload_size = 10 }

abbrev handler : Handler
handler = record {
  ready_state = open_state;
  sent = false;
  received = false;
  destroyed = false;
  log = [];
}

abbrev parser : ByteParser
parser = new_parser handler

abbrev two_messages : List Message
two_messages = (text, codes "hello") ∷ (binary, 1 ∷ 2 ∷ []) ∷ []

abbrev chunks : List Bytes
chunks = (0x81 ∷ []) ∷ (5 ∷ codes "hel") ∷ [] ∷ (codes "lo" ++ (0x82 ∷ 2 ∷ 1 ∷ 2 ∷ [])) ∷ []

abbrev key : MaskKey
key = record { k0 = 0x37; k1 = 0xfa; k2 = 0x21; k3 = 0x3d }

-- the example of RFC 6455, section 5.7
masked_hello :
    create_frame key text_op (codes "Hello")
    ≡ 0x81 ∷ 0x85 ∷ 0x37 ∷ 0xfa ∷ 0x21 ∷ 0x3d ∷ 0x7f ∷ 0x9f ∷ 0x4d ∷ 0x51 ∷ 0x58 ∷ []
unfolding create_frame mask_from key_byte payload_code extended_length
masked_hello = refl

-- the log and the ending of a run
abbrev log_of : Run ByteParser → List Effect
log_of (waits p) = p.machine.handler.log
log_of (called p) = p.machine.handler.log
log_of (stopped p) = p.machine.handler.log
log_of _ = []

fragmented_and_ping :
    log_of (
      write_chunk settings parser
        (0x01 ∷ 2 ∷ codes "ab" ++ (0x89 ∷ 0 ∷ []) ++ (0x80 ∷ 1 ∷ codes "c")))
    ≡ write 10 [] ∷ on_ping [] ∷ message 1 (codes "abc") ∷ []
unfolding write_chunk run run_rounds needed_in handle_in consume consume_chunks gather on_info obey
    refusal read_header accept_header keep_header payload_fits on_payload parse_control_frame
    end_control write_fragments add_fragment finish_fragment deliver is_valid_opcode
fragmented_and_ping = refl

close_answered :
    log_of (write_chunk settings parser (0x88 ∷ 4 ∷ 0x03 ∷ 0xe8 ∷ codes "ok"))
    ≡ write 8 (0x03 ∷ 0xe8 ∷ []) ∷ []
unfolding write_chunk run run_rounds needed_in handle_in consume consume_chunks gather on_info obey
    refusal read_header accept_header keep_header payload_fits on_payload parse_control_frame
    end_control close_with parse_close_body close_reason utf8_decode without_bom is_utf8
    is_valid_status_code answer_close end_close is_valid_opcode
close_answered = refl

utf8_runs : (is_utf8 (0xe2 ∷ 0x82 ∷ 0xac ∷ []) ≡ true) × (is_utf8 (0xed ∷ 0xa0 ∷ 0x80 ∷ []) ≡ false)
unfolding is_utf8
utf8_runs = (refl, refl)

-- A ping of one byte behind ten bytes of a fragmented message fails the connection, though the limit
-- does not concern it.
ping_refused :
    log_of (write_chunk settings parser (0x01 ∷ 10 ∷ codes "0123456789" ++ (0x89 ∷ 1 ∷ 0 ∷ [])))
    ≡ write 8 (0x03 ∷ 0xf1 ∷ codes "Payload size exceeds maximum allowed size")
      ∷ abort
      ∷ destroy
      ∷ []
unfolding write_chunk run run_rounds needed_in handle_in consume consume_chunks gather on_info obey
    refusal read_header accept_header keep_header payload_fits on_payload write_fragments
    add_fragment finish_fragment is_valid_opcode fail_connection start_closing close_body
    drop_connection
ping_refused = refl

-- Behind a ping, a text of eleven bytes is delivered under a limit of ten.
long_text_delivered :
    log_of (write_chunk settings parser (0x89 ∷ 0 ∷ 0x81 ∷ 11 ∷ codes "0123456789a"))
    ≡ write 10 [] ∷ on_ping [] ∷ message 1 (codes "0123456789a") ∷ []
unfolding write_chunk run run_rounds needed_in handle_in consume consume_chunks gather on_info obey
    refusal read_header accept_header keep_header payload_fits on_payload parse_control_frame
    end_control write_fragments add_fragment finish_fragment deliver is_valid_opcode
long_text_delivered = refl

key-IsKey : IsKey key
key-IsKey = omega arith

decode_frame-create_frame_example :
    AllBytes (create_frame key text_op (codes "Hello"))
    × (decode_frame (create_frame key text_op (codes "Hello") ++ (1 ∷ []))
        ≡ some (record { fin = true; opcode = 1; payload = codes "Hello"; rest = 1 ∷ [] }))
decode_frame-create_frame_example =
    decode_frame-create_frame key text_op (codes "Hello") (1 ∷ []) key-IsKey (omega arith)
      (omega arith) (omega arith)

abbrev random : ℕ → ℕ → ℕ
random n i = (n * 7 + i) % 256

abbrev log_behind : Run View → List Effect
log_behind (waits p) = p.0.handler.log
log_behind (called p) = p.0.handler.log
log_behind _ = []

-- A ping in the chunk behind an invalid header is still answered; in the same chunk it is not read.
ping_apart :
    log_behind (feed settings (new_parser handler) ((0x83 ∷ 0 ∷ []) ∷ (0x89 ∷ 0 ∷ []) ∷ []))
    ≡ write 8 (0x03 ∷ 0xea ∷ codes "Invalid opcode received")
      ∷ abort
      ∷ destroy
      ∷ write 10 []
      ∷ on_ping []
      ∷ []
unfolding feed write_chunk run run_rounds needed_in handle_in consume consume_chunks on_info obey
    refusal read_header accept_header keep_header payload_fits on_payload parse_control_frame
    end_control is_valid_opcode fail_connection start_closing close_body drop_connection
ping_apart = refl

ping_along :
    log_behind (feed settings (new_parser handler) ((0x83 ∷ 0 ∷ 0x89 ∷ 0 ∷ []) ∷ []))
    ≡ write 8 (0x03 ∷ 0xea ∷ codes "Invalid opcode received") ∷ abort ∷ destroy ∷ []
unfolding feed write_chunk run run_rounds needed_in handle_in consume consume_chunks on_info obey
    refusal read_header is_valid_opcode fail_connection start_closing close_body drop_connection
ping_along = refl

feed_chunks_example :
    feed settings (new_parser handler) chunks
    ≡ map_run view (write_chunk settings (new_parser handler) (joined chunks))
unfolding write_chunk run run_rounds needed_in handle_in on_info read_header refusal obey
    accept_header payload_fits keep_header on_payload write_fragments deliver consume consume_chunks
    add_fragment finish_fragment
feed_chunks_example = feed_chunks settings handler chunks (λ s. s)

feed_messages_example :
    (m : Machine) × (feed settings (new_parser handler) chunks ≡ waits (m, []))
    × (m.handler ≡ record handler { log = message 1 (codes "hello") ∷ message 2 (1 ∷ 2 ∷ []) ∷ [] })
feed_messages_example =
    feed_messages settings handler two_messages chunks
      ((omega arith, inr (omega arith)), ((omega arith, inr (omega arith)), tt)) refl

write_chunk-ends_example : ¬ IsSpinning (write_chunk settings parser (0x81 ∷ 5 ∷ []))
write_chunk-ends_example = write_chunk-ends settings parser (0x81 ∷ 5 ∷ []) refl

parser-IsSound : IsSound settings parser.machine
parser-IsSound = record {
  sizes = refl;
  few = λ h. omega arith;
  coherent = record { one_close = refl; open_unclosed = λ h. (refl, refl) };
}

write_chunk-Safe_example : Safe settings (write_chunk settings parser (0x81 ∷ 5 ∷ []))
write_chunk-Safe_example = write_chunk-Safe settings parser (0x81 ∷ 5 ∷ []) refl parser-IsSound

write_chunk-IsSound_example : RunOf (IsSound settings) (write_chunk settings parser (0x88 ∷ 0 ∷ []))
write_chunk-IsSound_example = write_chunk-IsSound settings parser (0x88 ∷ 0 ∷ []) parser-IsSound

resume-IsSound_example : RunOf (IsSound settings) (resume settings parser (inflated (codes "text")))
resume-IsSound_example = resume-IsSound settings parser (inflated (codes "text")) parser-IsSound

-- the header of a text frame, and the machine behind it
abbrev after_header : Machine
after_header = record parser.machine {
  state = read_data;
  opcode = 1;
  fin = true;
  binary_type = 1;
  payload_length = 5;
}

header_passes : on_info settings parser.machine (0x81 ∷ 5 ∷ []) ≡ next after_header
unfolding on_info obey refusal read_header accept_header keep_header payload_fits is_valid_opcode
header_passes = refl

on_info-IsAccepted_example : IsAccepted settings parser.machine 0x81 5
on_info-IsAccepted_example =
    on_info-IsAccepted settings parser.machine 0x81 5 (omega arith) (omega arith) header_passes

abbrev ping_header : FrameHeader
ping_header = record {
  fin = true;
  opcode = 9;
  masked = false;
  payload_length = 11;
  rsv1 = false;
  rsv2 = false;
  rsv3 = false;
}

-- the handler after `close(1000, 'bye')`
abbrev closing_handler : Handler
closing_handler = record {
  ready_state = closing;
  sent = true;
  received = false;
  destroyed = false;
  log = write 8 (0x03 ∷ 0xe8 ∷ codes "bye") ∷ [];
}

close_runs : close_connection handler (some 1000) (codes "bye") true ≡ ok closing_handler
unfolding close_connection is_out_of_range validate_close close_in start_closing close_body
close_runs = refl

close_connection-IsClosing_example : IsClosing handler closing_handler
close_connection-IsClosing_example =
    close_connection-IsClosing handler (some 1000) (codes "bye") true parser-IsSound.coherent
      close_runs
