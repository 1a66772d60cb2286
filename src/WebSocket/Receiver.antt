-- ===== src/WebSocket/Receiver.antt =====
-- `ByteParser` of lib/web/websocket/receiver.js: the loop of `run` over the buffered chunks. The parts
-- of a round are in Machine and Payload.
-- `#loop` is true whenever `run` starts, and false only where a round ends the loop, which the
-- endings below say.
pub mod Flat
pub mod Fuel
pub mod Invariant
pub mod Sound
pub mod Safe
pub mod Limits
pub mod Messages
pub mod Delivery
pub mod Chunks
use undici.Base.{
  ℕ, zero, suc, ◌+◌, ◌*◌, Bool, true, false, Option, none, some, List, [], ◌∷◌, ◌++◌, Bytes, length,
  ltb,
}
use undici.WebSocket.Connection.{Handler}
use undici.WebSocket.Consume.{consume}
use undici.WebSocket.Machine.{
  ParserState, info, payload_length_16, payload_length_64, read_data, Settings, Machine, Outcome,
  next, callback, stop, inflate, throws, on_info, on_length_16, on_length_64,
}
use undici.WebSocket.Payload.{on_payload, Inflated, on_inflated}

pub record ByteParser : Type 0 where
  pub buffers : List Bytes
  pub byte_offset : ℕ
  pub machine : Machine

-- How `run` ends: it called back since more bytes are needed, it called back after it failed the
-- connection, it returned without calling back, it waits for the decompressor, it threw an error, or
-- (never) the fuel ran out.
pub data Run (P : Type 0) : Type 0 where
  waits : P → Run P
  called : P → Run P
  stopped : P → Run P
  inflating : P → Bytes → Run P
  thrown : P → Run P
  spinning : P → Run P

-- the number of bytes that a round consumes
unfoldable pub needed_in : ParserState → Machine → ℕ
needed_in info m = 2
needed_in payload_length_16 m = 2
needed_in payload_length_64 m = 8
needed_in read_data m = m.payload_length

-- the part of a round behind `consume`
unfoldable pub handle_in : ParserState → Settings → Machine → Bytes → Outcome
handle_in info = on_info
handle_in payload_length_16 = on_length_16
handle_in payload_length_64 = on_length_64
handle_in read_data = on_payload

-- How the loop goes on from the end of a round: `again` is the next round, and `at` puts the machine
-- back into the parser.
abbrev pub go_on : {P : Type 0} → (Machine → Run P) → (Machine → P) → Outcome → Run P
go_on again at (next m) = again m
go_on again at (callback m) = called (at m)
go_on again at (stop m) = stopped (at m)
go_on again at (inflate m body) = inflating (at m) body
go_on again at (throws m) = thrown (at m)

-- `run`, with the number of rounds as fuel
unfoldable pub run_rounds : ℕ → Settings → ByteParser → Run ByteParser
run_rounds zero cfg p = spinning p
run_rounds (suc rounds) cfg p =
    let m = p.machine in
    elim (ltb p.byte_offset (needed_in m.state m)) [
      | true ↦ waits p
      | false ↦ elim (consume (needed_in m.state m) p.byte_offset p.buffers) [
        | none ↦ thrown p
        | some (body, byte_offset, buffers) ↦
            let at : Machine → ByteParser =
              λ m'. record { buffers = buffers; byte_offset = byte_offset; machine = m' } in
            go_on (λ m'. run_rounds rounds cfg (at m')) at (handle_in m.state cfg m body)
      ]
    ]

-- Every two rounds consume a byte or more, so this many rounds are enough.
abbrev pub enough : ℕ → ℕ
enough bytes = suc (2 * bytes + 1)

unfoldable pub run : Settings → ByteParser → Run ByteParser
run cfg p = run_rounds (enough p.byte_offset) cfg p

-- `_write`
unfoldable pub write_chunk : Settings → ByteParser → Bytes → Run ByteParser
write_chunk cfg p chunk =
    run cfg
      (record p { buffers = p.buffers ++ (chunk ∷ []); byte_offset = p.byte_offset + length chunk })

-- The callback of the decompressor, with the `run` at its end.
unfoldable pub resume : Settings → ByteParser → Inflated → Run ByteParser
resume cfg p result =
    let at : Machine → ByteParser = λ m. record p { machine = m } in
    go_on (λ m. run cfg (at m)) at (on_inflated cfg p.machine result)

-- the constructor
abbrev pub new_machine : Handler → Machine
new_machine h = record {
  state = info;
  opcode = 0;
  fin = false;
  fragmented = false;
  masked = false;
  compressed = false;
  binary_type = 0;
  payload_length = 0;
  closing_info = none;
  fragments = [];
  fragments_bytes = 0;
  handler = h;
}

abbrev pub new_parser : Handler → ByteParser
new_parser h = record { buffers = []; byte_offset = 0; machine = new_machine h }
