-- ===== src/EventSource/Stream.antt =====
-- lib/web/eventsource/eventsource-stream.js: `_transform`, from the byte order mark to the events. `push` appends
-- to the log of what is dispatched.
pub mod Cursor
pub mod Bytewise
pub mod Rounds
pub mod Mark
pub mod Chunks
pub mod Settle
pub mod Loop
pub mod Shown
pub mod Wire
pub mod Bound
pub mod Feed
pub use undici.EventSource.Buffer.{lf, cr, Stream, new_stream}
unfoldable pub use undici.EventSource.Buffer.{
  byte_at, roll, advance_cursor, shift_chunks, reset_chunks, drop_consumed_chunks,
  sync_line_start_to_cursor, consume_current_byte, slices, read_line, peek, peek_buffered_byte,
  discard, discard_leading_bytes,
}
use undici.Base.{
  ℕ, zero, suc, ◌+◌, ◌*◌, ◌-◌, Bool, true, false, ◌&&◌, ◌||◌, not, Option, none, some, List, [],
  ◌∷◌, ◌++◌, Bytes, length, take, drop, get_elem?, leb, ltb, ◌==◌, if◌then◌else◌,
}
use undici.EventSource.{
  Pending, clear_event, has_pending_event, parse_line, EventSourceSettings, Dispatched,
  process_event, data_field,
}

abbrev pub is_some_byte : Option ℕ → Bool
is_some_byte none = false
is_some_byte (some b) = true

-- `hasCurrentByte` is whether this is some byte, `currentByte` is the byte
abbrev pub current_byte : Stream → Option ℕ
current_byte s = byte_at s.chunks s.chunk_index s.pos

-- `first === BOM[0]` and the like
abbrev pub is_byte : ℕ → Option ℕ → Bool
is_byte b none = false
is_byte b (some c) = c == b

-- `handleBOM` on the bytes that it peeks; whether the stream waits
unfoldable pub handle_bom_on : Stream → Option ℕ → Option ℕ → Option ℕ → Stream × Bool
handle_bom_on s first none third =
    if is_byte 0xEF first then (s, true) else (record s { check_bom = false }, true)
handle_bom_on s first (some second) none =
    if is_byte 0xEF first && second == 0xBB
    then (s, true)
    else (record s { check_bom = false }, false)
handle_bom_on s first (some second) (some third) =
    let s' =
      if is_byte 0xEF first && (second == 0xBB && third == 0xBF)
      then discard_leading_bytes s 3
      else s in
    (record s' { check_bom = false }, not (is_some_byte (current_byte s')))

-- `handleBOM`
unfoldable pub handle_bom : Stream → Stream × Bool
handle_bom s =
    handle_bom_on s (peek_buffered_byte s 0) (peek_buffered_byte s 1) (peek_buffered_byte s 2)

-- how `_transform` calls back
pub data Ended : Type 0 where
  done failed : Stream → Ended
  -- the rounds given were too few
  stuck : Stream → Ended

-- a round of its loop: it goes on, or it calls back with the error of the size
pub data Round : Type 0 where
  next : Stream → Round
  fail : Stream → Round

abbrev pub is_line_end : ℕ → Bool
is_line_end b = b == lf || b == cr

-- `this.push`
abbrev pub logged : List Dispatched → Option Dispatched → List Dispatched
logged log none = log
logged log (some event) = log ++ (event ∷ [])

-- `processEvent` where an event is pending, and `clearEvent`
unfoldable pub finish_event : Stream → Stream
finish_event s =
    let (settings, pushed) = process_event s.settings s.event in
    let s' =
      if has_pending_event s.event
      then record s { settings = settings; log = logged s.log pushed }
      else s in
    record s' { event = clear_event s.event.max_event_size }

abbrev pub mark_cr : Stream → ℕ → Stream
mark_cr s b = if b == cr then record s { crlf_check = true } else s

-- the round on a byte behind a line's end
unfoldable pub check_event_end : Stream → ℕ → Stream
check_event_end s b =
    if s.crlf_check && b == lf
    then consume_current_byte (record s { crlf_check = false })
    else if is_line_end b
    then finish_event (consume_current_byte (mark_cr (record s { crlf_check = false }) b))
    else record s { crlf_check = false; event_end_check = false }

-- `parseLine` on the line, by what it gives
unfoldable pub end_line : Stream → Option Pending → Round
end_line s none = fail s
end_line s (some event) =
    next (record (consume_current_byte (record s { event = event })) { event_end_check = true })

-- `this.currentLineSize > this.getMaxEventSizeLineLength()`
abbrev pub is_too_long : Stream → Bool
is_too_long s =
    ltb 0 s.event.max_event_size
    && ltb (s.event.max_event_size + (length data_field + 2)) s.current_line_size

-- the round on a byte of a line
unfoldable pub extend_line : Stream → Round
extend_line s =
    let s' = advance_cursor s in
    let s'' = record s' { current_line_size = suc s'.current_line_size } in
    if is_too_long s'' then fail s'' else next s''

-- the round on a byte of a line or on its end
unfoldable pub line_round : Stream → ℕ → Round
line_round s b =
    if is_line_end b
    then end_line (mark_cr s b) (parse_line s.event (read_line s))
    else extend_line s

-- a round on a byte
unfoldable pub round : Stream → ℕ → Round
round s b = if s.event_end_check then next (check_event_end s b) else line_round s b

abbrev pub follow : Round → (Stream → Ended) → Ended
follow (next s) f = f s
follow (fail s) f = failed s

abbrev pub on_byte : Stream → Option ℕ → (Stream → Ended) → Ended
on_byte s none f = done s
on_byte s (some b) f = follow (round s b) f

-- The loop of `_transform`, with rounds to go.
unfoldable pub rounds : ℕ → Stream → Ended
rounds zero s = stuck s
rounds (suc fuel) s = on_byte s (current_byte s) (λ s'. rounds fuel s')

-- the bytes that are buffered
unfoldable pub buffered : List Bytes → ℕ
buffered [] = 0
buffered (c ∷ cs) = length c + buffered cs

-- A byte takes two rounds at most.
abbrev pub read_all : Stream → Ended
read_all s = rounds (2 * buffered s.chunks + 1) s

abbrev pub unless_waiting : Stream × Bool → Ended
unless_waiting (s, true) = done s
unless_waiting (s, false) = read_all s

-- `_transform`
unfoldable pub transform : Stream → Bytes → Ended
transform s [] = done s
transform s (b ∷ bytes) =
    let s' = record s { chunks = s.chunks ++ ((b ∷ bytes) ∷ []) } in
    if s.check_bom then unless_waiting (handle_bom s') else read_all s'

-- chunks one after another, up to an error
unfoldable pub feed : Ended → List Bytes → Ended
feed e [] = e
feed (done s) (chunk ∷ chunks) = feed (transform s chunk) chunks
feed e (chunk ∷ chunks) = e
