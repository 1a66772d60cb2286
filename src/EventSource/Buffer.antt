-- ===== src/EventSource/Buffer.antt =====
-- lib/web/eventsource/eventsource-stream.js: the fields of `EventSourceStream`, and the cursors over the chunks
-- that it buffers.
use undici.Base.{
  ℕ, zero, suc, ◌+◌, ◌-◌, Bool, true, false, Option, none, List, [], ◌∷◌, ◌++◌, Bytes, length, take,
  drop, get_elem?, leb, ltb, ◌==◌, if◌then◌else◌,
}
use undici.EventSource.{Pending, clear_event, EventSourceSettings, Dispatched}

abbrev pub lf : ℕ
lf = 0x0A

abbrev pub cr : ℕ
cr = 0x0D

-- the fields; `event` holds `eventDataSize` and `maxEventSize` too
pub record Stream : Type 0 where
  pub settings : EventSourceSettings
  pub check_bom : Bool
  pub crlf_check : Bool
  pub event_end_check : Bool
  pub chunks : List Bytes
  pub chunk_index : ℕ
  pub pos : ℕ
  pub line_chunk_index : ℕ
  pub line_pos : ℕ
  pub current_line_size : ℕ
  pub event : Pending
  pub log : List Dispatched

-- the constructor, with a bound of 0 for none
abbrev pub new_stream : EventSourceSettings → ℕ → Stream
new_stream settings max_event_size = record {
  settings = settings;
  check_bom = true;
  crlf_check = false;
  event_end_check = false;
  chunks = [];
  chunk_index = 0;
  pos = 0;
  line_chunk_index = 0;
  line_pos = 0;
  current_line_size = 0;
  event = clear_event max_event_size;
  log = [];
}

-- `this.chunks[chunkIndex][pos]`, where there is such a byte
unfoldable pub byte_at : List Bytes → ℕ → ℕ → Option ℕ
byte_at [] i pos = none
byte_at (c ∷ cs) zero pos = get_elem? c pos
byte_at (c ∷ cs) (suc i) pos = byte_at cs i pos

-- the loop of `advanceCursor`, over the chunks from the cursor's on
unfoldable pub roll : List Bytes → ℕ → ℕ → ℕ × ℕ
roll [] index pos = (index, pos)
roll (c ∷ cs) index pos = if leb (length c) pos then roll cs (suc index) 0 else (index, pos)

-- `advanceCursor`
unfoldable pub advance_cursor : Stream → Stream
advance_cursor s =
    let (index, pos) = roll (drop s.chunk_index s.chunks) s.chunk_index (suc s.pos) in
    record s { chunk_index = index; pos = pos }

-- the loop of `dropConsumedChunks`, by `lineChunkIndex`: the chunks and `chunkIndex`
unfoldable pub shift_chunks : ℕ → List Bytes → ℕ → List Bytes × ℕ
shift_chunks zero chunks index = (chunks, index)
shift_chunks (suc n) chunks index = shift_chunks n (drop 1 chunks) (index - 1)

-- the end of `dropConsumedChunks`
unfoldable pub reset_chunks : Stream → Stream
reset_chunks s =
    if s.chunk_index == length s.chunks
    then record s { chunks = []; chunk_index = 0; pos = 0; line_chunk_index = 0; line_pos = 0 }
    else s

-- `dropConsumedChunks`
unfoldable pub drop_consumed_chunks : Stream → Stream
drop_consumed_chunks s =
    let (chunks, index) = shift_chunks s.line_chunk_index s.chunks s.chunk_index in
    reset_chunks (record s { chunks = chunks; chunk_index = index; line_chunk_index = 0 })

-- `syncLineStartToCursor`
unfoldable pub sync_line_start_to_cursor : Stream → Stream
sync_line_start_to_cursor s =
    drop_consumed_chunks
      (record s { line_chunk_index = s.chunk_index; line_pos = s.pos; current_line_size = 0 })

-- `consumeCurrentByte`
unfoldable pub consume_current_byte : Stream → Stream
consume_current_byte s = sync_line_start_to_cursor (advance_cursor s)

-- the slices of the loop of `readLine`, from `start` in the first chunk to `end` in the last, `more` chunks on
unfoldable pub slices : List Bytes → ℕ → ℕ → ℕ → Bytes
slices [] start more end = []
slices (c ∷ cs) start zero end = take (end - start) (drop start c)
slices (c ∷ cs) start (suc more) end = drop start c ++ slices cs 0 more end

-- `readLine`; the chunk of the cursor alone is its first case
unfoldable pub read_line : Stream → Bytes
read_line s =
    slices (drop s.line_chunk_index s.chunks) s.line_pos (s.chunk_index - s.line_chunk_index) s.pos

-- `peekBufferedByte`, over the chunks from the line's on
unfoldable pub peek : List Bytes → ℕ → ℕ → Option ℕ
peek [] pos offset = none
peek (c ∷ cs) pos offset =
    let rest = peek cs 0 (offset - (length c - pos)) in
    if ltb offset (length c - pos) then get_elem? c (pos + offset) else rest

unfoldable pub peek_buffered_byte : Stream → ℕ → Option ℕ
peek_buffered_byte s offset = peek (drop s.line_chunk_index s.chunks) s.line_pos offset

-- the loop of `discardLeadingBytes`, over the chunks from the line's on
unfoldable pub discard : List Bytes → ℕ → ℕ → ℕ → ℕ × ℕ
discard [] index pos count = (index, pos)
discard (c ∷ cs) index pos count =
    let rest = discard cs (suc index) 0 (count - (length c - pos)) in
    if count == 0
    then (index, pos)
    else if ltb count (length c - pos)
    then (index, pos + count)
    else rest

-- `discardLeadingBytes`
unfoldable pub discard_leading_bytes : Stream → ℕ → Stream
discard_leading_bytes s count =
    let (index, pos) =
      discard (drop s.line_chunk_index s.chunks) s.line_chunk_index s.line_pos count in
    drop_consumed_chunks
      (record s { line_chunk_index = index; line_pos = pos; chunk_index = index; pos = pos })
