-- ===== src/EventSource/Stream/Bytewise.antt =====
-- What `EventSourceStream` makes of an event stream, byte by byte and without a buffer of chunks: the contract
-- of eventsource-stream.js.
use undici.Base.{
  ℕ, ◌+◌, Bool, true, false, ◌&&◌, Option, none, some, List, [], ◌∷◌, ◌++◌, Bytes, length, ltb,
  ◌==◌, if◌then◌else◌,
}
use undici.EventSource.{
  Pending, clear_event, parse_line, EventSourceSettings, Dispatched, end_event, data_field,
}
use undici.EventSource.Stream.{lf, cr, is_line_end, logged}

-- A reader of bytes: its line so far, the event so far and what has been dispatched.
pub record Reader : Type 0 where
  pub settings : EventSourceSettings
  pub after_cr : Bool
  pub after_line : Bool
  pub line : Bytes
  pub event : Pending
  pub log : List Dispatched

abbrev pub new_reader : EventSourceSettings → ℕ → Reader
new_reader settings max_event_size = record {
  settings = settings;
  after_cr = false;
  after_line = false;
  line = [];
  event = clear_event max_event_size;
  log = [];
}

-- A reader is going on, or it has broken off.
pub data Reading : Type 0 where
  going broken : Reader → Reading

-- a blank line
unfoldable pub blank_line : Reader → Reader
blank_line r =
    let (settings, pushed) = end_event r.settings r.event in
    record r {
      settings = settings;
      log = logged r.log pushed;
      line = [];
      event = clear_event r.event.max_event_size;
    }

abbrev pub note_cr : Reader → ℕ → Reader
note_cr r b = if b == cr then record r { after_cr = true } else r

-- a line's end, by what its fields make of the event
unfoldable pub close_line : Reader → Option Pending → Reading
close_line r none = broken r
close_line r (some event) = going (record r { event = event; line = []; after_line = true })

-- The bound on a line is that on the event, and the field's name.
abbrev pub is_over : Pending → Bytes → Bool
is_over event line =
    ltb 0 event.max_event_size && ltb (event.max_event_size + (length data_field + 2)) (length line)

unfoldable pub grow_line : Reader → Reading
grow_line r = if is_over r.event r.line then broken r else going r

-- a byte that does not end an event
unfoldable pub line_byte : Reader → ℕ → Reading
line_byte r b =
    if is_line_end b
    then close_line (note_cr r b) (parse_line r.event r.line)
    else grow_line (record r { line = r.line ++ (b ∷ []) })

-- a byte behind a line: an LF behind a CR counts with it, and a second line end finishes an event
unfoldable pub byte_after_line : Reader → ℕ → Reading
byte_after_line r b =
    if r.after_cr && b == lf
    then going (record r { after_cr = false; line = [] })
    else if is_line_end b
    then going (blank_line (note_cr (record r { after_cr = false }) b))
    else line_byte (record r { after_cr = false; after_line = false }) b

unfoldable pub read_byte : Reader → ℕ → Reading
read_byte r b = if r.after_line then byte_after_line r b else line_byte r b

-- bytes one after another, up to an error
unfoldable pub read : Reading → Bytes → Reading
read reading [] = reading
read (going r) (b ∷ bytes) = read (read_byte r b) bytes
read (broken r) (b ∷ bytes) = broken r

-- whether there was an error, with what an application sees
abbrev pub seen : Reading → Bool × (EventSourceSettings × List Dispatched)
seen (going r) = (true, (r.settings, r.log))
seen (broken r) = (false, (r.settings, r.log))
