-- ===== src/EventSource.antt =====
-- lib/web/eventsource: what `EventSourceStream` makes of the lines of a stream (eventsource-stream.js), and
-- the tests of util.js. Strings are the lists of their UTF-8 bytes. The chunks and
-- the cursors over them are in EventSource.Buffer, the stream is in EventSource.Stream.
pub mod Message
pub mod Buffer
pub mod Stream
mod Tests
use undici.Base.{
  ℕ, zero, suc, ◌+◌, ◌*◌, ◌-◌, Bool, true, false, ◌&&◌, ◌||◌, not, Option, none, some, List, [],
  ◌∷◌, ◌++◌, Bytes, length, drop, get_elem?, leb, ltb, ◌==◌, if◌then◌else◌,
}

-- `COLON`, `SPACE` and the names of the fields
abbrev pub colon : ℕ
colon = 0x3A

abbrev pub space : ℕ
space = 0x20

abbrev pub data_field : Bytes
data_field = 0x64 ∷ 0x61 ∷ 0x74 ∷ 0x61 ∷ []

abbrev pub event_field : Bytes
event_field = 0x65 ∷ 0x76 ∷ 0x65 ∷ 0x6E ∷ 0x74 ∷ []

abbrev pub id_field : Bytes
id_field = 0x69 ∷ 0x64 ∷ []

abbrev pub retry_field : Bytes
retry_field = 0x72 ∷ 0x65 ∷ 0x74 ∷ 0x72 ∷ 0x79 ∷ []

-- the loop of `isASCIINumberBytes`, and that of `isASCIINumber`
unfoldable pub all_digits : Bytes → Bool
all_digits [] = true
all_digits (c ∷ cs) = if ltb c 0x30 || ltb 0x39 c then false else all_digits cs

-- `isASCIINumberBytes` on the bytes from the start on, and `isASCIINumber`
unfoldable pub is_ascii_number : Bytes → Bool
is_ascii_number [] = false
is_ascii_number (c ∷ cs) = all_digits (c ∷ cs)

-- `isValidLastEventIdBytes` on the bytes from the start on, and `isValidLastEventId`
unfoldable pub is_valid_last_event_id : Bytes → Bool
is_valid_last_event_id [] = true
is_valid_last_event_id (c ∷ cs) = if c == 0 then false else is_valid_last_event_id cs

-- the loop of `isFieldName`
unfoldable pub begins_with : Bytes → Bytes → Bool
begins_with line [] = true
begins_with [] (f ∷ fs) = false
begins_with (c ∷ line) (f ∷ fs) = if not (c == f) then false else begins_with line fs

-- `isFieldName`
unfoldable pub is_field_name : Bytes → ℕ → Bytes → Bool
is_field_name line field_length field =
    if not (field_length == length field) then false else begins_with line field

-- `this.event`, with the size of its data and the bound, 0 for none
pub record Pending : Type 0 where
  pub data_text : Option Bytes
  pub event_text : Option Bytes
  pub id_text : Option Bytes
  pub retry_text : Option Bytes
  pub event_data_size : ℕ
  pub max_event_size : ℕ

-- `clearEvent`, and how the stream begins
abbrev pub clear_event : ℕ → Pending
clear_event max_size = record {
  data_text = none;
  event_text = none;
  id_text = none;
  retry_text = none;
  event_data_size = 0;
  max_event_size = max_size;
}

-- `hasPendingEvent`
abbrev pub is_some : Option Bytes → Bool
is_some none = false
is_some (some text) = true

unfoldable pub has_pending_event : Pending → Bool
has_pending_event e =
    is_some e.data_text || (is_some e.event_text || (is_some e.id_text || is_some e.retry_text))

-- `line.indexOf(COLON)`
unfoldable pub index_of : ℕ → Bytes → Option ℕ
index_of c [] = none
index_of c (x ∷ xs) =
    let rest = index_of c xs in
    if x == c then some 0 else elim rest [ none ↦ none | some i ↦ some (suc i) ]

-- `valueStart` behind the colon
unfoldable pub value_start : Bytes → ℕ → ℕ
value_start line i = elim (get_elem? line (suc i)) [
  | none ↦ suc i
  | some c ↦ if c == space then suc (suc i) else suc i
]

-- the data with one more line
abbrev pub with_line : Option Bytes → Bytes → Bytes
with_line none value = value
with_line (some text) value = text ++ (0x0A ∷ value)

abbrev pub line_break : Option Bytes → ℕ
line_break none = 0
line_break (some text) = 1

-- the field `data`; none is the error of `createMaxEventSizeExceededError`
unfoldable pub add_data : Pending → Bytes → Option Pending
add_data e value =
    let size = e.event_data_size + line_break e.data_text + length value in
    if ltb 0 e.max_event_size && ltb e.max_event_size size
    then none
    else some (record e { data_text = some (with_line e.data_text value); event_data_size = size })

-- `line.length === 0`, and `value.length > 0` negated
abbrev pub is_blank : Bytes → Bool
is_blank [] = true
is_blank (c ∷ cs) = false

-- `parseLine` behind its first tests, for the length of the field's name and the value
unfoldable pub set_field : Pending → Bytes → ℕ → Bytes → Option Pending
set_field e line field_length value =
    if is_field_name line field_length data_field
    then add_data e value
    else if is_field_name line field_length retry_field
    then some (if is_ascii_number value then record e { retry_text = some value } else e)
    else if is_field_name line field_length id_field
    then some (if is_valid_last_event_id value then record e { id_text = some value } else e)
    else if is_field_name line field_length event_field
    then some (if is_blank value then e else record e { event_text = some value })
    else some e

-- `parseLine`, by the place of the colon
unfoldable pub parse_at : Pending → Bytes → Option ℕ → Option Pending
parse_at e line none = set_field e line (length line) []
parse_at e line (some zero) = some e
parse_at e line (some (suc i)) = set_field e line (suc i) (drop (value_start line (suc i)) line)

-- `parseLine`
unfoldable pub parse_line : Pending → Bytes → Option Pending
parse_line e line = if is_blank line then some e else parse_at e line (index_of colon line)

-- the lines of an event, up to the blank one
unfoldable pub parse_lines : Pending → List Bytes → Option Pending
parse_lines e [] = some e
parse_lines e (line ∷ lines) = elim (parse_line e line) [
  | none ↦ none
  | some e' ↦ parse_lines e' lines
]

-- `eventSourceSettings`
pub record EventSourceSettings : Type 0 where
  pub reconnection_time : ℕ
  pub last_event_id : Bytes
  pub origin : Bytes

-- what is pushed
pub record Dispatched : Type 0 where
  pub kind : Bytes
  pub text : Bytes
  pub last_event_id : Bytes
  pub origin : Bytes

-- `parseInt(event.retry, 10)` of digits, as a natural number
unfoldable pub parse_int : ℕ → Bytes → ℕ
parse_int n [] = n
parse_int n (c ∷ cs) = parse_int (n * 10 + (c - 48)) cs

-- "message"
abbrev pub message_kind : Bytes
message_kind = 0x6D ∷ 0x65 ∷ 0x73 ∷ 0x73 ∷ 0x61 ∷ 0x67 ∷ 0x65 ∷ []

-- the first test of `processEvent`
unfoldable pub set_reconnection_time : EventSourceSettings → Option Bytes → EventSourceSettings
set_reconnection_time s none = s
set_reconnection_time s (some text) =
    if is_ascii_number text then record s { reconnection_time = parse_int 0 text } else s

-- its second test
unfoldable pub set_last_event_id : EventSourceSettings → Option Bytes → EventSourceSettings
set_last_event_id s none = s
set_last_event_id s (some text) =
    if is_valid_last_event_id text then record s { last_event_id = text } else s

-- `event.event || 'message'`
abbrev pub kind_of : Option Bytes → Bytes
kind_of none = message_kind
kind_of (some []) = message_kind
kind_of (some (c ∷ cs)) = c ∷ cs

-- the push
unfoldable pub dispatched : EventSourceSettings → Option Bytes → Option Bytes → Option Dispatched
dispatched s none kind = none
dispatched s (some text) kind = some (record {
  kind = kind_of kind;
  text = text;
  last_event_id = s.last_event_id;
  origin = s.origin;
})

-- `processEvent`
unfoldable pub process_event :
    EventSourceSettings → Pending → EventSourceSettings × Option Dispatched
process_event s e =
    let s' = set_last_event_id (set_reconnection_time s e.retry_text) e.id_text in
    (s', dispatched s' e.data_text e.event_text)

-- the end of an event in `_transform`
unfoldable pub end_event : EventSourceSettings → Pending → EventSourceSettings × Option Dispatched
end_event s e = if has_pending_event e then process_event s e else (s, none)
