-- ===== src/EventSource/Message.antt =====
-- The lines that a server writes for a message give that message.
use undici.Base.{
  ℕ, ◌+◌, ◌≤◌, ◌≡◌, ◌⊎◌, refl, sym, ap, ◌∙◌, arith, true, false, ◌&&◌, Option, none, some, List, [],
  ◌∷◌, ◌++◌, Bytes, length, map, ltb, length-append, append_assoc, subst,
}
use undici.Base.Split.{join}
use undici.EventSource.{
  colon, space, data_field, event_field, id_field, retry_field, is_ascii_number,
  is_valid_last_event_id, is_field_name, begins_with, Pending, clear_event, has_pending_event,
  index_of, value_start, with_line, line_break, add_data, set_field, parse_at, parse_line,
  parse_lines, EventSourceSettings, Dispatched, parse_int, set_reconnection_time, set_last_event_id,
  dispatched, process_event, end_event,
}

-- a line with a field
abbrev pub field_line : Bytes → Bytes → Bytes
field_line name value = name ++ (colon ∷ space ∷ value)

parse_line-data :
    (e : Pending) (value : Bytes) → parse_line e (field_line data_field value) ≡ add_data e value
unfolding parse_line parse_at index_of value_start set_field is_field_name begins_with
parse_line-data e value = refl

parse_line-retry :
    (e : Pending) (value : Bytes)
    → is_ascii_number value ≡ true
    → parse_line e (field_line retry_field value) ≡ some (record e { retry_text = some value })
unfolding parse_line parse_at index_of value_start set_field is_field_name begins_with
parse_line-retry e value h = rw h refl

parse_line-id :
    (e : Pending) (value : Bytes)
    → is_valid_last_event_id value ≡ true
    → parse_line e (field_line id_field value) ≡ some (record e { id_text = some value })
unfolding parse_line parse_at index_of value_start set_field is_field_name begins_with
parse_line-id e value h = rw h refl

parse_line-event :
    (e : Pending) (c : ℕ) (value : Bytes)
    → parse_line e (field_line event_field (c ∷ value))
      ≡ some (record e { event_text = some (c ∷ value) })
unfolding parse_line parse_at index_of value_start set_field is_field_name begins_with
parse_line-event e c value = refl

abbrev pub size_of : Option Bytes → ℕ
size_of none = 0
size_of (some text) = length text

-- the data of more lines
abbrev pub with_lines : Option Bytes → List Bytes → Option Bytes
with_lines text [] = text
with_lines text (line ∷ lines) = with_lines (some (with_line text line)) lines

size_of-with_line :
    (text : Option Bytes) (line : Bytes)
    → length (with_line text line) ≡ size_of text + line_break text + length line
size_of-with_line none line = omega arith
size_of-with_line (some text) line = ground (arith, length-append text (0x0A ∷ line))

size_of-with_lines :
    (text : Option Bytes) (lines : List Bytes) → size_of text ≤ size_of (with_lines text lines)
size_of-with_lines text [] = ground arith
size_of-with_lines text (line ∷ lines) =
    ground
      (arith, size_of-with_line text line, size_of-with_lines (some (with_line text line)) lines)

add_data-fits :
    (e : Pending) (value : Bytes)
    → e.event_data_size ≡ size_of e.data_text
    → (e.max_event_size ≡ 0) ⊎ (length (with_line e.data_text value) ≤ e.max_event_size)
    → add_data e value
      ≡ some (record e {
        data_text = some (with_line e.data_text value);
        event_data_size = length (with_line e.data_text value);
      })
unfolding add_data
add_data-fits e value h k =
    let n = size_of-with_line e.data_text value in
    let size : e.event_data_size + line_break e.data_text + length value
        ≡ length (with_line e.data_text value) =
      ap (λ m. m + line_break e.data_text + length value) h ∙ sym n in
    let fits : (ltb 0 e.max_event_size
          && ltb e.max_event_size (length (with_line e.data_text value)))
        ≡ false =
      ground (arith, k) in
    rw (size, fits) refl

pub parse_lines_step :
    (e e' : Pending) (line : Bytes) (lines : List Bytes)
    → parse_line e line ≡ some e'
    → parse_lines e (line ∷ lines) ≡ parse_lines e' lines
unfolding parse_lines
parse_lines_step e e' line lines h =
    ap (λ o. elim o [ none ↦ none | some x ↦ parse_lines x lines ]) h

parse_lines-data :
    (e : Pending) (lines : List Bytes)
    → e.event_data_size ≡ size_of e.data_text
    → (e.max_event_size ≡ 0) ⊎ (size_of (with_lines e.data_text lines) ≤ e.max_event_size)
    → parse_lines e (map (field_line data_field) lines)
      ≡ some (record e {
        data_text = with_lines e.data_text lines;
        event_data_size = size_of (with_lines e.data_text lines);
      })
unfolding parse_lines
parse_lines-data e [] h k = ap (λ n. some (record e { event_data_size = n })) h
parse_lines-data e (line ∷ lines) h k =
    let grown = size_of-with_lines (some (with_line e.data_text line)) lines in
    let next = parse_line-data e line ∙ add_data-fits e line h (ground (arith, k, grown)) in
    parse_lines_step e _ (field_line data_field line) (map (field_line data_field) lines) next
    ∙ parse_lines-data _ lines refl k

with_lines-join :
    (text line : Bytes) (lines : List Bytes)
    → with_lines (some text) (line ∷ lines) ≡ some (text ++ (0x0A ∷ join 0x0A (line ∷ lines)))
unfolding join
with_lines-join text line [] = refl
with_lines-join text line (next ∷ lines) =
    with_lines-join (text ++ (0x0A ∷ line)) next lines
    ∙ ap some (append_assoc text (0x0A ∷ line) (0x0A ∷ join 0x0A (next ∷ lines)))

joined_lines :
    (line : Bytes) (lines : List Bytes)
    → with_lines none (line ∷ lines) ≡ some (join 0x0A (line ∷ lines))
unfolding join
joined_lines line [] = refl
joined_lines line (next ∷ lines) = with_lines-join line next lines

-- The lines of one event, and the blank line behind them.
abbrev pub receive :
    EventSourceSettings → ℕ → List Bytes → Option (EventSourceSettings × Option Dispatched)
receive s max_size lines = elim (parse_lines (clear_event max_size) lines) [
  | none ↦ none
  | some e ↦ some (end_event s e)
]

-- what a server writes
abbrev pub message_lines : Bytes → Bytes → Bytes → List Bytes → List Bytes
message_lines kind id retry lines =
    field_line event_field kind
    ∷ field_line id_field id
    ∷ field_line retry_field retry
    ∷ map (field_line data_field) lines

-- A message of an event's name, an id with no NUL, a reconnection time in digits and one line of data or more,
-- whose text with its line breaks is within the bound where one is set, is dispatched as it is, with
-- its lines joined; and the settings have its id and its reconnection time.
pub receive-message_lines :
    (s : EventSourceSettings) (max_size c : ℕ) (cs id retry line : Bytes) (lines : List Bytes)
    → is_valid_last_event_id id ≡ true
    → is_ascii_number retry ≡ true
    → (max_size ≡ 0) ⊎ (length (join 0x0A (line ∷ lines)) ≤ max_size)
    → receive s max_size (message_lines (c ∷ cs) id retry (line ∷ lines))
      ≡ some (
        record { reconnection_time = parse_int 0 retry; last_event_id = id; origin = s.origin },
        some (record {
          kind = c ∷ cs;
          text = join 0x0A (line ∷ lines);
          last_event_id = id;
          origin = s.origin;
        }),
      )
unfolding end_event has_pending_event process_event set_reconnection_time set_last_event_id
    dispatched
receive-message_lines s max_size c cs id retry line lines h k b =
    let whole = joined_lines line lines in
    let named : Pending = record (clear_event max_size) { event_text = some (c ∷ cs) } in
    let marked : Pending = record named { id_text = some id } in
    let timed : Pending = record marked { retry_text = some retry } in
    let parsed =
      parse_lines_step (clear_event max_size) named _ _
        (parse_line-event (clear_event max_size) c cs)
      ∙ (parse_lines_step named marked _ _ (parse_line-id named id h)
          ∙ (parse_lines_step marked timed _ _ (parse_line-retry marked retry k)
              ∙ parse_lines-data timed (line ∷ lines) refl
                  (subst (λ o. (max_size ≡ 0) ⊎ (size_of o ≤ max_size)) (sym whole) b))) in
    let with_text : Option Bytes → Pending =
      λ o. record timed { data_text = o; event_data_size = size_of o } in
    ap (λ o. elim o [ none ↦ none | some e ↦ some (end_event s e) ]) parsed
    ∙ (ap (λ o. some (end_event s (with_text o))) whole ∙ rw (k, h) refl)
