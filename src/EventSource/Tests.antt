-- ===== src/EventSource/Tests.antt =====
-- Lines of an event stream on concrete bytes.
use undici.Base.{◌≡◌, inr, refl, arith, [], ◌∷◌, ◌++◌, none, some, List, Bytes, true}
use undici.Base.Split.{join}
use undici.EventSource.{
  clear_event, parse_line, parse_at, index_of, value_start, set_field, is_field_name, begins_with,
  is_ascii_number, all_digits, is_valid_last_event_id, add_data, EventSourceSettings, parse_int,
  data_field, message_kind, Dispatched, has_pending_event, process_event, set_reconnection_time,
  set_last_event_id, dispatched, end_event, parse_lines,
}
use undici.EventSource.Message.{field_line, message_lines, receive, receive-message_lines}
use undici.EventSource.Stream.{
  new_stream, done, feed, transform, handle_bom, handle_bom_on, peek_buffered_byte, peek,
  discard_leading_bytes, discard, drop_consumed_chunks, shift_chunks, reset_chunks, rounds, round,
  line_round, check_event_end, end_line, extend_line, byte_at, advance_cursor, roll,
  consume_current_byte, sync_line_start_to_cursor, read_line, slices, finish_event, buffered,
}
use undici.EventSource.Stream.Bytewise.{
  read, read_byte, line_byte, byte_after_line, close_line, grow_line, blank_line,
}
use undici.EventSource.Stream.Mark.{unmarked}
use undici.EventSource.Stream.Feed.{view, view-feed}
use undici.EventSource.Stream.Wire.{wire, crlf_end, view-wire}

-- "data:x" with no space, and ":x"
bare_value :
    parse_line (clear_event 0) (data_field ++ (58 ∷ 120 ∷ []))
    ≡ some (record (clear_event 0) { data_text = some (120 ∷ []); event_data_size = 1 })
unfolding parse_line parse_at index_of value_start set_field is_field_name begins_with add_data
bare_value = refl

comment_line : parse_line (clear_event 0) (58 ∷ 120 ∷ []) ≡ some (clear_event 0)
unfolding parse_line parse_at index_of
comment_line = refl

-- one byte more than the bound
too_long : parse_line (clear_event 1) (field_line data_field (120 ∷ 121 ∷ [])) ≡ none
unfolding parse_line parse_at index_of value_start set_field is_field_name begins_with add_data
too_long = refl

abbrev settings : EventSourceSettings
settings = record { reconnection_time = 3000; last_event_id = []; origin = 111 ∷ [] }

receive-message_lines_example :
    receive settings 3
      (message_lines (101 ∷ []) (55 ∷ []) (49 ∷ 48 ∷ []) ((120 ∷ []) ∷ (121 ∷ []) ∷ []))
    ≡ some (
      record { reconnection_time = 10; last_event_id = 55 ∷ []; origin = 111 ∷ [] },
      some (record {
        kind = 101 ∷ [];
        text = 120 ∷ 10 ∷ 121 ∷ [];
        last_event_id = 55 ∷ [];
        origin = 111 ∷ [];
      }),
    )
unfolding is_valid_last_event_id is_ascii_number all_digits parse_int join
receive-message_lines_example =
    receive-message_lines settings 3 101 [] (55 ∷ []) (49 ∷ 48 ∷ []) (120 ∷ []) ((121 ∷ []) ∷ [])
      refl refl (inr (omega arith))

-- "data:x", an LF and a CR, behind a mark, in four chunks
abbrev test_chunks : List Bytes
test_chunks =
    (0xEF ∷ [])
    ∷ (0xBB ∷ 0xBF ∷ 100 ∷ 97 ∷ [])
    ∷ []
    ∷ (116 ∷ 97 ∷ 58 ∷ 120 ∷ 10 ∷ [])
    ∷ (13 ∷ [])
    ∷ []

abbrev test_event : Dispatched
test_event = record { kind = message_kind; text = 120 ∷ []; last_event_id = []; origin = 111 ∷ [] }

chunked_run :
    view (feed (done (new_stream settings 3)) test_chunks)
    ≡ some (true, (settings, test_event ∷ []))
unfolding feed transform handle_bom handle_bom_on peek_buffered_byte peek discard_leading_bytes
    discard drop_consumed_chunks shift_chunks reset_chunks rounds round line_round check_event_end
    end_line extend_line byte_at advance_cursor roll consume_current_byte sync_line_start_to_cursor
    read_line slices finish_event buffered parse_line parse_at index_of value_start set_field
    is_field_name begins_with add_data has_pending_event process_event set_reconnection_time
    set_last_event_id dispatched
chunked_run = refl

view-feed_example :
    view (feed (done (new_stream settings 3)) test_chunks)
    ≡ some (true, (settings, test_event ∷ []))
unfolding read read_byte line_byte byte_after_line close_line grow_line blank_line end_event
    unmarked parse_line parse_at index_of value_start set_field is_field_name begins_with add_data
    has_pending_event process_event set_reconnection_time set_last_event_id dispatched
view-feed_example = view-feed settings 3 test_chunks

-- "data:x" with a CRLF behind it and a blank line
abbrev crlf_chunks : List Bytes
crlf_chunks = (100 ∷ 97 ∷ []) ∷ (116 ∷ 97 ∷ 58 ∷ 120 ∷ 13 ∷ []) ∷ (10 ∷ 13 ∷ 10 ∷ []) ∷ []

view-wire_example :
    view (feed (done (new_stream settings 3)) crlf_chunks)
    ≡ some (true, (settings, test_event ∷ []))
unfolding wire unmarked parse_lines parse_line parse_at index_of value_start set_field is_field_name
    begins_with add_data end_event has_pending_event process_event set_reconnection_time
    set_last_event_id dispatched
view-wire_example =
    view-wire settings settings (some test_event) 3 crlf_end (data_field ++ (58 ∷ 120 ∷ [])) []
      crlf_chunks (((refl, (refl, (refl, (refl, (refl, (refl, tt)))))), inr (omega arith)), tt) refl
      refl
