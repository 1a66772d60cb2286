-- ===== src/EventSource/Stream/Bound.antt =====
-- `parseLine` in eventsource-stream.js leaves the bound on an event's size as it is.
use undici.Base.{
  ℕ, zero, suc, ◌≡◌, refl, subst, ◌&&◌, Option, none, some, [], Bytes, length, ltb, if_elim,
}
use undici.EventSource.{
  Pending, parse_line, data_field, event_field, retry_field, id_field, add_data, set_field,
  parse_at, index_of, colon, is_blank, is_field_name, is_ascii_number, is_valid_last_event_id,
}

-- the bound stays
abbrev Kept : Pending → Option Pending → Type 0
Kept e none = Unit
Kept e (some e') = e'.max_event_size ≡ e.max_event_size

add_data-Kept : (e : Pending) (value : Bytes) → Kept e (add_data e value)
unfolding add_data
add_data-Kept e value = if_elim (Kept e) (ltb 0 e.max_event_size && _) tt refl

set_field-Kept :
    (e : Pending) (line : Bytes) (n : ℕ) (value : Bytes) → Kept e (set_field e line n value)
unfolding set_field
set_field-Kept e line n value =
    if_elim (Kept e) (is_field_name line n data_field) (add_data-Kept e value) (
      if_elim (Kept e) (is_field_name line n retry_field)
        (if_elim (λ x. Kept e (some x)) (is_ascii_number value) refl refl)
        (if_elim (Kept e) (is_field_name line n id_field)
          (if_elim (λ x. Kept e (some x)) (is_valid_last_event_id value) refl refl)
          (if_elim (Kept e) (is_field_name line n event_field)
            (if_elim (λ x. Kept e (some x)) (is_blank value) refl refl) refl)))

parse_at-Kept : (e : Pending) (line : Bytes) (o : Option ℕ) → Kept e (parse_at e line o)
unfolding parse_at
parse_at-Kept e line none = set_field-Kept e line (length line) []
parse_at-Kept e line (some zero) = refl
parse_at-Kept e line (some (suc i)) = set_field-Kept e line (suc i) _

pub parse_line-Kept :
    (e e' : Pending) (line : Bytes)
    → parse_line e line ≡ some e'
    → e'.max_event_size ≡ e.max_event_size
unfolding parse_line
parse_line-Kept e e' line h =
    subst (λ o. Kept e o) h
      (if_elim (Kept e) (is_blank line) refl (parse_at-Kept e line (index_of colon line)))
