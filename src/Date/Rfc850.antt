-- ===== src/Date/Rfc850.antt =====
-- The round trip of the obsolete format of RFC 850, whose years have two digits.
use undici.Base.{
  inl, ℕ, zero, suc, ◌%◌, ◌≤◌, ◌<◌, ◌≡◌, refl, ◌∙◌, arith, Option, none, some, [], ◌∷◌, ◌++◌, Bytes,
  codes, if◌then◌else◌,
}
use undici.Date.{
  parse_http_date, parse_rfc850_date, parse_day_name, is_rfc850_frame, parse_rfc850_fields,
}
use undici.Date.Calendar.{UtcDate, weekday_of}
use undici.Date.Make.{make_date-IsDate}
use undici.Date.Print.{
  IsDate, letter, month_names, tens, units, parse_month_rfc850-letter, parse_day-tens,
  parse_hour-tens, parse_minute-tens, parse_short_year-tens,
}
use undici.Date.RoundTrip.{day_at_most, weekday_below}

abbrev pub full_day_name : ℕ → Bytes
full_day_name zero = codes "Sunday"
full_day_name (suc zero) = codes "Monday"
full_day_name (suc (suc zero)) = codes "Tuesday"
full_day_name (suc (suc (suc zero))) = codes "Wednesday"
full_day_name (suc (suc (suc (suc zero)))) = codes "Thursday"
full_day_name (suc (suc (suc (suc (suc zero))))) = codes "Friday"
full_day_name _ = codes "Saturday"

-- `, 06-Nov-94 08:49:37 GMT`
abbrev pub from_comma : UtcDate → Bytes
from_comma t =
    44
    ∷ 32
    ∷ tens t.day
    ∷ units t.day
    ∷ 45
    ∷ letter month_names t.month 0
    ∷ letter month_names t.month 1
    ∷ letter month_names t.month 2
    ∷ 45
    ∷ tens (t.year % 100)
    ∷ units (t.year % 100)
    ∷ 32
    ∷ tens t.hour
    ∷ units t.hour
    ∷ 58
    ∷ tens t.minute
    ∷ units t.minute
    ∷ 58
    ∷ tens t.second
    ∷ units t.second
    ∷ 32
    ∷ 71
    ∷ 77
    ∷ 84
    ∷ []

-- `Sunday, 06-Nov-94 08:49:37 GMT`
abbrev pub to_rfc850 : UtcDate → Bytes
to_rfc850 t = full_day_name (weekday_of t) ++ from_comma t

abbrev parse_named : ℕ → Bytes → Option UtcDate
parse_named w part = if is_rfc850_frame part then parse_rfc850_fields w part else none

parse_http_date-full_day_name :
    (w : ℕ) (part : Bytes)
    → w < 7
    → parse_http_date (full_day_name w ++ (44 ∷ part)) ≡ parse_named w (44 ∷ part)
unfolding parse_http_date parse_rfc850_date parse_day_name
parse_http_date-full_day_name zero part h = refl
parse_http_date-full_day_name (suc zero) part h = refl
parse_http_date-full_day_name (suc (suc zero)) part h = refl
parse_http_date-full_day_name (suc (suc (suc zero))) part h = refl
parse_http_date-full_day_name (suc (suc (suc (suc zero)))) part h = refl
parse_http_date-full_day_name (suc (suc (suc (suc (suc zero))))) part h = refl
parse_http_date-full_day_name (suc (suc (suc (suc (suc (suc zero)))))) part h = refl
parse_http_date-full_day_name (suc (suc (suc (suc (suc (suc (suc w))))))) part h =
    absurd (omega arith)

fields_lem :
    (t : UtcDate)
    → IsDate t
    → 1970 ≤ t.year
    → t.year < 2070
    → parse_named (weekday_of t) (from_comma t) ≡ some t
unfolding parse_rfc850_fields is_rfc850_frame
fields_lem t v l h =
    rw
      (
        parse_day-tens t.day v.day_from (day_at_most t v),
        parse_month_rfc850-letter t.month v.month_below,
        parse_short_year-tens t.year l h,
        parse_hour-tens t.hour v.hour_below,
        parse_minute-tens t.minute v.minute_below,
        parse_minute-tens t.second v.second_below,
      )
      (make_date-IsDate t v (inl (omega arith)))

-- Every date from 1970 to 2069, written in the format of RFC 850 with its own weekday, is parsed to
-- itself.
pub parse_http_date-to_rfc850 :
    (t : UtcDate)
    → IsDate t
    → 1970 ≤ t.year
    → t.year < 2070
    → parse_http_date (to_rfc850 t) ≡ some t
parse_http_date-to_rfc850 t v l h =
    parse_http_date-full_day_name (weekday_of t) _ (weekday_below t) ∙ fields_lem t v l h
