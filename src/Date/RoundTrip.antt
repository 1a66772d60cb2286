-- ===== src/Date/RoundTrip.antt =====
-- `parseHttpDate` reads back what is written in each of the three formats.
use undici.Base.{ℕ, ◌/◌, ◌%◌, ◌≤◌, ◌<◌, ◌≡◌, arith, some, [], ◌∷◌, Bytes}
use undici.Date.{
  parse_http_date, parse_imf_date, is_imf_frame, parse_imf_fields, parse_asc_time_date,
  is_asc_time_frame, parse_asc_time_fields,
}
use undici.Date.Calendar.{UtcDate, days_in_month, weekday_of}
use undici.Date.Make.{IsRegular, make_date-IsDate}
use undici.Date.Print.{
  IsDate, letter, day_names, month_names, tens, units, blank_tens, parse_weekday-letter,
  parse_month-letter, parse_day-tens, parse_day-blank_tens, parse_hour-tens, parse_minute-tens,
  parse_year-tens,
}

-- `Sun, 06 Nov 1994 08:49:37 GMT`
abbrev pub to_imf : UtcDate → Bytes
to_imf t =
    let w = weekday_of t in
    letter day_names w 0
    ∷ letter day_names w 1
    ∷ letter day_names w 2
    ∷ 44
    ∷ 32
    ∷ tens t.day
    ∷ units t.day
    ∷ 32
    ∷ letter month_names t.month 0
    ∷ letter month_names t.month 1
    ∷ letter month_names t.month 2
    ∷ 32
    ∷ tens (t.year / 100)
    ∷ units (t.year / 100)
    ∷ tens (t.year % 100)
    ∷ units (t.year % 100)
    ∷ 32
    ∷ tens t.hour
    ∷ units t.hour
    ∷ 58
    ∷ tens t.minute
    ∷ units t.minute
    ∷ 58
    ∷ tens t.second
    ∷ units t.second
    ∷ 32
    ∷ 71
    ∷ 77
    ∷ 84
    ∷ []

-- `Sun Nov  6 08:49:37 1994`, with any two characters in place of the colons
abbrev pub asc_time_with : ℕ → ℕ → UtcDate → Bytes
asc_time_with c d t =
    let w = weekday_of t in
    letter day_names w 0
    ∷ letter day_names w 1
    ∷ letter day_names w 2
    ∷ 32
    ∷ letter month_names t.month 0
    ∷ letter month_names t.month 1
    ∷ letter month_names t.month 2
    ∷ 32
    ∷ blank_tens t.day
    ∷ units t.day
    ∷ 32
    ∷ tens t.hour
    ∷ units t.hour
    ∷ c
    ∷ tens t.minute
    ∷ units t.minute
    ∷ d
    ∷ tens t.second
    ∷ units t.second
    ∷ 32
    ∷ tens (t.year / 100)
    ∷ units (t.year / 100)
    ∷ tens (t.year % 100)
    ∷ units (t.year % 100)
    ∷ []

pub day_at_most : (t : UtcDate) → IsDate t → t.day ≤ 31
unfolding days_in_month
day_at_most t v = ground (arith, v.day_to)

pub weekday_below : (t : UtcDate) → weekday_of t < 7
unfolding weekday_of
weekday_below t = omega arith

imf_fields :
    (t : UtcDate) → IsDate t → IsRegular t → t.year < 10000 → parse_imf_fields (to_imf t) ≡ some t
unfolding parse_imf_fields
imf_fields t v r h =
    rw
      (
        parse_weekday-letter (weekday_of t) (weekday_below t),
        parse_day-tens t.day v.day_from (day_at_most t v),
        parse_month-letter t.month v.month_below,
        parse_year-tens t.year h,
        parse_hour-tens t.hour v.hour_below,
        parse_minute-tens t.minute v.minute_below,
        parse_minute-tens t.second v.second_below,
      )
      (make_date-IsDate t v r)

-- Every date of the calendar up to the year 9999, written as an IMF-fixdate with its own weekday, is
-- parsed to itself, but for the 29th of February of year 0.
pub parse_http_date-to_imf :
    (t : UtcDate) → IsDate t → IsRegular t → t.year < 10000 → parse_http_date (to_imf t) ≡ some t
unfolding parse_http_date parse_imf_date is_imf_frame
parse_http_date-to_imf t v r h = imf_fields t v r h

-- Every date of the calendar up to the year 9999, written in the format of asctime() with its own
-- weekday, is parsed to itself, but for the 29th of February of year 0; and so is the same string with
-- any other characters in place of the two colons of the time.
pub parse_http_date-asc_time_with :
    (c d : ℕ) (t : UtcDate)
    → IsDate t
    → IsRegular t
    → t.year < 10000
    → parse_http_date (asc_time_with c d t) ≡ some t
unfolding parse_http_date parse_asc_time_date is_asc_time_frame parse_asc_time_fields
parse_http_date-asc_time_with c d t v r h =
    rw
      (
        parse_weekday-letter (weekday_of t) (weekday_below t),
        parse_day-blank_tens t.day v.day_from (day_at_most t v),
        parse_month-letter t.month v.month_below,
        parse_year-tens t.year h,
        parse_hour-tens t.hour v.hour_below,
        parse_minute-tens t.minute v.minute_below,
        parse_minute-tens t.second v.second_below,
      )
      (make_date-IsDate t v r)
