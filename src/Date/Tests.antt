-- ===== src/Date/Tests.antt =====
-- Dates in the three formats.
use undici.Base.{inl, arith, ◌≡◌, refl, some, none, codes}
use undici.Date.{
  parse_http_date, make_date, build_date, confirm, parse_asc_time_date, is_asc_time_frame,
  parse_asc_time_fields, parse_day_name, is_rfc850_frame, parse_rfc850_fields, parse_rfc850_date,
}
use undici.Date.Fields.{
  parse_weekday, parse_day, parse_month, parse_month_rfc850, parse_hour, parse_minute, parse_year,
  parse_digit, parse_short_year,
}
use undici.Date.Calendar.{
  UtcDate, is_leap, days_in_month, days_before_month, days_before_year, weekday_of, carry_day,
  date_utc, set_utc_full_year,
}
use undici.Date.Print.{IsDate}
use undici.Date.RoundTrip.{
  to_imf, asc_time_with, parse_http_date-to_imf, parse_http_date-asc_time_with,
}
use undici.Date.Rfc850.{to_rfc850, parse_http_date-to_rfc850}

-- the example of RFC 9110
abbrev sunday : UtcDate
sunday = record { year = 1994; month = 10; day = 6; hour = 8; minute = 49; second = 37 }

asc_parsed : parse_http_date (codes "Sun Nov  6 08:49:37 1994") ≡ some sunday
unfolding parse_http_date make_date build_date confirm parse_asc_time_date is_asc_time_frame
    parse_asc_time_fields parse_weekday parse_day parse_month parse_hour parse_minute parse_year
    parse_digit is_leap days_in_month days_before_month days_before_year weekday_of carry_day
    date_utc set_utc_full_year
asc_parsed = refl

rfc850_parsed : parse_http_date (codes "Sunday, 06-Nov-94 08:49:37 GMT") ≡ some sunday
unfolding parse_http_date make_date build_date confirm parse_rfc850_date parse_day_name
    is_rfc850_frame parse_rfc850_fields parse_day parse_month_rfc850 parse_hour parse_minute
    parse_short_year parse_digit is_leap days_in_month days_before_month days_before_year weekday_of
    carry_day date_utc set_utc_full_year
rfc850_parsed = refl

sunday-IsDate : IsDate sunday
unfolding days_in_month
sunday-IsDate = record {
  month_below = omega arith;
  day_from = omega arith;
  day_to = omega arith;
  hour_below = omega arith;
  minute_below = omega arith;
  second_below = omega arith;
}

parse_http_date-to_imf_example : parse_http_date (to_imf sunday) ≡ some sunday
parse_http_date-to_imf_example =
    parse_http_date-to_imf sunday sunday-IsDate (inl (omega arith)) (omega arith)

-- The colons of the time may be any characters, here `x` and `y`.
parse_http_date-asc_time_with_example : parse_http_date (asc_time_with 120 121 sunday) ≡ some sunday
parse_http_date-asc_time_with_example =
    parse_http_date-asc_time_with 120 121 sunday sunday-IsDate (inl (omega arith)) (omega arith)

parse_http_date-to_rfc850_example : parse_http_date (to_rfc850 sunday) ≡ some sunday
parse_http_date-to_rfc850_example =
    parse_http_date-to_rfc850 sunday sunday-IsDate (omega arith) (omega arith)

-- the 29th of February of year 0, which the calendar has, with its weekday
abbrev leap_day : UtcDate
leap_day = record { year = 0; month = 1; day = 29; hour = 0; minute = 0; second = 0 }

leap_day_refused : make_date leap_day 2 ≡ none
unfolding make_date build_date confirm is_leap days_in_month days_before_month days_before_year
    weekday_of carry_day date_utc set_utc_full_year
leap_day_refused = refl
