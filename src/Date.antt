-- ===== src/Date.antt =====
-- lib/util/date.js: `parseHttpDate`, with its three formats. A string is the list of its char codes;
-- a place behind its end, which is `undefined` in the code, is 0, which no test asks for.
pub mod Calendar
pub mod Fields
pub mod Print
pub mod Make
pub mod RoundTrip
pub mod Rfc850
pub mod Checked
pub mod Sound
mod Tests
use undici.Base.{
  ℕ, ◌+◌, Bool, ◌&&◌, ◌||◌, not, Option, none, some, [], ◌∷◌, Bytes, codes, length, take, drop,
  get_or, leb, ◌==◌, if◌then◌else◌, equal,
}
use undici.Date.Calendar.{UtcDate, weekday_of, date_utc, set_utc_full_year}
use undici.Date.Fields.{
  ◌>>=◌, parse_weekday, parse_day, parse_month, parse_month_rfc850, parse_hour, parse_minute,
  parse_year, parse_short_year,
}

-- whether the components of `result` are the ones that were asked for
abbrev pub same_date : UtcDate → UtcDate → Bool
same_date result asked =
    result.year == asked.year
    && result.month == asked.month
    && result.day == asked.day
    && result.hour == asked.hour
    && result.minute == asked.minute
    && result.second == asked.second

-- the `Date` that `makeDate` builds
unfoldable pub build_date : UtcDate → UtcDate
build_date asked =
    if leb asked.year 99 then set_utc_full_year (date_utc asked) asked.year else date_utc asked

-- the components that `makeDate` compares
unfoldable pub confirm : UtcDate → UtcDate → ℕ → Option UtcDate
confirm result asked weekday =
    if same_date result asked && weekday_of result == weekday then some result else none

-- `makeDate`
unfoldable pub make_date : UtcDate → ℕ → Option UtcDate
make_date asked weekday = confirm (build_date asked) asked weekday

-- the separators that `parseImfDate` asks for
unfoldable pub is_imf_frame : Bytes → Bool
is_imf_frame date =
    let at : ℕ → ℕ = λ i. get_or date i 0 in
    length date == 29
    && equal (at 4 ∷ at 7 ∷ at 11 ∷ at 16 ∷ []) (codes "    ")
    && equal (at 19 ∷ at 22 ∷ []) (codes "::")
    && equal (at 25 ∷ at 26 ∷ at 27 ∷ at 28 ∷ []) (codes " GMT")

-- `parseImfDate` behind the separators
unfoldable pub parse_imf_fields : Bytes → Option UtcDate
parse_imf_fields date = do
  let at : ℕ → ℕ = λ i. get_or date i 0
  weekday ← parse_weekday (at 0) (at 1) (at 2)
  day ← parse_day 48 (at 5) (at 6)
  month ← parse_month (at 8) (at 9) (at 10)
  year ← parse_year (at 12) (at 13) (at 14) (at 15)
  hour ← parse_hour (at 17) (at 18)
  minute ← parse_minute (at 20) (at 21)
  second ← parse_minute (at 23) (at 24)
  make_date
      (record {
        year = year;
        month = month;
        day = day;
        hour = hour;
        minute = minute;
        second = second;
      })
      weekday

unfoldable pub parse_imf_date : Bytes → Option UtcDate
parse_imf_date date = if is_imf_frame date then parse_imf_fields date else none

-- the separators that `parseAscTimeDate` asks for
unfoldable pub is_asc_time_frame : Bytes → Bool
is_asc_time_frame date =
    let at : ℕ → ℕ = λ i. get_or date i 0 in
    length date == 24 && equal (at 7 ∷ at 10 ∷ at 19 ∷ []) (codes "   ")

-- `parseAscTimeDate` behind the separators
unfoldable pub parse_asc_time_fields : Bytes → Option UtcDate
parse_asc_time_fields date = do
  let at : ℕ → ℕ = λ i. get_or date i 0
  weekday ← parse_weekday (at 0) (at 1) (at 2)
  month ← parse_month (at 4) (at 5) (at 6)
  day ← parse_day 32 (at 8) (at 9)
  hour ← parse_hour (at 11) (at 12)
  minute ← parse_minute (at 14) (at 15)
  second ← parse_minute (at 17) (at 18)
  year ← parse_year (at 20) (at 21) (at 22) (at 23)
  make_date
      (record {
        year = year;
        month = month;
        day = day;
        hour = hour;
        minute = minute;
        second = second;
      })
      weekday

-- `parseAscTimeDate`
unfoldable pub parse_asc_time_date : Bytes → Option UtcDate
parse_asc_time_date date = if is_asc_time_frame date then parse_asc_time_fields date else none

-- The day's name in `parseRfc850Date`: the weekday, and `commaIndex`. Where the code goes on with
-- `commaIndex` -1, its next test refuses the date.
unfoldable pub parse_day_name : Bytes → Option (ℕ × ℕ)
parse_day_name date =
    if equal (take 6 date) (codes "Sunday")
    then some (0, 6)
    else if equal (take 8 date) (codes "Saturday")
    then some (6, 8)
    else if equal (take 6 date) (codes "Monday")
    then some (1, 6)
    else if equal (take 7 date) (codes "Tuesday")
    then some (2, 7)
    else if equal (take 8 date) (codes "Thursday")
    then some (4, 8)
    else if equal (take 9 date) (codes "Wednesday")
    then some (3, 9)
    else if equal (take 6 date) (codes "Friday")
    then some (5, 6)
    else none

-- the separators that `parseRfc850Date` asks for, in the part of the date from the comma on
unfoldable pub is_rfc850_frame : Bytes → Bool
is_rfc850_frame part =
    let at : ℕ → ℕ = λ i. get_or part i 0 in
    equal (at 0 ∷ []) (codes ",")
    && length part == 24
    && equal (at 1 ∷ at 4 ∷ at 8 ∷ at 11 ∷ []) (codes " -- ")
    && equal (at 14 ∷ at 17 ∷ []) (codes "::")
    && equal (at 20 ∷ at 21 ∷ at 22 ∷ at 23 ∷ []) (codes " GMT")

-- `parseRfc850Date` behind the separators, on the part from the comma on
unfoldable pub parse_rfc850_fields : ℕ → Bytes → Option UtcDate
parse_rfc850_fields weekday part = do
  let at : ℕ → ℕ = λ i. get_or part i 0
  day ← parse_day 48 (at 2) (at 3)
  month ← parse_month_rfc850 (at 5) (at 6) (at 7)
  year ← parse_short_year (at 9) (at 10)
  hour ← parse_hour (at 12) (at 13)
  minute ← parse_minute (at 15) (at 16)
  second ← parse_minute (at 18) (at 19)
  make_date
      (record {
        year = year;
        month = month;
        day = day;
        hour = hour;
        minute = minute;
        second = second;
      })
      weekday

-- `parseRfc850Date`
unfoldable pub parse_rfc850_date : Bytes → Option UtcDate
parse_rfc850_date date = do
  named ← parse_day_name date
  let part = drop named.1 date
  if is_rfc850_frame part then parse_rfc850_fields named.0 part else none

-- `parseHttpDate`
unfoldable pub parse_http_date : Bytes → Option UtcDate
parse_http_date date =
    let fourth = get_or date 3 0 in
    if equal (fourth ∷ []) (codes ",")
    then parse_imf_date date
    else if equal (fourth ∷ []) (codes " ")
    then parse_asc_time_date date
    else parse_rfc850_date date
