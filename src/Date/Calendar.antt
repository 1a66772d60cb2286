-- ===== src/Date/Calendar.antt =====
-- The platform's Gregorian calendar, as `Date` keeps it in UTC, for years from 0 on.
use undici.Base.{ℕ, ◌+◌, ◌-◌, ◌*◌, ◌/◌, ◌%◌, Bool, not, ◌&&◌, ◌||◌, leb, ◌==◌, if◌then◌else◌}

-- what `getUTCFullYear`, `getUTCMonth` (from 0) and the others give
pub record UtcDate : Type 0 where
  pub year : ℕ
  pub month : ℕ
  pub day : ℕ
  pub hour : ℕ
  pub minute : ℕ
  pub second : ℕ

unfoldable pub is_leap : ℕ → Bool
is_leap year = year % 4 == 0 && (not (year % 100 == 0) || year % 400 == 0)

unfoldable pub days_in_month : ℕ → ℕ → ℕ
days_in_month year month =
    if month == 1
    then (if is_leap year then 29 else 28)
    else if month == 3 || month == 5 || month == 8 || month == 10
    then 30
    else 31

-- the days of a year before the first of a month
unfoldable pub days_before_month : ℕ → ℕ → ℕ
days_before_month year month =
    if leb month 1
    then 31 * month
    else (367 * (month + 1) - 362) / 12 - (if is_leap year then 1 else 2)

-- the days before the first of January, from that of year 0 on, which was a Saturday
unfoldable pub days_before_year : ℕ → ℕ
days_before_year year = 365 * year + (year + 3) / 4 - (year + 99) / 100 + (year + 399) / 400

-- `getUTCDay`: 0 is Sunday
unfoldable pub weekday_of : UtcDate → ℕ
weekday_of t = (days_before_year t.year + days_before_month t.year t.month + (t.day + 5)) % 7

-- A day up to 28 past the end of the month is one of the next month.
unfoldable pub carry_day : UtcDate → UtcDate
carry_day t =
    if leb t.day (days_in_month t.year t.month)
    then t
    else if t.month == 11
    then record t { year = t.year + 1; month = 0; day = t.day - 31 }
    else record t { month = t.month + 1; day = t.day - days_in_month t.year t.month }

-- `Date.UTC` of a month below 12, a day from 1 to 39, and a time of the day: it takes the years 0 to
-- 99 for 1900 to 1999.
unfoldable pub date_utc : UtcDate → UtcDate
date_utc t = carry_day (record t { year = if leb t.year 99 then t.year + 1900 else t.year })

-- `setUTCFullYear`, which keeps the month and the day
unfoldable pub set_utc_full_year : UtcDate → ℕ → UtcDate
set_utc_full_year t year = carry_day (record t { year = year })
