-- ===== src/Date/Sound.antt =====
-- Every date that `parseHttpDate` returns is one of the calendar, and the one that the text names.
use undici.Base.{ℕ, ◌+◌, ◌*◌, ◌%◌, ◌≤◌, ◌<◌, ◌≡◌, ◌⊎◌, some, Bytes, drop, get_or}
use undici.Date.{parse_day_name}
use undici.Date.Calendar.{UtcDate, weekday_of}
use undici.Date.Checked.{two}
use undici.Date.Fields.{parse_weekday, parse_month, parse_month_rfc850}
use undici.Date.Print.{IsDate}

-- The day and the time of a date are written in two digits each at these places of a text.
pub record IsWritten (text : Bytes) (day hour minute second : ℕ) (t : UtcDate) : Type 0 where
  pub day_at : t.day ≡ two (get_or text day 0) (get_or text (day + 1) 0)
  pub hour_at : t.hour ≡ two (get_or text hour 0) (get_or text (hour + 1) 0)
  pub minute_at : t.minute ≡ two (get_or text minute 0) (get_or text (minute + 1) 0)
  pub second_at : t.second ≡ two (get_or text second 0) (get_or text (second + 1) 0)

-- The year is written in four digits from a place on.
abbrev YearAt : Bytes → ℕ → ℕ → Type 0
YearAt text place year =
    year
    ≡ two (get_or text place 0) (get_or text (place + 1) 0) * 100
      + two (get_or text (place + 2) 0) (get_or text (place + 3) 0)

-- The text of each format names a date: its weekday, day, month, year and time.
pub record IsImf (date : Bytes) (t : UtcDate) : Type 0 where
  pub numbers : IsWritten date 5 17 20 23 t
  pub year_at : YearAt date 12 t.year
  pub month_at : parse_month (get_or date 8 0) (get_or date 9 0) (get_or date 10 0) ≡ some t.month
  pub weekday_at :
      parse_weekday (get_or date 0 0) (get_or date 1 0) (get_or date 2 0) ≡ some (weekday_of t)

pub record IsAscTime (date : Bytes) (t : UtcDate) : Type 0 where
  pub numbers : IsWritten date 8 11 14 17 t
  pub year_at : YearAt date 20 t.year
  pub month_at : parse_month (get_or date 4 0) (get_or date 5 0) (get_or date 6 0) ≡ some t.month
  pub weekday_at :
      parse_weekday (get_or date 0 0) (get_or date 1 0) (get_or date 2 0) ≡ some (weekday_of t)

-- `part` is the text from the comma on.
pub record IsRfc850 (weekday : ℕ) (part : Bytes) (t : UtcDate) : Type 0 where
  pub numbers : IsWritten part 2 12 15 18 t
  pub short_year : t.year % 100 ≡ two (get_or part 9 0) (get_or part 10 0)
  pub in_years : (1970 ≤ t.year) × (t.year < 2070)
  pub month_at :
      parse_month_rfc850 (get_or part 5 0) (get_or part 6 0) (get_or part 7 0) ≡ some t.month
  pub weekday_is : weekday_of t ≡ weekday

-- A date of the calendar that the text names, in the format that its fourth character tells.
abbrev pub IsNamed : Bytes → UtcDate → Type 0
IsNamed date t =
    IsDate t
    × (((get_or date 3 0 ≡ 44) × IsImf date t)
        ⊎ (((get_or date 3 0 ≡ 32) × IsAscTime date t)
            ⊎ ((weekday : ℕ) × (comma : ℕ) × (parse_day_name date ≡ some (weekday, comma))
                × IsRfc850 weekday (drop comma date) t)))
