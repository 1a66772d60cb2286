-- ===== src/Date/Print.antt =====
-- The three formats of RFC 9110, section 5.6.7, written out: what a sender makes of a date.
use undici.Base.{
  ℕ, ◌+◌, ◌*◌, ◌/◌, ◌%◌, ◌≤◌, ◌<◌, ◌≡◌, refl, arith, Bool, true, false, Option, none, some, Bytes,
  codes, get_or, ltb, ◌==◌, if◌then◌else◌,
}
use undici.Base.Bits.{passes_below, passes_below_lem}
use undici.Date.Calendar.{UtcDate, days_in_month}
use undici.Date.Fields.{
  parse_weekday, parse_day, parse_month, parse_month_rfc850, parse_hour, parse_minute, parse_year,
  parse_short_year, parse_digit,
}

-- a date that the calendar has
pub record IsDate (t : UtcDate) : Type 0 where
  pub month_below : t.month < 12
  pub day_from : 1 ≤ t.day
  pub day_to : t.day ≤ days_in_month t.year t.month
  pub hour_below : t.hour < 24
  pub minute_below : t.minute < 60
  pub second_below : t.second < 60

-- letter `i` of the n-th name of three letters
unfoldable pub letter : Bytes → ℕ → ℕ → ℕ
letter names n i = get_or names (3 * n + i) 0

abbrev pub day_names : Bytes
day_names = codes "SunMonTueWedThuFriSat"

abbrev pub month_names : Bytes
month_names = codes "JanFebMarAprMayJunJulAugSepOctNovDec"

-- the digits of a number below 100
unfoldable pub tens : ℕ → ℕ
tens n = 48 + n / 10

unfoldable pub units : ℕ → ℕ
units n = 48 + n % 10

-- the first digit with a blank in place of 0
unfoldable pub blank_tens : ℕ → ℕ
blank_tens n = if ltb n 10 then 32 else 48 + n / 10

-- whether a field is a number
abbrev gives : Option ℕ → ℕ → Bool
gives none n = false
gives (some a) n = a == n

gives_lem : (o : Option ℕ) (n : ℕ) → gives o n ≡ true → o ≡ some n
gives_lem none n h = cc
gives_lem (some a) n h = ground arith

weekday_table :
    passes_below 7 (λ w.
      gives (parse_weekday (letter day_names w 0) (letter day_names w 1) (letter day_names w 2)) w)
    ≡ true
unfolding passes_below parse_weekday letter
weekday_table = refl

pub parse_weekday-letter :
    (w : ℕ)
    → w < 7
    → parse_weekday (letter day_names w 0) (letter day_names w 1) (letter day_names w 2) ≡ some w
parse_weekday-letter w h = gives_lem _ w (passes_below_lem 7 _ w weekday_table h)

month_table :
    passes_below 12 (λ m.
      gives
        (parse_month (letter month_names m 0) (letter month_names m 1) (letter month_names m 2))
        m)
    ≡ true
unfolding passes_below parse_month letter
month_table = refl

pub parse_month-letter :
    (m : ℕ)
    → m < 12
    → parse_month (letter month_names m 0) (letter month_names m 1) (letter month_names m 2)
      ≡ some m
parse_month-letter m h = gives_lem _ m (passes_below_lem 12 _ m month_table h)

month_rfc850_table :
    passes_below 12 (λ m.
      gives
        (parse_month_rfc850
          (letter month_names m 0)
          (letter month_names m 1)
          (letter month_names m 2))
        m)
    ≡ true
unfolding passes_below parse_month_rfc850 letter
month_rfc850_table = refl

pub parse_month_rfc850-letter :
    (m : ℕ)
    → m < 12
    → parse_month_rfc850 (letter month_names m 0) (letter month_names m 1) (letter month_names m 2)
      ≡ some m
parse_month_rfc850-letter m h = gives_lem _ m (passes_below_lem 12 _ m month_rfc850_table h)

pub parse_day-tens : (d : ℕ) → 1 ≤ d → d ≤ 31 → parse_day 48 (tens d) (units d) ≡ some d
unfolding parse_day tens units
parse_day-tens d h l = ground arith

pub parse_day-blank_tens : (d : ℕ) → 1 ≤ d → d ≤ 31 → parse_day 32 (blank_tens d) (units d) ≡ some d
unfolding parse_day blank_tens units
parse_day-blank_tens d h l = ground arith

pub parse_hour-tens : (n : ℕ) → n < 24 → parse_hour (tens n) (units n) ≡ some n
unfolding parse_hour tens units
parse_hour-tens n h = ground arith

pub parse_minute-tens : (n : ℕ) → n < 60 → parse_minute (tens n) (units n) ≡ some n
unfolding parse_minute tens units
parse_minute-tens n h = ground arith

pub parse_year-tens :
    (n : ℕ)
    → n < 10000
    → parse_year (tens (n / 100)) (units (n / 100)) (tens (n % 100)) (units (n % 100)) ≡ some n
unfolding parse_year parse_digit tens units
parse_year-tens n h = ground arith

pub parse_short_year-tens :
    (n : ℕ) → 1970 ≤ n → n < 2070 → parse_short_year (tens (n % 100)) (units (n % 100)) ≡ some n
unfolding parse_short_year parse_digit tens units
parse_short_year-tens n h l = ground arith
