-- ===== src/Date/Checked.antt =====
-- What the tests on the fields and `makeDate` leave: a date of the calendar.
use undici.Base.{
  ℕ, ◌+◌, ◌-◌, ◌*◌, ◌%◌, ◌≤◌, ◌<◌, ◌≡◌, ◌⊎◌, inl, inr, refl, ap, ◌&&◌, arith, true, false, Option,
  none, some, leb, Bool-cases, Bool, ◌==◌, if◌then◌else◌, if_elim,
}
use undici.Date.{same_date, build_date, confirm, make_date}
use undici.Date.Calendar.{
  UtcDate, days_in_month, weekday_of, carry_day, date_utc, set_utc_full_year,
}
use undici.Date.Fields.{
  ◌>>=◌, parse_digit, parse_year, parse_short_year, parse_day, parse_month, parse_month_rfc850,
  parse_hour, parse_minute,
}
use undici.Date.Print.{IsDate}

-- the day is in the month
abbrev Fits : UtcDate → Type 0
Fits t = t.day ≤ days_in_month t.year t.month

carry_day-cases :
    (t : UtcDate)
    → t.month < 12
    → ((carry_day t ≡ t) × Fits t) ⊎ ((carry_day t).month ≡ (t.month + 1) % 12)
unfolding carry_day
carry_day-cases t h = elim (Bool-cases (leb t.day (days_in_month t.year t.month))) [
  | inl fits ↦ inl (simp (fits) refl, ground arith)
  | inr over ↦ inr (ground arith)
]

-- A date that was carried once or not at all, and is carried back into its month, was not carried.
carry_day-Fits :
    (t : UtcDate) (month : ℕ)
    → month < 12
    → (t.month ≡ month) ⊎ (t.month ≡ (month + 1) % 12)
    → (carry_day t).month ≡ month
    → Fits (carry_day t)
carry_day-Fits t month h from e = elim (carry_day-cases t (ground arith)) [
  | inl (same, fits) ↦ rw (same) fits
  | inr moved ↦ absurd (ground arith)
]

date_utc-month :
    (t : UtcDate)
    → t.month < 12
    → ((date_utc t).month ≡ t.month) ⊎ ((date_utc t).month ≡ (t.month + 1) % 12)
unfolding date_utc
date_utc-month t h =
    elim (carry_day-cases (record t { year = if leb t.year 99 then t.year + 1900 else t.year }) h) [
      | inl (same, fits) ↦ inl (ap (λ (x : UtcDate). x.month) same)
      | inr moved ↦ inr moved
    ]

build_date-Fits :
    (t : UtcDate) → t.month < 12 → (build_date t).month ≡ t.month → Fits (build_date t)
unfolding build_date set_utc_full_year date_utc
build_date-Fits t h =
    if_elim (λ (x : UtcDate). x.month ≡ t.month → Fits x) (leb t.year 99)
      (carry_day-Fits _ t.month h (date_utc-month t h)) (carry_day-Fits _ t.month h (inl refl))

-- what holds of a result, if there is one
unfoldable pub Every : {A : Type 0} → (A → Type 0) → Option A → Type 0
Every P none = Unit
Every P (some a) = P a

-- what the fields are checked for before the date is made
pub record InRange (t : UtcDate) : Type 0 where
  pub month_below : t.month < 12
  pub day_from : 1 ≤ t.day
  pub hour_below : t.hour < 24
  pub minute_below : t.minute < 60
  pub second_below : t.second < 60

-- The fields of a date are those that were asked for, and its weekday is.
pub record IsAsked (asked : UtcDate) (weekday : ℕ) (t : UtcDate) : Type 0 where
  pub same_year : t.year ≡ asked.year
  pub same_month : t.month ≡ asked.month
  pub same_day : t.day ≡ asked.day
  pub same_hour : t.hour ≡ asked.hour
  pub same_minute : t.minute ≡ asked.minute
  pub same_second : t.second ≡ asked.second
  pub same_weekday : weekday_of t ≡ weekday

-- What is confirmed is a date of the calendar, and the one that was asked for.
confirm-Every :
    (Q : UtcDate → Type 0) (result asked : UtcDate) (weekday : ℕ)
    → InRange asked
    → (result.month ≡ asked.month → Fits result)
    → ((t : UtcDate) → IsDate t → IsAsked asked weekday t → Q t)
    → Every Q (confirm result asked weekday)
unfolding confirm Every
confirm-Every Q result asked weekday v fits q =
    elim (Bool-cases (same_date result asked && weekday_of result == weekday)) [
      | inr differs ↦ simp (differs) tt
      | inl same ↦
          let a : IsAsked asked weekday result = record {
            same_year = ground arith;
            same_month = ground arith;
            same_day = ground arith;
            same_hour = ground arith;
            same_minute = ground arith;
            same_second = ground arith;
            same_weekday = ground arith;
          } in
          let d : IsDate result = record {
            month_below = omega (arith, v.month_below, a.same_month);
            day_from = omega (arith, v.day_from, a.same_day);
            day_to = fits a.same_month;
            hour_below = omega (arith, v.hour_below, a.same_hour);
            minute_below = omega (arith, v.minute_below, a.same_minute);
            second_below = omega (arith, v.second_below, a.same_second);
          } in
          simp (same) (q result d a)
    ]

pub make_date-Every :
    (Q : UtcDate → Type 0) (asked : UtcDate) (weekday : ℕ)
    → InRange asked
    → ((t : UtcDate) → IsDate t → IsAsked asked weekday t → Q t)
    → Every Q (make_date asked weekday)
unfolding make_date
make_date-Every Q asked weekday v q =
    confirm-Every Q (build_date asked) asked weekday v (build_date-Fits asked v.month_below) q

-- If the rest of a parser gives results of a kind only, so does the parser.
pub then-Every :
    (Q : UtcDate → Type 0) {A : Type 0} {P : A → Type 0} (o : Option A) (f : A → Option UtcDate)
    → Every P o
    → ((a : A) → o ≡ some a → P a → Every Q (f a))
    → Every Q (o >>= f)
unfolding Every
then-Every Q none f p h = tt
then-Every Q (some a) f p h = h a refl p

-- The number that two digits write; a blank counts as 0.
abbrev pub two : ℕ → ℕ → ℕ
two a b = (a - 48) * 10 + (b - 48)

pub parse_day-Every :
    (blank a b : ℕ) → blank ≤ 48 → Every (λ d. (1 ≤ d) × (d ≡ two a b)) (parse_day blank a b)
unfolding parse_day Every
parse_day-Every blank a b h = ground arith

pub parse_hour-Every : (a b : ℕ) → Every (λ n. (n < 24) × (n ≡ two a b)) (parse_hour a b)
unfolding parse_hour Every
parse_hour-Every a b = ground arith

pub parse_minute-Every : (a b : ℕ) → Every (λ n. (n < 60) × (n ≡ two a b)) (parse_minute a b)
unfolding parse_minute Every
parse_minute-Every a b = ground arith

pub parse_year-Every : (a b c d : ℕ) → Every (λ n. n ≡ two a b * 100 + two c d) (parse_year a b c d)
unfolding parse_year parse_digit Every
parse_year-Every a b c d = ground arith

pub parse_short_year-Every :
    (a b : ℕ) → Every (λ n. (n % 100 ≡ two a b) × (1970 ≤ n) × (n < 2070)) (parse_short_year a b)
unfolding parse_short_year parse_digit Every
parse_short_year-Every a b = ground arith

pub parse_month-Every : (a b c : ℕ) → Every (λ n. n < 12) (parse_month a b c)
unfolding parse_month Every
parse_month-Every a b c = ground arith

-- A conditional gives a month if both branches do.
if-Every :
    (test : Bool) (x y : Option ℕ)
    → Every (λ n. n < 12) x
    → Every (λ n. n < 12) y
    → Every (λ n. n < 12) (if test then x else y)
if-Every true x y p q = p
if-Every false x y p q = q

some-Every : (n : ℕ) → leb n 11 ≡ true → Every (λ n. n < 12) (some n)
unfolding Every
some-Every n h = ground arith

none-Every : Every (λ n. n < 12) none
unfolding Every
none-Every = tt

pub parse_month_rfc850-Every : (a b c : ℕ) → Every (λ n. n < 12) (parse_month_rfc850 a b c)
unfolding parse_month_rfc850
parse_month_rfc850-Every a b c = if-Every _ _ _ (some-Every 0 refl) (
    if-Every _ _ _ (some-Every 1 refl) (
      if-Every _ _ _ (some-Every 2 refl) (
        if-Every _ _ _ (some-Every 3 refl) (
          if-Every _ _ _ (some-Every 4 refl) (
            if-Every _ _ _ (some-Every 5 refl) (
              if-Every _ _ _ (some-Every 6 refl) (
                if-Every _ _ _ (some-Every 7 refl) (
                  if-Every _ _ _ (some-Every 8 refl) (
                    if-Every _ _ _ (some-Every 9 refl) (
                      if-Every _ _ _ (some-Every 10 refl)
                        (if-Every _ _ _ (some-Every 11 refl) none-Every)))))))))))

pub any-Every : {A : Type 0} (o : Option A) → Every (λ _. Unit) o
unfolding Every
any-Every none = tt
any-Every (some a) = tt
