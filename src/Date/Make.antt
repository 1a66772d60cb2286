-- ===== src/Date/Make.antt =====
-- Which dates `makeDate` lets pass.
use undici.Base.{
  ℕ, ◌+◌, ◌≤◌, ◌≡◌, ◌≢◌, ◌⊎◌, inl, inr, refl, ◌∙◌, arith, true, false, some, leb, Bool-cases,
}
use undici.Date.{build_date, confirm, make_date}
use undici.Date.Calendar.{
  UtcDate, is_leap, days_in_month, weekday_of, carry_day, date_utc, set_utc_full_year,
}
use undici.Date.Print.{IsDate}

-- The 29th of February of year 0: the years 0 to 99 go through 1900 to 1999, and 1900 is no leap year.
abbrev pub IsRegular : UtcDate → Type 0
IsRegular t = (1 ≤ t.year) ⊎ ((t.month ≢ 1) ⊎ (t.day ≤ 28))

carry_day-IsDate : (t : UtcDate) → t.day ≤ days_in_month t.year t.month → carry_day t ≡ t
unfolding carry_day
carry_day-IsDate t h = ground arith

days_in_month_1900 :
    (y m : ℕ) → y ≤ 99 → (1 ≤ y) ⊎ (m ≢ 1) → days_in_month (y + 1900) m ≡ days_in_month y m
unfolding days_in_month is_leap
days_in_month_1900 y m h r = ground arith

days_in_month-from : (y m : ℕ) → 28 ≤ days_in_month y m
unfolding days_in_month is_leap
days_in_month-from y m = ground arith

fits_1900 :
    (t : UtcDate)
    → IsDate t
    → IsRegular t
    → t.year ≤ 99
    → t.day ≤ days_in_month (t.year + 1900) t.month
fits_1900 t v (inl later) l =
    ground (arith, days_in_month_1900 t.year t.month l (inl later), v.day_to)
fits_1900 t v (inr (inl other)) l =
    ground (arith, days_in_month_1900 t.year t.month l (inr other), v.day_to)
fits_1900 t v (inr (inr small)) l = omega (arith, days_in_month-from (t.year + 1900) t.month)

date_utc-early :
    (t : UtcDate)
    → leb t.year 99 ≡ true
    → t.day ≤ days_in_month (t.year + 1900) t.month
    → date_utc t ≡ record t { year = t.year + 1900 }
unfolding date_utc
date_utc-early t early h = simp (early) (carry_day-IsDate (record t { year = t.year + 1900 }) h)

date_utc-late : (t : UtcDate) → leb t.year 99 ≡ false → date_utc t ≡ carry_day t
unfolding date_utc
date_utc-late t late = simp (late) refl

build_date-IsDate : (t : UtcDate) → IsDate t → IsRegular t → build_date t ≡ t
unfolding build_date set_utc_full_year
build_date-IsDate t v r = build (Bool-cases (leb t.year 99))
  where
    build : (leb t.year 99 ≡ true) ⊎ (leb t.year 99 ≡ false) → build_date t ≡ t
    build (inr late) = simp (late) (date_utc-late t late ∙ carry_day-IsDate t v.day_to)
    build (inl early) =
        let same = date_utc-early t early (fits_1900 t v r (ground arith)) in
        simp (early, same) (carry_day-IsDate t v.day_to)

confirm_self : (t : UtcDate) → confirm t t (weekday_of t) ≡ some t
unfolding confirm
confirm_self t = ground arith

-- Every date of the calendar passes with its own weekday, but for the 29th of February of year 0.
pub make_date-IsDate : (t : UtcDate) → IsDate t → IsRegular t → make_date t (weekday_of t) ≡ some t
unfolding make_date
make_date-IsDate t v r = rw (build_date-IsDate t v r) (confirm_self t)
