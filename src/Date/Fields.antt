-- ===== src/Date/Fields.antt =====
-- The fields of a date in lib/util/date.js: what the characters at their places stand for. Each of the
-- three parsers has the same tests written out; `none` is its `return undefined`.
use undici.Base.{
  ℕ, ◌+◌, ◌-◌, ◌*◌, Bool, ◌&&◌, Option, none, some, [], ◌∷◌, codes, leb, ◌==◌, if◌then◌else◌, equal,
}

module _ {ℓ κ} {A : Type ℓ} {B : Type κ} where
  infixl 5 ◌>>=◌
  -- `undefined` goes on
  abbrev pub ◌>>=◌ : Option A → (A → Option B) → Option B
  none >>= field = none
  some a >>= field = field a

abbrev within : ℕ → ℕ → ℕ → Bool
within lo hi c = leb lo c && leb c hi

unfoldable pub parse_weekday : ℕ → ℕ → ℕ → Option ℕ
parse_weekday a b c =
    let is = equal (a ∷ b ∷ c ∷ []) in
    if is (codes "Sun")
    then some 0
    else if is (codes "Mon")
    then some 1
    else if is (codes "Tue")
    then some 2
    else if is (codes "Wed")
    then some 3
    else if is (codes "Thu")
    then some 4
    else if is (codes "Fri")
    then some 5
    else if is (codes "Sat")
    then some 6
    else none

-- The day of the month; `blank` is what stands before a single digit.
unfoldable pub parse_day : ℕ → ℕ → ℕ → Option ℕ
parse_day blank a b =
    if a == blank
    then (if within 49 57 b then some (b - 48) else none)
    else if within 49 51 a && within 48 57 b
    then some ((a - 48) * 10 + (b - 48))
    else none

-- the month from 0, with the tests in the order of `parseImfDate` and `parseAscTimeDate`
unfoldable pub parse_month : ℕ → ℕ → ℕ → Option ℕ
parse_month a b c =
    let is = equal (a ∷ b ∷ c ∷ []) in
    if is (codes "Jan")
    then some 0
    else if is (codes "Feb")
    then some 1
    else if equal (a ∷ b ∷ []) (codes "Ma")
    then (if equal (c ∷ []) (codes "r")
        then some 2
        else if equal (c ∷ []) (codes "y")
        then some 4
        else none)
    else if equal (a ∷ []) (codes "J")
    then (if equal (b ∷ c ∷ []) (codes "an")
        then some 0
        else if equal (b ∷ []) (codes "u")
        then (if equal (c ∷ []) (codes "n")
            then some 5
            else if equal (c ∷ []) (codes "l")
            then some 6
            else none)
        else none)
    else if equal (a ∷ []) (codes "A")
    then (if equal (b ∷ c ∷ []) (codes "pr")
        then some 3
        else if equal (b ∷ c ∷ []) (codes "ug")
        then some 7
        else none)
    else if is (codes "Sep")
    then some 8
    else if is (codes "Oct")
    then some 9
    else if is (codes "Nov")
    then some 10
    else if is (codes "Dec")
    then some 11
    else none

-- the month from 0, with the tests of `parseRfc850Date`
unfoldable pub parse_month_rfc850 : ℕ → ℕ → ℕ → Option ℕ
parse_month_rfc850 a b c =
    let is = equal (a ∷ b ∷ c ∷ []) in
    if is (codes "Jan")
    then some 0
    else if is (codes "Feb")
    then some 1
    else if is (codes "Mar")
    then some 2
    else if is (codes "Apr")
    then some 3
    else if is (codes "May")
    then some 4
    else if is (codes "Jun")
    then some 5
    else if is (codes "Jul")
    then some 6
    else if is (codes "Aug")
    then some 7
    else if is (codes "Sep")
    then some 8
    else if is (codes "Oct")
    then some 9
    else if is (codes "Nov")
    then some 10
    else if is (codes "Dec")
    then some 11
    else none

unfoldable pub parse_hour : ℕ → ℕ → Option ℕ
parse_hour a b =
    if a == 48
    then (if within 48 57 b then some (b - 48) else none)
    else if within 48 50 a && within 48 57 b
    then (if a == 50 && leb 52 b then none else some ((a - 48) * 10 + (b - 48)))
    else none

-- the minute or the second
unfoldable pub parse_minute : ℕ → ℕ → Option ℕ
parse_minute a b =
    if a == 48
    then (if within 48 57 b then some (b - 48) else none)
    else if within 48 53 a && within 48 57 b
    then some ((a - 48) * 10 + (b - 48))
    else none

unfoldable pub parse_digit : ℕ → Option ℕ
parse_digit c = if within 48 57 c then some (c - 48) else none

unfoldable pub parse_year : ℕ → ℕ → ℕ → ℕ → Option ℕ
parse_year a b c d = do
  thousands ← parse_digit a
  hundreds ← parse_digit b
  tens ← parse_digit c
  units ← parse_digit d
  some (thousands * 1000 + hundreds * 100 + tens * 10 + units)

-- the year of two digits, from 1970 to 2069
unfoldable pub parse_short_year : ℕ → ℕ → Option ℕ
parse_short_year a b = do
  tens ← parse_digit a
  units ← parse_digit b
  let year = tens * 10 + units
  some (year + (if leb 70 year then 1900 else 2000))
