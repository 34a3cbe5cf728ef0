-- ===== src/Retention/Calendar.antt =====
-- The bucket names of control/retention/retention.go, with the part of Go's calendar that they use.
-- A time is its nanoseconds since Go's zero time, 1 January of the year 1 in UTC, a Monday.
use hostit.Common.{
  ℕ, ◌+◌, ◌-◌, ◌*◌, ◌/◌, ◌%◌, String, List, [], ◌∷◌, Bool, ltb, leb, ◌==◌, if◌then◌else◌, ◌&&◌,
  ◌||◌, not, ◌≡◌, refl,
}
use hostit.Common.Decimal.{digit}
use Prim.Native.String.{◌++◌ as str_append}

abbrev day_ns : ℕ
day_ns = 86400000000000

-- The year of a day and its number in that year, from 0: cycles of 400, 100, 4 and 1 years.
year_day : ℕ → ℕ × ℕ
year_day d =
    let n400 = d / 146097 in
    let d1 = d % 146097 in
    let n100 = if leb 4 (d1 / 36524) then 3 else d1 / 36524 in
    let d2 = d1 - 36524 * n100 in
    let n4 = d2 / 1461 in
    let d3 = d2 % 1461 in
    let n = if leb 4 (d3 / 365) then 3 else d3 / 365 in
    (400 * n400 + 100 * n100 + 4 * n4 + n + 1, d3 - 365 * n)

is_leap : ℕ → Bool
is_leap y = (y % 4 == 0) && (not (y % 100 == 0) || (y % 400 == 0))

month_lengths : Bool → List ℕ
month_lengths leap =
    31 ∷ (if leap then 29 else 28) ∷ 31 ∷ 30 ∷ 31 ∷ 30 ∷ 31 ∷ 31 ∷ 30 ∷ 31 ∷ 30 ∷ 31 ∷ []

-- The month and the day of the month, both from 1.
month_day : List ℕ → ℕ → ℕ → ℕ × ℕ
month_day [] m d = (m, d + 1)
month_day (n ∷ ns) m d =
    let later = month_day ns (m + 1) (d - n) in if ltb d n then (m, d + 1) else later

-- A number as two digits, and a year up to 9999 as four.
two_digits : ℕ → String
unfolding digit
two_digits n = str_append (digit (n / 10 % 10)) (digit (n % 10))

four_digits : ℕ → String
four_digits n = str_append (two_digits (n / 100)) (two_digits (n % 100))

infixl 65 ◌&◌
abbrev ◌&◌ : String → String → String
a & b = str_append a b

-- `Format("2006-01-02")`
unfoldable pub day_bucket : ℕ → String
unfolding year_day is_leap month_lengths month_day two_digits four_digits
day_bucket t =
    let (y, yd) = year_day (t / day_ns) in
    let (m, d) = month_day (month_lengths (is_leap y)) 1 yd in
    four_digits y & "-" & two_digits m & "-" & two_digits d

-- `ISOWeek`: weeks begin on Monday, and belong to the year of their Thursday.
unfoldable pub week_bucket : ℕ → String
unfolding year_day two_digits four_digits
week_bucket t =
    let (y, yd) = year_day (t / day_ns / 7 * 7 + 3) in
    four_digits y & "-W" & two_digits (yd / 7 + 1)

-- `Format("2006-01")`
unfoldable pub month_bucket : ℕ → String
unfolding year_day is_leap month_lengths month_day two_digits four_digits
month_bucket t =
    let (y, yd) = year_day (t / day_ns) in
    let (m, d) = month_day (month_lengths (is_leap y)) 1 yd in four_digits y & "-" & two_digits m

-- 26 November 2026, 06:00, and 1 January 2027, which is still in the last week of 2026.
abbrev nov_26 : ℕ
nov_26 = (62135596800 + 1795672800) * 1000000000

abbrev jan_1 : ℕ
jan_1 = (62135596800 + 1798761600) * 1000000000

nov_26_day : day_bucket nov_26 ≡ "2026-11-26"
unfolding day_bucket
nov_26_day = refl

jan_1_buckets :
    (day_bucket jan_1 ≡ "2027-01-01")
    × (week_bucket jan_1 ≡ "2026-W53")
    × (month_bucket jan_1 ≡ "2027-01")
unfolding day_bucket week_bucket month_bucket
jan_1_buckets = (refl, refl, refl)
