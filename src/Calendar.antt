-- ===== src/Calendar.antt =====
-- The proleptic Gregorian calendar of Python's `datetime`, as far as the period windows of
-- apps/runtime/citadel/commercial/cost_controls.py use it. An instant is the number of microseconds
-- since 0001-01-01 00:00 UTC, a Monday.
pub mod Bounds
use ledger_sdk.Prelude.{
  ℕ, zero, suc, ◌+◌, ◌-◌, ◌*◌, ◌/◌, ◌%◌, Bool, ◌&&◌, ◌||◌, not, ltb, eqb, if◌then◌else◌, ◌≡◌, refl,
}

abbrev pub day : ℕ
day = 86_400_000_000

unfoldable pub is_leap : ℕ → Bool
is_leap y = eqb (y % 4) 0 && (not (eqb (y % 100) 0) || eqb (y % 400) 0)

unfoldable pub days_in_year : ℕ → ℕ
unfolding is_leap
days_in_year y = if is_leap y then 366 else 365

unfoldable pub days_in_month : ℕ → ℕ → ℕ
unfolding is_leap
days_in_month y m =
    if eqb m 2
    then (if is_leap y then 29 else 28)
    else if eqb m 4 || eqb m 6 || eqb m 9 || eqb m 11
    then 30
    else 31

-- The days before the first of January of the year `suc k`.
unfoldable pub days_before_year : ℕ → ℕ
unfolding days_in_year
days_before_year zero = 0
days_before_year (suc k) = days_before_year k + days_in_year (suc k)

-- The days of the year `y` before the first of the month `suc k`.
unfoldable pub days_before_month : ℕ → ℕ → ℕ
unfolding days_in_month
days_before_month y zero = 0
days_before_month y (suc k) = days_before_month y k + days_in_month y (suc k)

-- The first day of a month, at midnight; years and months count from 1.
unfoldable pub month_start : ℕ → ℕ → ℕ
unfolding days_before_year days_before_month
month_start y m = (days_before_year (y - 1) + days_before_month y (m - 1)) * day

-- The year (as `suc k`) of a day, on fuel above the number of years left.
find_year : ℕ → ℕ → ℕ → ℕ
find_year zero k rest = k
find_year (suc f) k rest =
    let next = find_year f (suc k) (rest - days_in_year (suc k)) in
    if ltb rest (days_in_year (suc k)) then k else next

find_month : ℕ → ℕ → ℕ → ℕ → ℕ
find_month zero y k rest = k
find_month (suc f) y k rest =
    let next = find_month f y (suc k) (rest - days_in_month y (suc k)) in
    if ltb rest (days_in_month y (suc k)) then k else next

unfoldable pub year_of : ℕ → ℕ
unfolding find_year
year_of t = let d = t / day in suc (find_year (suc d) 0 d)

unfoldable pub month_of : ℕ → ℕ
unfolding find_month year_of days_before_year
month_of t = let y = year_of t in suc (find_month 11 y 0 (t / day - days_before_year (y - 1)))

-- `datetime.weekday`: 0 is Monday.
unfoldable pub weekday : ℕ → ℕ
weekday t = (t / day) % 7

unfoldable pub day_start : ℕ → ℕ
day_start t = (t / day) * day

-- 2026-11-26 was a Thursday.
calendar_test :
    (year_of (739_945 * day) ≡ 2026)
    × (month_of (739_945 * day) ≡ 11)
    × (weekday (739_945 * day) ≡ 3)
unfolding year_of month_of weekday days_in_year days_in_month
calendar_test = (refl, refl, refl)
