-- ===== src/Calendar/Bounds.antt =====
-- The year and the month of an instant, against the days before them.
use ledger_sdk.Prelude.{
  ℕ, zero, suc, ◌+◌, ◌-◌, ◌*◌, ◌/◌, ◌≤◌, ◌<◌, ltb, eqb, if◌then◌else◌, ◌≡◌, refl, ap, ◌∙◌, sym, inl,
  inr, Bool-cases, arith, if_true, if_false,
}
use mathlib.Core.Path.{subst}
use ledger_sdk.Calendar.{
  day_start, weekday, day, is_leap, days_in_year, days_in_month, days_before_year,
  days_before_month, find_year, find_month, year_of, month_of, month_start,
}

days_in_year_positive : (y : ℕ) → 0 < days_in_year y
unfolding days_in_year
days_in_year_positive y = elim (Bool-cases (is_leap y)) [
  | inl e ↦ ground (arith, e)
  | inr e ↦ ground (arith, e)
]

-- The year `suc r` holds the day `d`.
abbrev InYear : ℕ → ℕ → Type 0
InYear d r = (days_before_year r ≤ d) × (d < days_before_year (suc r))

find_year-InYear :
    (f k rest : ℕ) → rest < f → InYear (days_before_year k + rest) (find_year f k rest)
unfolding find_year days_before_year
find_year-InYear zero k rest h = absurd (omega arith)
find_year-InYear (suc f) k rest h = elim (Bool-cases (ltb rest (days_in_year (suc k)))) [
  | inl e ↦
      subst (InYear (days_before_year k + rest))
        (sym (if_true (ltb rest (days_in_year (suc k))) _ _ e)) (omega arith, ground (arith, e))
  | inr e ↦
      subst (InYear (days_before_year k + rest))
        (sym (if_false (ltb rest (days_in_year (suc k))) _ _ e))
        (subst (λ d. InYear d (find_year f (suc k) (rest - days_in_year (suc k))))
          (ground (arith, e))
          (find_year-InYear f (suc k) (rest - days_in_year (suc k))
            (ground (arith, e, days_in_year_positive (suc k)))))
]

-- The month `suc r` of the year holds the day `d` of that year.
abbrev InMonth : ℕ → ℕ → ℕ → Type 0
InMonth y d r = (days_before_month y r ≤ d) × (d < days_before_month y (suc r)) × (r ≤ 11)

find_month-InMonth :
    (f y k rest : ℕ)
    → k + f ≡ 11
    → days_before_month y k + rest < days_before_month y 12
    → InMonth y (days_before_month y k + rest) (find_month f y k rest)
unfolding find_month days_before_month
find_month-InMonth zero y k rest h b = (omega arith, last twelve, omega (arith, h))
  where
    twelve : 12 ≡ suc k
    twelve = omega (arith, h)

    last : 12 ≡ suc k → days_before_month y k + rest < days_before_month y (suc k)
    last e = subst (λ n. days_before_month y k + rest < days_before_month y n) e b
find_month-InMonth (suc f) y k rest h b = elim (Bool-cases (ltb rest (days_in_month y (suc k)))) [
  | inl e ↦
      subst (InMonth y (days_before_month y k + rest))
        (sym (if_true (ltb rest (days_in_month y (suc k))) _ _ e))
        (omega arith, ground (arith, e), omega (arith, h))
  | inr e ↦
      subst (InMonth y (days_before_month y k + rest))
        (sym (if_false (ltb rest (days_in_month y (suc k))) _ _ e))
        (subst (λ d. InMonth y d (find_month f y (suc k) (rest - days_in_month y (suc k))))
          (ground (arith, e))
          (find_month-InMonth f y (suc k) (rest - days_in_month y (suc k)) (omega (arith, h))
            (ground (arith, e, b))))
]

-- The twelve months make the year.
year_days : (y : ℕ) → days_before_month y 12 ≡ days_in_year y
unfolding days_before_month days_in_month days_in_year
year_days y = elim (Bool-cases (is_leap y)) [
  | inl e ↦ ground (arith, e)
  | inr e ↦ ground (arith, e)
]

month_start-suc :
    (k r : ℕ)
    → month_start (suc k) (suc r) ≡ (days_before_year k + days_before_month (suc k) r) * day
unfolding month_start
month_start-suc k r =
    ap (λ n. (days_before_year n + days_before_month (suc k) (suc r - 1)) * day) (sub_one k)
    ∙ ap (λ n. (days_before_year k + days_before_month (suc k) n) * day) (sub_one r)
  where
    sub_one : (n : ℕ) → suc n - 1 ≡ n
    sub_one n = omega arith

next_year_start : (k : ℕ) → month_start (suc k + 1) 1 ≡ days_before_year (suc k) * day
unfolding month_start days_before_month
next_year_start k =
    ap (λ n. (days_before_year n + 0) * day) (same k) ∙ plus_zero (days_before_year (suc k))
  where
    same : (k : ℕ) → suc k + 1 - 1 ≡ suc k
    same k = omega arith

    plus_zero : (n : ℕ) → (n + 0) * day ≡ n * day
    plus_zero n = omega arith

next_month_start :
    (k r : ℕ)
    → month_start (suc k) (suc r + 1)
      ≡ (days_before_year k + days_before_month (suc k) (suc r)) * day
next_month_start k r = ap (month_start (suc k)) (plus_one r) ∙ month_start-suc k (suc r)
  where
    plus_one : (r : ℕ) → suc r + 1 ≡ suc (suc r)
    plus_one r = omega arith

abbrev pub month_end : ℕ → ℕ → ℕ
month_end y m = if eqb m 12 then month_start (y + 1) 1 else month_start y (m + 1)

month_window :
    (t k r : ℕ)
    → InYear (t / day) k
    → InMonth (suc k) (t / day - days_before_year k) r
    → (month_start (suc k) (suc r) ≤ t) × (t < month_end (suc k) (suc r))
month_window t k r (a, b) (c, d, e) = (
  omega (arith, month_start-suc k r, a, c),
  elim (Bool-cases (eqb (suc r) 12)) [
    | inl q ↦
        subst (λ n. t < n) (sym (if_true (eqb (suc r) 12) _ _ q ∙ next_year_start k))
          (omega (arith, b))
    | inr q ↦
        subst (λ n. t < n) (sym (if_false (eqb (suc r) 12) _ _ q ∙ next_month_start k r))
          (omega (arith, a, d))
  ],
)

year_lem : (t : ℕ) → InYear (t / day) (find_year (suc (t / day)) 0 (t / day))
unfolding days_before_year
year_lem t =
    subst (λ d. InYear d (find_year (suc (t / day)) 0 (t / day))) (omega arith)
      (find_year-InYear (suc (t / day)) 0 (t / day) (omega arith))

year_step : (k : ℕ) → days_before_year (suc k) ≡ days_before_year k + days_in_year (suc k)
unfolding days_before_year
year_step k = refl

no_months : (y : ℕ) → days_before_month y 0 ≡ 0
unfolding days_before_month
no_months y = refl

month_of_rest :
    (y rest : ℕ) → rest < days_before_month y 12 → InMonth y rest (find_month 11 y 0 rest)
month_of_rest y rest h =
    subst (λ d. InMonth y d (find_month 11 y 0 rest)) (omega (arith, no_months y))
      (find_month-InMonth 11 y 0 rest (omega arith) (omega (arith, no_months y, h)))

month_lem :
    (t k : ℕ)
    → InYear (t / day) k
    → InMonth
        (suc k)
        (t / day - days_before_year k)
        (find_month 11 (suc k) 0 (t / day - days_before_year (suc k - 1)))
month_lem t k (a, b) =
    subst
      (λ n.
        InMonth (suc k) (t / day - days_before_year k)
          (find_month 11 (suc k) 0 (t / day - days_before_year n)))
      (omega arith)
      (month_of_rest (suc k) (t / day - days_before_year k)
        (omega (arith, a, b, year_days (suc k), year_step k)))

-- An instant lies in the month that `year_of` and `month_of` give it, and before the start of the
-- next month.
pub month-holds :
    (t : ℕ) → (month_start (year_of t) (month_of t) ≤ t) × (t < month_end (year_of t) (month_of t))
unfolding year_of month_of
month-holds t = month_window t _ _ (year_lem t) (month_lem t _ (year_lem t))

pub day-holds : (t : ℕ) → (day_start t ≤ t) × (t < day_start t + day)
unfolding day_start
day-holds t = omega arith

pub week-holds :
    (t : ℕ) → (day_start t - weekday t * day ≤ t) × (t < day_start t - weekday t * day + 7 * day)
unfolding day_start weekday
week-holds t = omega arith
