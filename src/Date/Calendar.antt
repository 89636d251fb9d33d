-- ===== src/Date/Calendar.antt =====
-- The lengths of years and months.
use libpotato.Base.{
  ℕ, zero, suc, ◌+◌, ◌%◌, ◌≡◌, ◌≢◌, ◌⊎◌, true, false, refl, inl, inr, Result, ok, ◌>>=◌, Bool-cases,
  arith,
}
use libpotato.Base.Int.{ℤ}
use libpotato.Date.{abs, is_leap_year, get_year_days, get_days_in_month}

-- The lengths of the first `n` months together.
abbrev pub days_of_months : ℤ → ℕ → Result ℕ
days_of_months year zero = ok 0
days_of_months year (suc n) = do
  before ← days_of_months year n
  days ← get_days_in_month year (suc n)
  ok (before + days)

-- The rule of the Gregorian calendar.
abbrev pub IsLeap : ℤ → Type 0
IsLeap year = (abs year % 400 ≡ 0) ⊎ ((abs year % 4 ≡ 0) × (abs year % 100 ≢ 0))

is_leap_year-IsLeap : (year : ℤ) → is_leap_year year ≡ true → IsLeap year
unfolding is_leap_year
is_leap_year-IsLeap year h = ground arith

is_leap_year-common : (year : ℤ) → is_leap_year year ≡ false → ¬ IsLeap year
unfolding is_leap_year
is_leap_year-common year h = ground arith

-- A year that the Gregorian rule makes a leap year has 366 days, and every other year 365: so says
-- `getYearDays`, and the twelve months of the year have as many days together.
pub days_of_months-get_year_days :
    (year : ℤ)
    → (IsLeap year × (get_year_days year ≡ 366) × (days_of_months year 12 ≡ ok 366))
      ⊎ ((¬ IsLeap year) × (get_year_days year ≡ 365) × (days_of_months year 12 ≡ ok 365))
unfolding get_days_in_month get_year_days
days_of_months-get_year_days year = elim (Bool-cases (is_leap_year year)) [
  | inl leap ↦ inl (is_leap_year-IsLeap year leap, rw leap refl, rw leap refl)
  | inr common ↦ inr (is_leap_year-common year common, rw common refl, rw common refl)
]
