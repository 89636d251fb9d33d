-- ===== src/Date.antt =====
-- potato/time/Date.h and Date.cpp: a date is its second and the broken-down local time of it.
-- `localtime_r` is a parameter, for what it gives of a second.
pub mod Calendar
pub mod Shift
pub mod Fields
mod Tests
use libpotato.Base.{
  ℕ, ◌+◌, ◌-◌, ◌/◌, ◌%◌, Bool, not, ◌&&◌, ◌||◌, Option, none, some, List, [], ◌∷◌, Result, ok, err,
  assertion, out_of_range, guard, ◌>>=◌, ◌>>◌, if◌then◌else◌, leb, ◌==◌, get_elem?,
}
use libpotato.Base.Int.{ℤ, pos_part, neg_part, ◌-ℤ◌}
use libpotato.Timestamp.{
  Timestamp, to_seconds, parse_from_seconds, add_hour, add_minutes, add_seconds, add_day, same_time,
  earlier,
}

abbrev pub abs : ℤ → ℕ
abs z = pos_part z + neg_part z

-- The test `year % n == 0`: a remainder is 0 for a number and its negative alike.
abbrev pub is_multiple : ℤ → ℕ → Bool
is_multiple year n = abs year % n == 0

unfoldable pub is_leap_year : ℤ → Bool
is_leap_year year = (is_multiple year 4 && not (is_multiple year 100)) || is_multiple year 400

unfoldable pub get_year_days : ℤ → ℕ
unfolding is_leap_year
get_year_days year = if is_leap_year year then 366 else 365

abbrev pub days_in_month : List ℕ
days_in_month = 31 ∷ 28 ∷ 31 ∷ 30 ∷ 31 ∷ 30 ∷ 31 ∷ 31 ∷ 30 ∷ 31 ∷ 30 ∷ 31 ∷ []

unfoldable pub get_days_in_month : ℤ → ℕ → Result ℕ
unfolding is_leap_year
get_days_in_month year month = do
  guard (leb 1 month && leb month 12) assertion
  if (month == 2) && is_leap_year year
      then ok 29
      else (elim (get_elem? days_in_month (month - 1)) [ none ↦ err out_of_range | some n ↦ ok n ])

-- `tm_` is of a type `Tm` that the system gives.
pub record Date (Tm : Type 0) : Type 0 where
  pub seconds : ℤ
  pub tm : Tm

module _ {Tm : Type 0} (local_time : ℤ → Tm) where
  unfoldable pub date_of : Timestamp → Date Tm
  date_of t = let s = to_seconds t in record { seconds = s; tm = local_time s }

  -- `Date(seconds)`, and `Date()` with what `time` gives.
  unfoldable pub date_of_seconds : ℤ → Date Tm
  date_of_seconds s = date_of (parse_from_seconds s)

  unfoldable pub current_date : ℤ → Date Tm
  current_date s = record { seconds = s; tm = local_time s }

  unfoldable pub to_timestamp : Date Tm → Timestamp
  to_timestamp d = parse_from_seconds d.seconds

  unfoldable pub add_hours : Date Tm → ℤ → Date Tm
  add_hours d n = date_of (add_hour (to_timestamp d) n)

  unfoldable pub add_date_minutes : Date Tm → ℤ → Date Tm
  add_date_minutes d n = date_of (add_minutes (to_timestamp d) n)

  unfoldable pub add_date_seconds : Date Tm → ℤ → Date Tm
  add_date_seconds d n = date_of (add_seconds (to_timestamp d) n)

  unfoldable pub add_days : Date Tm → ℤ → Date Tm
  add_days d n = date_of (add_day (to_timestamp d) n)

  unfoldable pub day_distance : Date Tm → Date Tm → ℕ
  day_distance a b = abs (a.seconds -ℤ b.seconds) / 86400

  -- The operators `==` and `<`.
  unfoldable pub same_date : Date Tm → Date Tm → Bool
  same_date a b = same_time (to_timestamp a) (to_timestamp b)

  unfoldable pub date_before : Date Tm → Date Tm → Bool
  date_before a b = earlier (to_timestamp a) (to_timestamp b)

  -- The operators that are made of them.
  unfoldable pub other_date : Date Tm → Date Tm → Bool
  unfolding same_date
  other_date a b = not (same_date a b)

  unfoldable pub date_after : Date Tm → Date Tm → Bool
  unfolding date_before
  date_after a b = date_before b a

  unfoldable pub date_not_after : Date Tm → Date Tm → Bool
  unfolding date_after
  date_not_after a b = not (date_after a b)

  unfoldable pub date_not_before : Date Tm → Date Tm → Bool
  unfolding date_before
  date_not_before a b = not (date_before a b)
