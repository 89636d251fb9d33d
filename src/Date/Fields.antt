-- ===== src/Date/Fields.antt =====
-- The fields of a date, and the dates made of fields: `mktime` is a parameter, for what it gives of a
-- broken-down time, its second and the time with its fields put in range.
use libpotato.Base.{ℕ, ◌+◌, ◌≡◌, ap, ◌∙◌, Bool, if◌then◌else◌, ◌==◌, arith}
use libpotato.Base.Int.{ℤ, pos, negsuc, pos_part, neg_part, ◌+ℤ◌, ◌-ℤ◌}
use libpotato.Timestamp.{Timestamp, to_seconds}
use libpotato.Date.{Date, date_of, get_year_days}

-- `struct tm`.
pub record Tm : Type 0 where
  pub tm_sec : ℤ
  pub tm_min : ℤ
  pub tm_hour : ℤ
  pub tm_mday : ℤ
  pub tm_mon : ℤ
  pub tm_year : ℤ
  pub tm_wday : ℤ
  pub tm_yday : ℤ
  pub tm_isdst : ℤ

unfoldable pub year : Date Tm → ℤ
year d = d.tm.tm_year +ℤ pos 1900

unfoldable pub month : Date Tm → ℤ
month d = d.tm.tm_mon +ℤ pos 1

abbrev pub day : Date Tm → ℤ
day d = d.tm.tm_mday

abbrev pub hour : Date Tm → ℤ
hour d = d.tm.tm_hour

abbrev pub minute : Date Tm → ℤ
minute d = d.tm.tm_min

abbrev pub second : Date Tm → ℤ
second d = d.tm.tm_sec

abbrev is_zero : ℤ → Bool
is_zero z = pos_part z + neg_part z == 0

unfoldable pub weekday : Date Tm → ℤ
weekday d = if is_zero d.tm.tm_wday then pos 7 else d.tm.tm_wday

unfoldable pub day_in_year : Date Tm → ℤ
day_in_year d = d.tm.tm_yday +ℤ pos 1

unfoldable pub days_in_year : Date Tm → ℕ
unfolding year get_year_days
days_in_year d = get_year_days (year d)

module _ (mktime : Tm → ℤ × Tm) where
  -- `Date(year, month, day, hour, minute, second)`. The fields that it does not set are 0.
  unfoldable pub of_fields : (year month day hour minute second : ℤ) → Date Tm
  of_fields year month day hour minute second =
      let made = mktime (record {
        tm_sec = second;
        tm_min = minute;
        tm_hour = hour;
        tm_mday = day;
        tm_mon = month -ℤ pos 1;
        tm_year = year -ℤ pos 1900;
        tm_wday = pos 0;
        tm_yday = pos 0;
        tm_isdst = pos 0;
      }) in
      record { seconds = made.0; tm = made.1 }

  unfoldable pub add_months : Date Tm → ℤ → Date Tm
  unfolding of_fields year month
  add_months d n = of_fields (year d) (month d +ℤ n) (day d) (hour d) (minute d) (second d)

  unfoldable pub add_years : Date Tm → ℤ → Date Tm
  unfolding of_fields year month
  add_years d n = of_fields (year d +ℤ n) (month d) (day d) (hour d) (minute d) (second d)

there_and_back : (z : ℤ) (n : ℕ) → (z +ℤ pos n) -ℤ pos n ≡ z
unfolding ◌+ℤ◌ ◌-ℤ◌
there_and_back (pos m) n = ground arith
there_and_back (negsuc m) n = ground arith

plus_zero : (z : ℤ) → z +ℤ pos 0 ≡ z
unfolding ◌+ℤ◌
plus_zero (pos m) = ground arith
plus_zero (negsuc m) = ground arith

-- The fields that `mktime` reads where no daylight saving time is in force.
abbrev pub bare : Tm → Tm
bare t = record t { tm_wday = pos 0; tm_yday = pos 0; tm_isdst = pos 0 }

module _ (mktime : Tm → ℤ × Tm) (local_time : ℤ → Tm)
    (inverse : (s : ℤ) → mktime (bare (local_time s)) ≡ (s, local_time s)) where
  -- The date made of the fields of a second, with a month and a year that come out as its own.
  made :
      (s m y : ℤ)
      → m -ℤ pos 1 ≡ (local_time s).tm_mon
      → y -ℤ pos 1900 ≡ (local_time s).tm_year
      → (let t = local_time s in
          of_fields mktime y m t.tm_mday t.tm_hour t.tm_min t.tm_sec
          ≡ record { seconds = s; tm = t })
  unfolding of_fields
  made s m y hm hy =
      ap
        (λ t. dated (mktime (record (bare (local_time s)) { tm_mon = t; tm_year = y -ℤ pos 1900 })))
        hm
      ∙ ap (λ t. dated (mktime (record (bare (local_time s)) { tm_year = t }))) hy
      ∙ ap dated (inverse s)
    where
      dated : ℤ × Tm → Date Tm
      dated r = record { seconds = r.0; tm = r.1 }

  -- In a zone without daylight saving time, where `mktime` takes the fields that `localtime_r` gives
  -- of a second back to it: the date that is made of a date's fields is that date, and so is a date
  -- moved by no month or by no year.
  of_fields-date_of :
      (t : Timestamp)
      → (let d = date_of local_time t in
          (of_fields mktime (year d) (month d) (day d) (hour d) (minute d) (second d) ≡ d)
          × (add_months mktime d (pos 0) ≡ d)
          × (add_years mktime d (pos 0) ≡ d))
  unfolding add_months add_years year month date_of
  of_fields-date_of t =
      let s = to_seconds t in
      let mon = (local_time s).tm_mon in
      let yr = (local_time s).tm_year in
      (
        made s (mon +ℤ pos 1) (yr +ℤ pos 1900) (there_and_back mon 1) (there_and_back yr 1900),
        made s ((mon +ℤ pos 1) +ℤ pos 0) (yr +ℤ pos 1900)
            (ap (λ z. z -ℤ pos 1) (plus_zero (mon +ℤ pos 1)) ∙ there_and_back mon 1)
            (there_and_back yr 1900),
        made s (mon +ℤ pos 1) ((yr +ℤ pos 1900) +ℤ pos 0) (there_and_back mon 1)
            (ap (λ z. z -ℤ pos 1900) (plus_zero (yr +ℤ pos 1900)) ∙ there_and_back yr 1900),
      )
