-- ===== src/Date/Shift.antt =====
-- Dates that are moved, compared and subtracted.
use libpotato.Base.{◌*◌, ◌≡◌, ap, ◌∙◌, arith}
use libpotato.Base.Int.{ℤ, pos, negsuc, ltb_ℤ, ◌+ℤ◌, ◌-ℤ◌, ◌*ℤ◌, div_ℤ}
use libpotato.Timestamp.{
  Timestamp, to_seconds, parse_from_seconds, add_hour, add_minutes, add_seconds, add_day, earlier,
}
use libpotato.Date.{
  abs, Date, date_of, date_of_seconds, current_date, to_timestamp, add_hours, add_date_minutes,
  add_date_seconds, add_days, day_distance, date_before,
}

-- A second survives the way to a timestamp and back.
pub to_seconds-parse_from_seconds : (s : ℤ) → to_seconds (parse_from_seconds s) ≡ s
unfolding to_seconds parse_from_seconds ◌*ℤ◌ div_ℤ
to_seconds-parse_from_seconds (pos n) = ground arith
to_seconds-parse_from_seconds (negsuc n) = ground arith

-- A date made of the current second is the one made of the clock.
date_of_seconds-current_date :
    {Tm : Type 0} (local_time : ℤ → Tm) (s : ℤ)
    → date_of_seconds local_time s ≡ current_date local_time s
unfolding date_of_seconds current_date date_of
date_of_seconds-current_date local_time s =
    ap (λ t. record { seconds = t; tm = local_time t }) (to_seconds-parse_from_seconds s)

-- A count of seconds, in microseconds.
abbrev micro : ℤ → ℤ
micro s = s *ℤ pos 1000000

micro-add : (a b : ℤ) → micro a +ℤ micro b ≡ micro (a +ℤ b)
unfolding ◌*ℤ◌ ◌+ℤ◌
micro-add (pos a) (pos b) = ground arith
micro-add (pos a) (negsuc b) = ground arith
micro-add (negsuc a) (pos b) = ground arith
micro-add (negsuc a) (negsuc b) = ground arith

micro_minutes : (n : ℤ) → n *ℤ pos 1000000 *ℤ pos 60 ≡ micro (n *ℤ pos 60)
unfolding ◌*ℤ◌
micro_minutes (pos n) = ground arith
micro_minutes (negsuc n) = ground arith

micro_hours : (n : ℤ) → n *ℤ pos 1000000 *ℤ pos 60 *ℤ pos 60 ≡ micro (n *ℤ pos 3600)
unfolding ◌*ℤ◌
micro_hours (pos n) = ground arith
micro_hours (negsuc n) = ground arith

micro_days : (n : ℤ) → n *ℤ pos 1000000 *ℤ pos 60 *ℤ pos 60 *ℤ pos 24 ≡ micro (n *ℤ pos 86400)
unfolding ◌*ℤ◌
micro_days (pos n) = ground arith
micro_days (negsuc n) = ground arith

to_seconds-micro : (s : ℤ) (t : Timestamp) → t.timestamp ≡ micro s → to_seconds t ≡ s
unfolding parse_from_seconds
to_seconds-micro s t e =
    ap (λ m. to_seconds (record { timestamp = m })) e ∙ to_seconds-parse_from_seconds s

abs-of_difference : (a b : ℤ) → abs ((a +ℤ b) -ℤ a) ≡ abs b
unfolding ◌+ℤ◌ ◌-ℤ◌
abs-of_difference (pos a) (pos b) = ground arith
abs-of_difference (pos a) (negsuc b) = ground arith
abs-of_difference (negsuc a) (pos b) = ground arith
abs-of_difference (negsuc a) (negsuc b) = ground arith

abs-days : (n : ℤ) → abs (n *ℤ pos 86400) ≡ abs n * 86400
unfolding ◌*ℤ◌
abs-days (pos n) = ground arith
abs-days (negsuc n) = ground arith

ltb-micro : (a b : ℤ) → ltb_ℤ (micro a) (micro b) ≡ ltb_ℤ a b
unfolding ◌*ℤ◌
ltb-micro (pos a) (pos b) = ground arith
ltb-micro (pos a) (negsuc b) = ground arith
ltb-micro (negsuc a) (pos b) = ground arith
ltb-micro (negsuc a) (negsuc b) = ground arith

module _ {Tm : Type 0} (local_time : ℤ → Tm) (d : Date Tm) where
  -- A date that is moved by hours, minutes, seconds or days, forwards or backwards, is the date of the
  -- second so many later, also before 1970.
  pub add_hours-seconds :
      (n : ℤ)
      → ((add_hours local_time d n).seconds ≡ d.seconds +ℤ n *ℤ pos 3600)
        × ((add_date_minutes local_time d n).seconds ≡ d.seconds +ℤ n *ℤ pos 60)
        × ((add_date_seconds local_time d n).seconds ≡ d.seconds +ℤ n)
        × ((add_days local_time d n).seconds ≡ d.seconds +ℤ n *ℤ pos 86400)
  unfolding add_hours add_date_minutes add_date_seconds add_days date_of to_timestamp
      parse_from_seconds add_hour add_minutes add_seconds add_day
  add_hours-seconds n = (
    to_seconds-micro _ _ (ap (λ t. micro d.seconds +ℤ t) (micro_hours n) ∙ micro-add d.seconds _),
    to_seconds-micro _ _ (ap (λ t. micro d.seconds +ℤ t) (micro_minutes n) ∙ micro-add d.seconds _),
    to_seconds-micro _ _ (micro-add d.seconds n),
    to_seconds-micro _ _ (ap (λ t. micro d.seconds +ℤ t) (micro_days n) ∙ micro-add d.seconds _),
  )

  -- A date that is moved by a number of days is that many days away, in either direction.
  pub day_distance-add_days : (n : ℤ) → day_distance local_time (add_days local_time d n) d ≡ abs n
  unfolding day_distance
  day_distance-add_days n =
      let (h, m, s, days) = add_hours-seconds n in
      let far : abs ((add_days local_time d n).seconds -ℤ d.seconds) ≡ abs n * 86400 =
        ap (λ t. abs (t -ℤ d.seconds)) days
        ∙ abs-of_difference d.seconds (n *ℤ pos 86400)
        ∙ abs-days n in
      omega (arith, far)

  -- The operators compare dates as their seconds compare, also before 1970.
  pub date_before-seconds : (e : Date Tm) → date_before local_time d e ≡ ltb_ℤ d.seconds e.seconds
  unfolding date_before to_timestamp parse_from_seconds earlier
  date_before-seconds e = ltb-micro d.seconds e.seconds
