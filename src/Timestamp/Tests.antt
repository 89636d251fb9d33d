-- ===== src/Timestamp/Tests.antt =====
-- Times before and after 1970.
use libpotato.Base.{
  ℕ, zero, suc, ◌+◌, ◌-◌, ◌/◌, ◌%◌, ◌≡◌, refl, true, false, List, [], ◌∷◌, ◌++◌, ok, length, arith,
}
use libpotato.Base.Int.{ℤ, pos, negsuc, ◌+ℤ◌}
use libpotato.Timestamp.{earlier, same_time, Timestamp, to_seconds}
use libpotato.Date.{date_of}
use libpotato.Date.Fields.{Tm}
use libpotato.Timestamp.Text.{
  now, time_text, to_string, date_to_string, Sized, Sized-snoc, IsPadding, IsCalendar,
  to_string-now, to_string-date_to_string,
}

abbrev before_epoch : Timestamp
before_epoch = record { timestamp = negsuc 9 }

abbrev after_epoch : Timestamp
after_epoch = record { timestamp = pos 9 }

in_order : earlier before_epoch after_epoch ≡ true
unfolding earlier
in_order = refl

not_equal : same_time before_epoch after_epoch ≡ false
unfolding same_time
not_equal = refl

-- A formatting function that prints `w` digits.
abbrev digits : ℕ → ℕ → List ℕ
digits zero n = []
digits (suc w) n = digits w (n / 10) ++ ((48 + n % 10) ∷ [])

abbrev padded : ℕ → ℤ → List ℕ
padded w (pos n) = digits w n
padded w (negsuc n) = 45 ∷ digits (w - 1) (suc n)

digits-Sized : (w n : ℕ) → Sized w (digits w n)
digits-Sized zero n = (refl, tt)
digits-Sized (suc w) n =
    Sized-snoc w (48 + n % 10) (digits w (n / 10)) (digits-Sized w (n / 10)) (omega arith)

padded-IsPadding : IsPadding padded
padded-IsPadding w n p h = digits-Sized w n

-- The first second of 2000, whatever the second.
abbrev millennium : ℤ → Tm
millennium s = record {
  tm_sec = pos 0;
  tm_min = pos 0;
  tm_hour = pos 0;
  tm_mday = pos 1;
  tm_mon = pos 0;
  tm_year = pos 100;
  tm_wday = pos 6;
  tm_yday = pos 0;
  tm_isdst = pos 0;
}

millennium-IsCalendar : (s : ℤ) → IsCalendar (millennium s)
unfolding ◌+ℤ◌
millennium-IsCalendar s = record {
  year = 2000;
  month = 1;
  day = 1;
  hour = 0;
  minute = 0;
  second = 0;
  year_is = refl;
  month_is = refl;
  day_is = refl;
  hour_is = refl;
  minute_is = refl;
  second_is = refl;
  year_small = omega arith;
  month_small = omega arith;
  day_small = omega arith;
  hour_small = omega arith;
  minute_small = omega arith;
  second_small = omega arith;
}

to_string-now_example :
    (to_string padded millennium true (now (pos 946684800) (pos 123456))
      ≡ ok (time_text padded true (millennium (pos 946684800)) (pos 123)))
    × (length (time_text padded true (millennium (pos 946684800)) (pos 123)) ≡ 23)
to_string-now_example =
    to_string-now padded padded-IsPadding millennium 946684800 123456 true (omega arith)
      (millennium-IsCalendar (pos 946684800))

to_string-date_to_string_example :
    to_string padded millennium false after_epoch
    ≡ ok (date_to_string padded (date_of millennium after_epoch))
to_string-date_to_string_example =
    to_string-date_to_string padded padded-IsPadding millennium after_epoch
      (millennium-IsCalendar (to_seconds after_epoch))
