-- ===== src/Date/Tests.antt =====
-- The theorems on dates at concrete inputs; the local time of a second is left as the second.
use libpotato.Base.{◌≡◌, ◌⊎◌, ok}
use libpotato.Base.Int.{ℤ, pos}
use libpotato.Date.{Date, get_year_days}
use libpotato.Date.Calendar.{IsLeap, days_of_months, days_of_months-get_year_days}

abbrev itself : ℤ → ℤ
itself s = s

-- An hour after the start of 1970.
abbrev early : Date ℤ
early = record { seconds = pos 3600; tm = pos 3600 }

days_of_months-get_year_days_example :
    (IsLeap (pos 1900) × (get_year_days (pos 1900) ≡ 366) × (days_of_months (pos 1900) 12 ≡ ok 366))
    ⊎ ((¬ IsLeap (pos 1900))
        × (get_year_days (pos 1900) ≡ 365)
        × (days_of_months (pos 1900) 12 ≡ ok 365))
days_of_months-get_year_days_example = days_of_months-get_year_days (pos 1900)
