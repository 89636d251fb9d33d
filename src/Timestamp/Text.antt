-- ===== src/Timestamp/Text.antt =====
-- potato/time/Timestamp.cpp: the clock and the text of a time; and the text of a date
-- (potato/time/Date.cpp). A text is its bytes. The formatting library is a parameter, for what
-- `{:0w}` makes of an integer, and so is `localtime_r`.
use libpotato.Base.{
  ℕ, suc, ◌+◌, ◌-◌, ◌*◌, ◌/◌, ◌%◌, ◌^◌, ◌≤◌, ◌<◌, ◌≡◌, refl, sym, ap, ◌∙◌, subst, Bool, true, false,
  List, [], ◌∷◌, ◌++◌, Result, ok, err, out_of_range, ◌>>=◌, if◌then◌else◌, ◌==◌, length, take,
  replicate, length-append, take_all, arith,
}
use libpotato.Base.Int.{ℤ, pos, ◌+ℤ◌, ◌-ℤ◌, ◌*ℤ◌, div_ℤ}
use libpotato.Timestamp.{Timestamp, to_seconds}
use libpotato.Date.{Date, date_of}
use libpotato.Date.Fields.{Tm}

-- `now()`, with what `gettimeofday` gives.
unfoldable pub now : ℤ → ℤ → Timestamp
now tv_sec tv_usec = record { timestamp = tv_sec *ℤ pos 1000000 +ℤ tv_usec }

unfoldable pub milli_seconds : Timestamp → ℤ
milli_seconds t = div_ℤ (t.timestamp -ℤ to_seconds t *ℤ pos 1000000) 1000

-- A string made of a `char` array: its bytes before the first 0. An array without one is read past
-- its end.
unfoldable pub c_string : List ℕ → Result (List ℕ)
c_string [] = err out_of_range
c_string (b ∷ bs) = let rest = c_string bs in if b == 0 then ok [] else (do s ← rest; ok (b ∷ s))

-- A part of a format string: a byte of its own, or `{:0w}` with its argument.
pub data Part : Type 0 where
  byte : ℕ → Part
  field : ℕ → ℤ → Part

module _ (fmt : ℕ → ℤ → List ℕ) where
  abbrev pub format : List Part → List ℕ
  format [] = []
  format (byte c ∷ ps) = c ∷ format ps
  format (field w z ∷ ps) = fmt w z ++ format ps

  -- A format string and its arguments. Hyphens, a space and colons stand between the fields.
  unfoldable pub time_text : Bool → Tm → ℤ → List ℕ
  time_text with_milli_seconds tm ms =
      if with_milli_seconds
      then format (
          field 4 (tm.tm_year +ℤ pos 1900)
          ∷ byte 45
          ∷ field 2 (tm.tm_mon +ℤ pos 1)
          ∷ byte 45
          ∷ field 2 tm.tm_mday
          ∷ byte 32
          ∷ field 2 tm.tm_hour
          ∷ byte 58
          ∷ field 2 tm.tm_min
          ∷ byte 58
          ∷ field 2 tm.tm_sec
          ∷ byte 58
          ∷ field 3 ms
          ∷ [])
      else format (
          field 4 (tm.tm_year +ℤ pos 1900)
          ∷ byte 45
          ∷ field 2 (tm.tm_mon +ℤ pos 1)
          ∷ byte 45
          ∷ field 2 tm.tm_mday
          ∷ byte 32
          ∷ field 2 tm.tm_hour
          ∷ byte 58
          ∷ field 2 tm.tm_min
          ∷ byte 58
          ∷ field 2 tm.tm_sec
          ∷ [])

  -- `Date::toString`, which has a format string of its own.
  unfoldable pub date_to_string : Date Tm → List ℕ
  date_to_string d = format (
      field 4 (d.tm.tm_year +ℤ pos 1900)
      ∷ byte 45
      ∷ field 2 (d.tm.tm_mon +ℤ pos 1)
      ∷ byte 45
      ∷ field 2 d.tm.tm_mday
      ∷ byte 32
      ∷ field 2 d.tm.tm_hour
      ∷ byte 58
      ∷ field 2 d.tm.tm_min
      ∷ byte 58
      ∷ field 2 d.tm.tm_sec
      ∷ [])

  module _ (local_time : ℤ → Tm) where
    -- `formatTo`: the bytes that are put at `buf`, and the size that is returned, that of the text.
    unfoldable pub format_to : (size : ℕ) → Bool → Timestamp → List ℕ × ℕ
    format_to size with_milli_seconds t =
        let text = time_text with_milli_seconds (local_time (to_seconds t)) (milli_seconds t) in
        (take size text, length text)

    -- `toString`, whose array has 32 bytes.
    unfoldable pub to_string : Bool → Timestamp → Result (List ℕ)
    to_string with_milli_seconds t =
        let written = (format_to 32 with_milli_seconds t).0 in
        c_string (written ++ replicate (32 - length written) 0)

abbrev NoZero : List ℕ → Type 0
NoZero [] = Unit
NoZero (b ∷ bs) = (0 < b) × NoZero bs

-- `w` bytes, none of them 0.
abbrev pub Sized : ℕ → List ℕ → Type 0
Sized w xs = (length xs ≡ w) × NoZero xs

-- The library's promise: a number of at most `w` digits is printed in `w` bytes.
abbrev pub IsPadding : (ℕ → ℤ → List ℕ) → Type 0
IsPadding fmt = (w n : ℕ) → 0 < w → n < 10 ^ w → Sized w (fmt w (pos n))

-- A broken-down time of the years 0 to 9999.
pub record IsCalendar (tm : Tm) : Type 0 where
  pub year : ℕ
  pub month : ℕ
  pub day : ℕ
  pub hour : ℕ
  pub minute : ℕ
  pub second : ℕ
  pub year_is : tm.tm_year +ℤ pos 1900 ≡ pos year
  pub month_is : tm.tm_mon +ℤ pos 1 ≡ pos month
  pub day_is : tm.tm_mday ≡ pos day
  pub hour_is : tm.tm_hour ≡ pos hour
  pub minute_is : tm.tm_min ≡ pos minute
  pub second_is : tm.tm_sec ≡ pos second
  pub year_small : year < 10000
  pub month_small : month ≤ 12
  pub day_small : day ≤ 31
  pub hour_small : hour < 24
  pub minute_small : minute < 60
  pub second_small : second ≤ 60

NoZero-append : (xs ys : List ℕ) → NoZero xs → NoZero ys → NoZero (xs ++ ys)
NoZero-append [] ys n m = m
NoZero-append (x ∷ xs) ys (p, n) m = (p, NoZero-append xs ys n m)

pub Sized-snoc : (w c : ℕ) (xs : List ℕ) → Sized w xs → 0 < c → Sized (suc w) (xs ++ (c ∷ []))
Sized-snoc w c xs s p =
    (omega (arith, length-append xs (c ∷ []), s.0), NoZero-append xs (c ∷ []) s.1 (p, tt))

c_string-NoZero : (xs : List ℕ) (n : ℕ) → NoZero xs → c_string (xs ++ replicate (suc n) 0) ≡ ok xs
unfolding c_string
c_string-NoZero [] n h = refl
c_string-NoZero (x ∷ xs) n (p, h) =
    let not_zero : (x == 0) ≡ false = ground arith in rw (not_zero, c_string-NoZero xs n h)

now-pos : (s u : ℕ) → now (pos s) (pos u) ≡ record { timestamp = pos (s * 1000000 + u) }
unfolding now ◌*ℤ◌ ◌+ℤ◌
now-pos s u = ap (λ t. record { timestamp = t }) (ground arith)

to_seconds-now : (s u : ℕ) → u < 1000000 → to_seconds (now (pos s) (pos u)) ≡ pos s
unfolding to_seconds div_ℤ
to_seconds-now s u h = ap to_seconds (now-pos s u) ∙ ap pos (omega arith)

rest_of : (n : ℕ) → pos n -ℤ pos (n / 1000000) *ℤ pos 1000000 ≡ pos (n % 1000000)
unfolding ◌-ℤ◌ ◌*ℤ◌
rest_of n = ground arith

milli_seconds-now : (s u : ℕ) → u < 1000000 → milli_seconds (now (pos s) (pos u)) ≡ pos (u / 1000)
unfolding milli_seconds to_seconds div_ℤ
milli_seconds-now s u h =
    let n = s * 1000000 + u in
    ap milli_seconds (now-pos s u)
    ∙ ap (λ z. div_ℤ z 1000) (rest_of n)
    ∙ ap (λ t. pos (t / 1000)) (omega arith)

-- Each number has no more digits than its field, and the bytes between are not 0.
abbrev Fits : List Part → Type 0
Fits [] = Unit
Fits (byte c ∷ ps) = (0 < c) × Fits ps
Fits (field w z ∷ ps) = (0 < w) × (k : ℕ) × (k < 10 ^ w) × (z ≡ pos k) × Fits ps

-- The fields of a date, and what follows them.
abbrev date_parts : Tm → List Part → List Part
date_parts tm ps =
    field 4 (tm.tm_year +ℤ pos 1900)
    ∷ byte 45
    ∷ field 2 (tm.tm_mon +ℤ pos 1)
    ∷ byte 45
    ∷ field 2 tm.tm_mday
    ∷ byte 32
    ∷ field 2 tm.tm_hour
    ∷ byte 58
    ∷ field 2 tm.tm_min
    ∷ byte 58
    ∷ field 2 tm.tm_sec
    ∷ ps

abbrev size : List Part → ℕ
size [] = 0
size (byte c ∷ ps) = suc (size ps)
size (field w z ∷ ps) = w + size ps

module _ (fmt : ℕ → ℤ → List ℕ) (law : IsPadding fmt) where
  field_Sized : (w n : ℕ) (z : ℤ) → 0 < w → n < 10 ^ w → z ≡ pos n → Sized w (fmt w z)
  field_Sized w n z p h e = subst (λ t. Sized w (fmt w t)) (sym e) (law w n p h)

  format-Sized : (ps : List Part) → Fits ps → Sized (size ps) (format fmt ps)
  format-Sized [] s = (refl, tt)
  format-Sized (byte c ∷ ps) (p, s) = let (e, o) = format-Sized ps s in (ap suc e, (p, o))
  format-Sized (field w z ∷ ps) (p, k, h, e, s) =
      let (g, o) = field_Sized w k z p h e in
      let (f, m) = format-Sized ps s in
      (
        omega (arith, length-append (fmt w z) (format fmt ps), g, f),
        NoZero-append (fmt w z) (format fmt ps) o m,
      )

  date_Fits : (tm : Tm) (ps : List Part) → IsCalendar tm → Fits ps → Fits (date_parts tm ps)
  date_Fits tm ps c s = (
    omega arith,
    c.year,
    omega (arith, c.year_small),
    c.year_is,
    (
      omega arith,
      (
        omega arith,
        c.month,
        omega (arith, c.month_small),
        c.month_is,
        (
          omega arith,
          (
            omega arith,
            c.day,
            omega (arith, c.day_small),
            c.day_is,
            (
              omega arith,
              (
                omega arith,
                c.hour,
                omega (arith, c.hour_small),
                c.hour_is,
                (
                  omega arith,
                  (
                    omega arith,
                    c.minute,
                    omega (arith, c.minute_small),
                    c.minute_is,
                    (
                      omega arith,
                      (omega arith, c.second, omega (arith, c.second_small), c.second_is, s),
                    ),
                  ),
                ),
              ),
            ),
          ),
        ),
      ),
    ),
  )

  time_text-Sized :
      (with_ms : Bool) (tm : Tm) (ms : ℕ)
      → IsCalendar tm
      → ms < 1000
      → Sized (if with_ms then 23 else 19) (time_text fmt with_ms tm (pos ms))
  unfolding time_text
  time_text-Sized true tm ms c h = format-Sized (date_parts tm (byte 58 ∷ field 3 (pos ms) ∷ [])) (
      date_Fits tm (byte 58 ∷ field 3 (pos ms) ∷ []) c
        (omega arith, (omega arith, ms, omega arith, refl, tt)))
  time_text-Sized false tm ms c h = format-Sized (date_parts tm []) (date_Fits tm [] c tt)

  module _ (local_time : ℤ → Tm) where
    -- A text that is shorter than the array comes out whole.
    to_string-short :
        (with_ms : Bool) (t : Timestamp) (n : ℕ) (xs : List ℕ)
        → time_text fmt with_ms (local_time (to_seconds t)) (milli_seconds t) ≡ xs
        → Sized n xs
        → n < 32
        → to_string fmt local_time with_ms t ≡ ok xs
    unfolding to_string format_to
    to_string-short with_ms t n xs e (size, no_zero) h =
        ap (λ s. c_string (take 32 s ++ replicate (32 - length (take 32 s)) 0)) e
        ∙ ap (λ s. c_string (s ++ replicate (32 - length s) 0)) (take_all 32 xs (omega arith))
        ∙ ap (λ m. c_string (xs ++ replicate m 0)) {y = suc (31 - length xs)} (omega arith)
        ∙ c_string-NoZero xs (31 - length xs) no_zero

    -- Where the system's clock gives `s` seconds and `u` microseconds, fewer than a million, and the
    -- local time of that second is one of the years 0 to 9999: the text of the time that `now` gives
    -- is whole. It has the fields of the local time, and the whole milliseconds of `u` if they are
    -- asked for, and takes 23 or 19 bytes.
    pub to_string-now :
        (s u : ℕ) (with_ms : Bool)
        → u < 1000000
        → IsCalendar (local_time (pos s))
        → (to_string fmt local_time with_ms (now (pos s) (pos u))
            ≡ ok (time_text fmt with_ms (local_time (pos s)) (pos (u / 1000))))
          × (length (time_text fmt with_ms (local_time (pos s)) (pos (u / 1000)))
              ≡ (if with_ms then 23 else 19))
    to_string-now s u with_ms h c =
        let sized = time_text-Sized with_ms (local_time (pos s)) (u / 1000) c (omega arith) in
        (
          to_string-short with_ms (now (pos s) (pos u)) (if with_ms then 23 else 19) _
              (ap (λ z. time_text fmt with_ms (local_time z) (milli_seconds (now (pos s) (pos u))))
                  (to_seconds-now s u h)
                ∙ ap (time_text fmt with_ms (local_time (pos s))) (milli_seconds-now s u h))
              sized (below with_ms),
          sized.0,
        )
      where
        below : (b : Bool) → (if b then 23 else 19) < 32
        below true = omega arith
        below false = omega arith

    -- Where the local time of a timestamp's second is one of the years 0 to 9999, its text without
    -- milliseconds is that of the date made of it.
    pub to_string-date_to_string :
        (t : Timestamp)
        → IsCalendar (local_time (to_seconds t))
        → to_string fmt local_time false t ≡ ok (date_to_string fmt (date_of local_time t))
    unfolding date_to_string date_of time_text
    to_string-date_to_string t c =
        to_string-short false t 19 _ refl
          (format-Sized (date_parts (local_time (to_seconds t)) [])
            (date_Fits (local_time (to_seconds t)) [] c tt))
          (omega arith)
