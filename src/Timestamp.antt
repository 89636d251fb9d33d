-- ===== src/Timestamp.antt =====
-- potato/time/Timestamp.h and Timestamp.cpp: a time in microseconds. A sum out of 64 bits is undefined
-- behaviour; here integers have no bound.
pub mod Text
mod Tests
use libpotato.Base.{ℕ, ◌+◌, ◌≡◌, Bool, not, ◌||◌, ◌==◌, arith}
use libpotato.Base.Int.{ℤ, pos, negsuc, pos_part, neg_part, ltb_ℤ, ◌+ℤ◌, ◌*ℤ◌, div_ℤ}

pub record Timestamp : Type 0 where
  pub timestamp : ℤ

abbrev pub micro_seconds_per_second : ℤ
micro_seconds_per_second = pos 1000000

-- `Timestamp()`.
abbrev pub no_time : Timestamp
no_time = record { timestamp = negsuc 0 }

unfoldable pub is_valid : Timestamp → Bool
is_valid t = not (ltb_ℤ t.timestamp (pos 0))

unfoldable pub to_seconds : Timestamp → ℤ
to_seconds t = div_ℤ t.timestamp 1000000

unfoldable pub parse_from_seconds : ℤ → Timestamp
parse_from_seconds seconds = record { timestamp = seconds *ℤ micro_seconds_per_second }

unfoldable pub add_micro_seconds : Timestamp → ℤ → Timestamp
add_micro_seconds t n = record { timestamp = t.timestamp +ℤ n }

unfoldable pub add_milli_seconds : Timestamp → ℤ → Timestamp
add_milli_seconds t n = record { timestamp = t.timestamp +ℤ n *ℤ pos 1000 }

unfoldable pub add_seconds : Timestamp → ℤ → Timestamp
add_seconds t n = record { timestamp = t.timestamp +ℤ n *ℤ micro_seconds_per_second }

unfoldable pub add_minutes : Timestamp → ℤ → Timestamp
add_minutes t n = record { timestamp = t.timestamp +ℤ n *ℤ micro_seconds_per_second *ℤ pos 60 }

unfoldable pub add_hour : Timestamp → ℤ → Timestamp
add_hour t n = record {
  timestamp = t.timestamp +ℤ n *ℤ micro_seconds_per_second *ℤ pos 60 *ℤ pos 60;
}

unfoldable pub add_day : Timestamp → ℤ → Timestamp
add_day t n = record {
  timestamp = t.timestamp +ℤ n *ℤ micro_seconds_per_second *ℤ pos 60 *ℤ pos 60 *ℤ pos 24;
}

-- The operators `==` and `<`, and those made of them.
unfoldable pub same_time : Timestamp → Timestamp → Bool
same_time a b =
    pos_part a.timestamp + neg_part b.timestamp == pos_part b.timestamp + neg_part a.timestamp

unfoldable pub other_time : Timestamp → Timestamp → Bool
unfolding same_time
other_time a b = not (same_time a b)

unfoldable pub earlier : Timestamp → Timestamp → Bool
earlier a b = ltb_ℤ a.timestamp b.timestamp

unfoldable pub later : Timestamp → Timestamp → Bool
unfolding earlier
later a b = earlier b a

unfoldable pub not_later : Timestamp → Timestamp → Bool
unfolding later
not_later a b = not (later a b)

unfoldable pub not_earlier : Timestamp → Timestamp → Bool
unfolding earlier
not_earlier a b = not (earlier a b)

-- The operators agree with each other: `<=` is `<` or `==`, and `>=` is `>` or `==`.
not_later-not_earlier :
    (a b : Timestamp)
    → (not_later a b ≡ (earlier a b || same_time a b))
      × (not_earlier a b ≡ (later a b || same_time a b))
unfolding not_later not_earlier same_time
not_later-not_earlier a b = (ground arith, ground arith)
