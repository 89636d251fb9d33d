-- ===== src/StringSlice.antt =====
-- potato/utils/StringSlice.h: slices of a string. A slice is the bytes from its first one to the end
-- of the string that it points into, and its length. A read past that end is a fault.
pub mod Split
pub mod Find
pub mod FindSlice
pub mod Trim
pub mod Same
mod Tests
use libpotato.Base.{
  ℕ, zero, suc, ◌+◌, ◌-◌, ◌%◌, ◌^◌, min, Bool, true, false, not, ◌&&◌, ◌||◌, Option, none, some,
  List, [], ◌∷◌, Result, ok, err, out_of_range, ◌>>=◌, if◌then◌else◌, ◌==◌, length, get_elem?, take,
  drop,
}

pub record StringSlice : Type 0 where
  pub data_bytes : List ℕ
  pub len : ℕ

abbrev pub npos : ℕ
npos = 2 ^ 64 - 1

-- `StringSlice(str)` and `StringSlice(str, len)`.
unfoldable pub of_string : List ℕ → StringSlice
of_string str = record { data_bytes = str; len = length str }

abbrev pub is_empty : StringSlice → Bool
is_empty s = s.len == 0

-- `slice(beginIndex, len)`.
unfoldable pub slice : StringSlice → ℕ → ℕ → StringSlice
slice s begin_index len = record {
  data_bytes = drop begin_index s.data_bytes;
  len = min ((s.len + 2 ^ 64 - begin_index) % 2 ^ 64) len;
}

-- `toString()`.
unfoldable pub to_string : StringSlice → List ℕ
to_string s = take s.len s.data_bytes

-- `data_[i]`.
unfoldable pub byte_at : StringSlice → ℕ → Result ℕ
byte_at s i = elim (get_elem? s.data_bytes i) [ none ↦ err out_of_range | some x ↦ ok x ]

-- The loop of `split` from the index `i`, with `left` rounds to go.
unfoldable pub split_from : StringSlice → ℕ → (left i begin : ℕ) → Result (List StringSlice)
split_from s delim zero i begin = ok (slice s begin (s.len - begin) ∷ [])
split_from s delim (suc left) i begin = do
  x ← byte_at s i
  let cut = split_from s delim left (i + 1) (i + 1)
  let on = split_from s delim left (i + 1) begin
  if x == delim then (do rest ← cut; ok (slice s begin (i - begin) ∷ rest)) else on

unfoldable pub split : StringSlice → ℕ → Result (List StringSlice)
split s delim = if is_empty s then ok [] else split_from s delim s.len 0 0

-- The loop of `find(char)`.
unfoldable pub find_from : StringSlice → ℕ → (left i : ℕ) → Result ℕ
find_from s c zero i = ok npos
find_from s c (suc left) i = do
  x ← byte_at s i
  let later = find_from s c left (i + 1)
  if x == c then ok i else later

unfoldable pub find : StringSlice → ℕ → Result ℕ
find s c = find_from s c s.len 0

-- The two loops of `trim`, with `left` rounds to go.
unfoldable pub trim_front : StringSlice → ℕ → (left front : ℕ) → Result ℕ
trim_front s delim zero front = ok front
trim_front s delim (suc left) front = do
  x ← byte_at s front
  let on = trim_front s delim left (front + 1)
  if x == delim then on else ok front

unfoldable pub trim_back : StringSlice → ℕ → (left back : ℕ) → Result ℕ
trim_back s delim zero back = ok back
trim_back s delim (suc left) back = do
  x ← byte_at s back
  let on = trim_back s delim left (back - 1)
  if x == delim then on else ok back

unfoldable pub trim : StringSlice → ℕ → Result StringSlice
trim s delim = do
  front ← trim_front s delim s.len 0
  if s.len == 0 || front == s.len then ok (of_string []) else (do
    back ← trim_back s delim (s.len - 1 - front) (s.len - 1)
    ok (slice s front (back - front + 1)))

-- `memcmp(a, b, n) == 0`.
unfoldable pub memcmp_is_zero : ℕ → List ℕ → List ℕ → Result Bool
memcmp_is_zero zero xs ys = ok true
memcmp_is_zero (suc n) [] ys = err out_of_range
memcmp_is_zero (suc n) (x ∷ xs) [] = err out_of_range
memcmp_is_zero (suc n) (x ∷ xs) (y ∷ ys) =
    let rest = memcmp_is_zero n xs ys in if x == y then rest else ok false

-- The operators `==` and `!=`.
unfoldable pub same_slice : StringSlice → StringSlice → Result Bool
same_slice a b = if a.len == b.len then memcmp_is_zero b.len a.data_bytes b.data_bytes else ok false

unfoldable pub other_slice : StringSlice → StringSlice → Result Bool
unfolding same_slice
other_slice a b = do same ← same_slice a b; ok (not same)
