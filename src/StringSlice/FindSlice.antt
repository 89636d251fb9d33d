-- ===== src/StringSlice/FindSlice.antt =====
-- `find(const StringSlice &)`: the search of Knuth, Morris and Pratt, with its table `next`.
pub mod Borders
pub mod Table
pub mod Next
pub mod Fill
pub mod Search
use libpotato.Base.{
  ℕ, zero, suc, ◌+◌, ◌-◌, ◌%◌, ◌^◌, ◌||◌, Option, none, some, List, Result, ok, err, assertion,
  out_of_range, endless, guard, ◌>>=◌, ◌>>◌, if◌then◌else◌, ltb, leb, ◌==◌, length, get_elem?, set,
  replicate,
}
use libpotato.StringSlice.{StringSlice, npos, is_empty, byte_at}

-- `slice[i]`.
unfoldable pub char_at : StringSlice → ℕ → Result ℕ
char_at p i = do guard (ltb i p.len) assertion; byte_at p i

-- An element of the vector, read and written. An index out of its range is undefined behaviour.
abbrev pub entry : List ℕ → ℕ → Result ℕ
entry next i = elim (get_elem? next i) [ none ↦ err out_of_range | some b ↦ ok b ]

abbrev pub put_entry : List ℕ → ℕ → ℕ → Result (List ℕ)
put_entry next i v = do guard (ltb i (length next)) out_of_range; ok (set next i v)

module _ (p : StringSlice) where
  -- `while (j > 0 && slice[j] != c) j = next[j - 1];`, with fuel for the rounds.
  unfoldable pub fall : ℕ → List ℕ → ℕ → ℕ → Result ℕ
  fall zero next c j = err endless
  fall (suc fuel) next c j =
      let more = (do
        y ← char_at p j
        let again = (do b ← entry next (j - 1); fall fuel next c b)
        if y == c then ok j else again) in
      if j == 0 then ok 0 else more

  -- The loop that fills the table, from the index `i` with `left` rounds to go.
  unfoldable pub fill_table : (left i j : ℕ) → List ℕ → Result (List ℕ)
  fill_table zero i j next = ok next
  fill_table (suc left) i j next = do
    c ← char_at p i
    k ← fall (j + 1) next c j
    y ← char_at p k
    let k' = if y == c then k + 1 else k
    next' ← put_entry next i k'
    fill_table left (i + 1) k' next'

  -- The loop over the bytes of the slice that is searched.
  unfoldable pub search_from : StringSlice → List ℕ → (left i j : ℕ) → Result ℕ
  search_from s next zero i j = ok npos
  search_from s next (suc left) i j = do
    c ← byte_at s i
    k ← fall (j + 1) next c j
    y ← char_at p k
    let longer = search_from s next left (i + 1) (k + 1)
    let same = search_from s next left (i + 1) k
    if y == c
        then (if leb p.len (k + 1) then ok ((i + 2 ^ 64 - (k + 1) + 1) % 2 ^ 64) else longer)
        else same

  unfoldable pub find_slice : StringSlice → Result ℕ
  find_slice s =
      if is_empty p || is_empty s
      then ok npos
      else (do next ← fill_table (p.len - 1) 1 0 (replicate p.len 0); search_from s next s.len 0 0)
