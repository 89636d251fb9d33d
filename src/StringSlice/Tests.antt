-- ===== src/StringSlice/Tests.antt =====
-- A line of fields at concrete inputs.
use libpotato.Base.{ℕ, ◌≡◌, refl, List, [], ◌∷◌, map, ok, arith}
use libpotato.StringSlice.{StringSlice, to_string, split, find, find_from, byte_at}
use libpotato.StringSlice.Split.{IsWithin, join, AllWithout, split-join}
use libpotato.StringSlice.{trim}
use libpotato.StringSlice.Trim.{Trimmed, trim-Trimmed}
use libpotato.StringSlice.FindSlice.{find_slice, fill_table, search_from, fall, char_at}
use libpotato.StringSlice.FindSlice.Search.{SliceAnswer, find_slice-SliceAnswer}

abbrev line : StringSlice
line = record { data_bytes = b'a' ∷ b',' ∷ b',' ∷ b'b' ∷ b'c' ∷ b',' ∷ b'x' ∷ []; len = 6 }

line-IsWithin : IsWithin line
line-IsWithin = record { inside = omega arith; small = omega arith }

split-join_example :
    (ps : List StringSlice) × (split line b',' ≡ ok ps)
    × (join b',' (map to_string ps) ≡ b'a' ∷ b',' ∷ b',' ∷ b'b' ∷ b'c' ∷ b',' ∷ [])
    × AllWithout b',' (map to_string ps)
unfolding to_string
split-join_example = split-join line b',' line-IsWithin (omega arith)

found : find line b'b' ≡ ok 3
unfolding find find_from byte_at
found = refl

-- The pattern `aab` in `xaaab`: the third `a` falls back by the table.
abbrev pattern : StringSlice
pattern = record { data_bytes = b'a' ∷ b'a' ∷ b'b' ∷ []; len = 3 }

abbrev text : StringSlice
text = record { data_bytes = b'x' ∷ b'a' ∷ b'a' ∷ b'a' ∷ b'b' ∷ []; len = 5 }

pattern-IsWithin : IsWithin pattern
pattern-IsWithin = record { inside = omega arith; small = omega arith }

text-IsWithin : IsWithin text
text-IsWithin = record { inside = omega arith; small = omega arith }

find_slice-SliceAnswer_example :
    (k : ℕ) × (find_slice pattern text ≡ ok k) × SliceAnswer text pattern k
find_slice-SliceAnswer_example = find_slice-SliceAnswer pattern pattern-IsWithin text text-IsWithin

pattern_found : find_slice pattern text ≡ ok 2
unfolding find_slice fill_table search_from fall char_at byte_at
pattern_found = refl

-- Two blanks, a word with a blank in it, and one blank.
abbrev blanks : StringSlice
blanks = record { data_bytes = b' ' ∷ b' ' ∷ b'a' ∷ b' ' ∷ b'b' ∷ b' ' ∷ []; len = 6 }

blanks-IsWithin : IsWithin blanks
blanks-IsWithin = record { inside = omega arith; small = omega arith }

trim-Trimmed_example : (t : StringSlice) × (trim blanks b' ' ≡ ok t) × Trimmed blanks b' ' t
trim-Trimmed_example = trim-Trimmed blanks b' ' blanks-IsWithin

-- The same bytes, in a longer string.
abbrev same_blanks : StringSlice
same_blanks = record blanks { data_bytes = b' ' ∷ b' ' ∷ b'a' ∷ b' ' ∷ b'b' ∷ b' ' ∷ b'x' ∷ [] }
