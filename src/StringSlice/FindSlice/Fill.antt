-- ===== src/StringSlice/FindSlice/Fill.antt =====
-- The loop that fills the table ends without a fault, and every entry is right.
use libpotato.Base.{
  ℕ, zero, suc, ◌+◌, ◌-◌, ◌≤◌, ◌<◌, ◌≡◌, refl, sym, ap, ◌∙◌, subst, Bool, true, false, some, List,
  ok, if◌then◌else◌, ◌==◌, ltb, lt→ltb, get_elem?, get_elem?-set_same, get_elem?-set_other, set,
  length, length-set, replicate, dec_lt, arith,
}
use libpotato.StringSlice.{StringSlice}
use libpotato.StringSlice.Split.{IsWithin}
use libpotato.StringSlice.FindSlice.{char_at, put_entry, fall, fill_table}
use libpotato.StringSlice.FindSlice.Borders.{nothing-Ends}
use libpotato.StringSlice.FindSlice.Table.{IsLongest, TableTo, char_at-found, fall-Fallen}
use libpotato.StringSlice.FindSlice.Next.{Fallen-next}

-- The entry that a round stores.
grown_by : (b : Bool) (k m : ℕ) → k < m → (if b then k + 1 else k) ≤ m
grown_by true k m h = omega arith
grown_by false k m h = omega arith

module _ (p : StringSlice) (v : IsWithin p) where
  fill_table-step :
      (left i j c k y : ℕ) (next : List ℕ)
      → char_at p i ≡ ok c
      → fall p (j + 1) next c j ≡ ok k
      → char_at p k ≡ ok y
      → ltb i (length next) ≡ true
      → fill_table p (suc left) i j next
        ≡ fill_table p left
            (i + 1)
            (if y == c then k + 1 else k)
            (set next i (if y == c then k + 1 else k))
  unfolding fill_table
  fill_table-step left i j c k y next at_i f at_k room = rw (at_i, f, at_k, put_entry, room)

  TableTo-put :
      (next : List ℕ) (i b : ℕ)
      → i < length next
      → TableTo p next i
      → b ≤ i
      → IsLongest p p.data_bytes (i + 1) i b
      → TableTo p (set next i b) (i + 1)
  TableTo-put next i b room table small long r h = elim (dec_lt r i) [
    | yes lt ↦
        let (a, there, low, longest) = table r lt in
        (a, get_elem?-set_other next i r b (omega arith) ∙ there, low, longest)
    | no ge ↦
        let same : i ≡ r = omega arith in
        (
          b,
          ap (get_elem? (set next i b)) (sym same) ∙ get_elem?-set_same next i b room,
          omega (arith, same),
          subst (λ n. IsLongest p p.data_bytes (n + 1) n b) same long,
        )
  ]

  -- A round, over the result of the rounds that follow.
  fill_table-round :
      (left i j c k y : ℕ) (next : List ℕ)
      → 1 ≤ i
      → i < length next
      → TableTo p next i
      → k < i
      → char_at p i ≡ ok c
      → fall p (j + 1) next c j ≡ ok k
      → char_at p k ≡ ok y
      → IsLongest p p.data_bytes (i + 1) (i - 1 + 1) (if y == c then k + 1 else k)
      → ((b : ℕ) (table : List ℕ)
          → b ≤ i
          → length table ≡ length next
          → TableTo p table (i + 1)
          → IsLongest p p.data_bytes (i + 1) i b
          → (next' : List ℕ) × (fill_table p left (i + 1) b table ≡ ok next')
            × TableTo p next' p.len)
      → (next' : List ℕ) × (fill_table p (suc left) i j next ≡ ok next') × TableTo p next' p.len
  fill_table-round left i j c k y next pos room table low at_i f at_k long rest =
      let b_low = grown_by (y == c) k i low in
      let longest : IsLongest p p.data_bytes (i + 1) i (if y == c then k + 1 else k) =
        subst (λ n. IsLongest p p.data_bytes (i + 1) n (if y == c then k + 1 else k))
          (omega (arith, pos)) long in
      let (next', g, done) =
        rest (if y == c then k + 1 else k) (set next i (if y == c then k + 1 else k)) b_low
          (length-set next i (if y == c then k + 1 else k))
          (TableTo-put next i (if y == c then k + 1 else k) room table b_low longest) longest in
      (
        next',
        fill_table-step left i j c k y next at_i f at_k (lt→ltb i (length next) room) ∙ g,
        done,
      )

  pub fill_table-TableTo :
      (left i j : ℕ) (next : List ℕ)
      → 1 ≤ i
      → i + left ≡ p.len
      → j ≤ i - 1
      → length next ≡ p.len
      → TableTo p next i
      → IsLongest p p.data_bytes i (i - 1) j
      → (next' : List ℕ) × (fill_table p left i j next ≡ ok next') × TableTo p next' p.len
  unfolding fill_table
  fill_table-TableTo zero i j next pos sum low len table long =
      (next, refl, λ r h. table r (omega (arith, sum, h)))
  fill_table-TableTo (suc left) i j next pos sum low len table long =
      let (c, at_i, e_i) = char_at-found p v i (omega (arith, sum)) in
      let (k, f, fallen) =
        fall-Fallen p v (j + 1) next p.data_bytes i c j (omega arith) (omega (arith, sum, low))
          (λ r h. table r (omega (arith, h, low))) long.ends in
      let k_low : k < i = omega (arith, fallen.low, low, pos) in
      let (y, at_k, e_k) = char_at-found p v k (omega (arith, k_low, sum)) in
      fill_table-round left i j c k y next pos (omega (arith, len, sum)) table k_low at_i f at_k
        (Fallen-next p p.data_bytes i (i - 1) c y j k long fallen e_i e_k)
        (λ b next2 b_low len2 table2 long2.
          fill_table-TableTo left (i + 1) b next2 (omega arith) (omega (arith, sum))
            (omega (arith, b_low)) (len2 ∙ len) table2
            (subst (λ n. IsLongest p p.data_bytes (i + 1) n b) (omega arith) long2))

-- The table as it is built: every entry 0.
first_entry : (n : ℕ) → 0 < n → get_elem? {A = ℕ} (replicate n 0) 0 ≡ some 0
first_entry zero h = absurd (omega arith)
first_entry (suc n) h = refl

pub TableTo-start : (p : StringSlice) → 0 < p.len → TableTo p (replicate p.len 0) 1
TableTo-start p pos r h =
    let same : r ≡ 0 = omega (arith, h) in
    (
      0,
      ap (get_elem? {A = ℕ} (replicate p.len 0)) same ∙ first_entry p.len pos,
      omega arith,
      record {
        ends = nothing-Ends p.data_bytes p.data_bytes (r + 1);
        most = λ k l w. omega (arith, l, same);
      },
    )
