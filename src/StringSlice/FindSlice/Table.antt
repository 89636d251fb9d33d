-- ===== src/StringSlice/FindSlice/Table.antt =====
-- The table: for each place the longest beginning of the pattern that stands again just before it.
use libpotato.Base.{
  ℕ, zero, suc, ◌+◌, ◌-◌, ◌≤◌, ◌<◌, ◌≡◌, ◌≢◌, ◌⊎◌, inl, inr, refl, sym, ap, ◌∙◌, subst, true, false,
  some, List, ok, ◌==◌, get_elem?, dec_lt, Bool-cases, ==_iff, lt→ltb, arith,
}
use libpotato.StringSlice.{StringSlice}
use libpotato.StringSlice.Split.{IsWithin, get_elem?-within, byte_at-found}
use libpotato.StringSlice.FindSlice.{char_at, entry, fall}
use libpotato.StringSlice.FindSlice.Borders.{Ends, nothing-Ends, Ends-border, Ends-trans}

module _ (p : StringSlice) where
  -- Of the beginnings of at most `bound` bytes before `e`, that of `j` is the longest.
  pub record IsLongest (t : List ℕ) (e bound j : ℕ) : Type 0 where
    pub ends : Ends p.data_bytes t e j
    pub most : (k : ℕ) → k ≤ bound → Ends p.data_bytes t e k → k ≤ j

  -- The entries below `q` are right.
  abbrev pub TableTo : List ℕ → ℕ → Type 0
  TableTo next q =
      (r : ℕ)
      → r < q
      → (b : ℕ) × (get_elem? next r ≡ some b) × (b ≤ r) × IsLongest p.data_bytes (r + 1) r b

  -- Where the inner loop stops.
  pub record Fallen (t : List ℕ) (e c j k : ℕ) : Type 0 where
    pub low : k ≤ j
    pub ends : Ends p.data_bytes t e k
    pub stops : (k ≡ 0) ⊎ (get_elem? p.data_bytes k ≡ some c)
    pub skipped :
        (m : ℕ) → m ≤ j → k < m → Ends p.data_bytes t e m → get_elem? p.data_bytes m ≢ some c

module _ (p : StringSlice) (v : IsWithin p) where
  pub char_at-found :
      (i : ℕ) → i < p.len → (x : ℕ) × (char_at p i ≡ ok x) × (get_elem? p.data_bytes i ≡ some x)
  unfolding char_at
  char_at-found i h =
      let (x, e) = get_elem?-within p.data_bytes i (omega (arith, v.inside)) in
      (x, rw (lt→ltb i p.len h, byte_at-found p 0 v i x e), e)

  fall-hit :
      (fuel : ℕ) (next : List ℕ) (c j y : ℕ)
      → char_at p j ≡ ok y
      → (y == c) ≡ true
      → fall p (suc fuel) next c j ≡ ok j
  unfolding fall
  fall-hit fuel next c j y e hit = elim (Bool-cases (j == 0)) [
    | inl start ↦ rw start (ap ok (sym ((==_iff j 0).0 start)))
    | inr later ↦ rw (later, e, hit)
  ]

  fall-miss :
      (fuel : ℕ) (next : List ℕ) (c j y b : ℕ)
      → (j == 0) ≡ false
      → char_at p j ≡ ok y
      → (y == c) ≡ false
      → get_elem? next (j - 1) ≡ some b
      → fall p (suc fuel) next c j ≡ fall p fuel next c b
  unfolding fall
  fall-miss fuel next c j y b later e miss there = rw (later, e, miss, there, entry)

  fall-start :
      (fuel : ℕ) (next : List ℕ) (c j : ℕ) → (j == 0) ≡ true → fall p (suc fuel) next c j ≡ ok 0
  unfolding fall
  fall-start fuel next c j start = rw start

  -- Between the entry of the table and the place where it was read no beginning goes on with `c`.
  skipped-back :
      (t : List ℕ) (e c j y b k : ℕ)
      → get_elem? p.data_bytes j ≡ some y
      → (y == c) ≡ false
      → Ends p.data_bytes t e j
      → ((m : ℕ) → m ≤ j - 1 → Ends p.data_bytes p.data_bytes (j - 1 + 1) m → m ≤ b)
      → ((m : ℕ) → m ≤ b → k < m → Ends p.data_bytes t e m → get_elem? p.data_bytes m ≢ some c)
      → j - 1 + 1 ≡ j
      → (m : ℕ) → m ≤ j
      → k < m
      → Ends p.data_bytes t e m
      → get_elem? p.data_bytes m ≢ some c
  skipped-back t e c j y b k e_j miss w most below back m h l u = elim (dec_lt m j) [
    | yes lt ↦
        below m
          (most m (omega arith) (
            subst (λ n. Ends p.data_bytes p.data_bytes n m) (sym back)
              (Ends-border p.data_bytes t e j m h w u)))
          l u
    | no ge ↦
        let same : m ≡ j = omega (arith, h) in
        λ q.
          let both : some y ≡ some c = sym e_j ∙ ap (get_elem? p.data_bytes) (sym same) ∙ q in
          ground (arith, both, miss)
  ]

  pub fall-Fallen :
      (fuel : ℕ) (next t : List ℕ) (e c j : ℕ)
      → j < fuel
      → j < p.len
      → TableTo p next j
      → Ends p.data_bytes t e j
      → (k : ℕ) × (fall p fuel next c j ≡ ok k) × Fallen p t e c j k
  fall-Fallen zero next t e c j h l table w = absurd (omega arith)
  fall-Fallen (suc fuel) next t e c j h l table w =
      let (y, at_j, e_j) = char_at-found j l in
      elim (Bool-cases (j == 0)) [
        | inl start ↦
            let zero_j : j ≡ 0 = (==_iff j 0).0 start in
            (
              0,
              fall-start fuel next c j start,
              record {
                low = omega arith;
                ends = nothing-Ends p.data_bytes t e;
                stops = inl refl;
                skipped = λ m a b. absurd (omega (arith, a, b, zero_j));
              },
            )
        | inr later ↦ elim (Bool-cases (y == c)) [
          | inl hit ↦ (
            j,
            fall-hit fuel next c j y at_j hit,
            record {
              low = omega arith;
              ends = w;
              stops = inr (e_j ∙ ap some ((==_iff y c).0 hit));
              skipped = λ m a b. absurd (omega (arith, a, b));
            },
          )
          | inr miss ↦
              let pos : 0 < j = ground arith in
              let (b, there, small, longest) = table (j - 1) (omega arith) in
              let back : j - 1 + 1 ≡ j = omega arith in
              let border : Ends p.data_bytes p.data_bytes j b =
                subst (λ n. Ends p.data_bytes p.data_bytes n b) back longest.ends in
              let (k, f, fallen) =
                fall-Fallen fuel next t e c b (omega (arith, small)) (omega (arith, small))
                  (λ r q. table r (omega (arith, q, small)))
                  (Ends-trans p.data_bytes t e j b w border) in
              (
                k,
                fall-miss fuel next c j y b later at_j miss there ∙ f,
                record {
                  low = omega (arith, fallen.low, small);
                  ends = fallen.ends;
                  stops = fallen.stops;
                  skipped =
                      skipped-back t e c j y b k e_j miss (w) longest.most fallen.skipped back;
                },
              )
        ]
      ]
