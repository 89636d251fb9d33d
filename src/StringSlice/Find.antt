-- ===== src/StringSlice/Find.antt =====
-- `find(char)`: the first place of a byte.
use libpotato.Base.{
  ℕ, zero, suc, ◌+◌, ◌≤◌, ◌<◌, ◌≡◌, ◌≢◌, refl, sym, ap, ◌∙◌, inl, inr, true, false, some, List, ok,
  ◌==◌, get_elem?, Bool-cases, ==_iff, dec_lt, arith,
}
use libpotato.StringSlice.{StringSlice, npos, find_from, find}
use libpotato.StringSlice.Split.{IsWithin, get_elem?-within, byte_at-found}

-- No byte from `i` up to `e` is `c`.
abbrev pub Absent : List ℕ → ℕ → ℕ → ℕ → Type 0
Absent xs c i e = (j x : ℕ) → i ≤ j → j < e → get_elem? xs j ≡ some x → x ≢ c

-- The answer `k` of a search from `i`: the first place of the byte, or `npos` if there is none.
pub data Answer (s : StringSlice) (c : ℕ) (i : ℕ) : ℕ → Type 0 where
  first :
      (k : ℕ)
      → k < s.len
      → get_elem? s.data_bytes k ≡ some c
      → Absent s.data_bytes c i k
      → Answer s c i k
  nowhere : Absent s.data_bytes c i s.len → Answer s c i npos

module _ (s : StringSlice) (c : ℕ) (v : IsWithin s) where
  find_from-hit :
      (left i x : ℕ)
      → get_elem? s.data_bytes i ≡ some x
      → (x == c) ≡ true
      → find_from s c (suc left) i ≡ ok i
  unfolding find_from
  find_from-hit left i x e hit = rw (byte_at-found s c v i x e, hit)

  find_from-miss :
      (left i x : ℕ)
      → get_elem? s.data_bytes i ≡ some x
      → (x == c) ≡ false
      → find_from s c (suc left) i ≡ find_from s c left (i + 1)
  unfolding find_from
  find_from-miss left i x e miss = rw (byte_at-found s c v i x e, miss)

  not_here :
      (i x : ℕ)
      → get_elem? s.data_bytes i ≡ some x
      → (x == c) ≡ false
      → (j y : ℕ) → i ≤ j
      → get_elem? s.data_bytes j ≡ some y
      → (i + 1 ≤ j → y ≢ c)
      → y ≢ c
  not_here i x e miss j y a g above = elim (dec_lt i j) [
    | yes lt ↦ above (omega arith)
    | no ge ↦
        let same : j ≡ i = omega arith in
        let both : some y ≡ some x = sym g ∙ ap (get_elem? s.data_bytes) same ∙ e in
        λ q. ground (arith, both, miss)
  ]

  later :
      (i x : ℕ) {k : ℕ}
      → get_elem? s.data_bytes i ≡ some x
      → (x == c) ≡ false
      → Answer s c (i + 1) k
      → Answer s c i k
  later i x e miss (first k h f absent) =
      first k h f (λ j y a b g. not_here i x e miss j y a g (λ p. absent j y p b g))
  later i x e miss (nowhere absent) =
      nowhere (λ j y a b g. not_here i x e miss j y a g (λ p. absent j y p b g))

  find_from-Answer :
      (left i : ℕ) → i + left ≡ s.len → (k : ℕ) × (find_from s c left i ≡ ok k) × Answer s c i k
  unfolding find_from
  find_from-Answer zero i h = (npos, refl, nowhere (λ j x a b e. absurd (omega (arith, h))))
  find_from-Answer (suc left) i h =
      let (x, e) = get_elem?-within s.data_bytes i (omega (arith, h, v.inside)) in
      elim (Bool-cases (x == c)) [
        | inl hit ↦ (
          i,
          find_from-hit left i x e hit,
          first i (omega (arith, h)) (e ∙ ap some ((==_iff x c).0 hit))
              (λ j y a b g. absurd (omega (arith, a, b))),
        )
        | inr miss ↦
            let (k, r, a) = find_from-Answer left (i + 1) (omega (arith, h)) in
            (k, find_from-miss left i x e miss ∙ r, later i x e miss a)
      ]

  -- In a slice that lies in its string, the search succeeds and gives the first place of the byte,
  -- or `npos` where the slice has no such byte.
  find-Answer : (k : ℕ) × (find s c ≡ ok k) × Answer s c 0 k
  unfolding find
  find-Answer = find_from-Answer s.len 0 (omega arith)
