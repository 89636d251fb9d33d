-- ===== src/StringSlice/Trim.antt =====
-- `trim`: the slice without the delimiters at its two ends.
use libpotato.Base.{
  ℕ, zero, suc, ◌+◌, ◌-◌, ◌≤◌, ◌<◌, ◌≡◌, ◌≢◌, refl, sym, ap, ◌∙◌, subst, inl, inr, true, false,
  ◌||◌, some, [], ok, ◌==◌, get_elem?, take, drop, Bool-cases, ==_iff, dec_lt, arith,
}
use libpotato.StringSlice.{StringSlice, of_string, slice, to_string, trim_front, trim_back, trim}
use libpotato.StringSlice.Split.{
  IsWithin, between, get_elem?-within, byte_at-found, to_string-slice,
}

-- `t` has the bytes of `s` from `from` to before `to`: those outside are all `c`, and, unless there
-- are none, the first and the last are not.
pub record Trimmed (s : StringSlice) (c : ℕ) (t : StringSlice) : Type 0 where
  pub from : ℕ
  pub to : ℕ
  pub order : (from ≤ to) × (to ≤ s.len)
  pub text : to_string t ≡ between s.data_bytes from to
  pub before : (i : ℕ) → i < from → get_elem? s.data_bytes i ≡ some c
  pub after : (i : ℕ) → to ≤ i → i < s.len → get_elem? s.data_bytes i ≡ some c
  pub edges :
      from < to
      → (get_elem? s.data_bytes from ≢ some c) × (get_elem? s.data_bytes (to - 1) ≢ some c)

module _ (s : StringSlice) (c : ℕ) (v : IsWithin s) where
  differs :
      (i x : ℕ)
      → get_elem? s.data_bytes i ≡ some x
      → (x == c) ≡ false
      → get_elem? s.data_bytes i ≢ some c
  differs i x e n q = let both : some x ≡ some c = sym e ∙ q in ground (arith, both, n)

  -- One more place that is `c`, above or below.
  all_to :
      (i : ℕ)
      → ((j : ℕ) → j < i → get_elem? s.data_bytes j ≡ some c)
      → get_elem? s.data_bytes i ≡ some c
      → (j : ℕ) → j < i + 1
      → get_elem? s.data_bytes j ≡ some c
  all_to i all here j h = elim (dec_lt j i) [
    | yes lt ↦ all j lt
    | no ge ↦ let same : j ≡ i = omega arith in ap (get_elem? s.data_bytes) same ∙ here
  ]

  all_from :
      (i : ℕ)
      → ((j : ℕ) → i < j → j < s.len → get_elem? s.data_bytes j ≡ some c)
      → get_elem? s.data_bytes i ≡ some c
      → (j : ℕ) → i ≤ j
      → j < s.len
      → get_elem? s.data_bytes j ≡ some c
  all_from i all here j h l = elim (dec_lt i j) [
    | yes lt ↦ all j lt l
    | no ge ↦ let same : j ≡ i = omega (arith, h) in ap (get_elem? s.data_bytes) same ∙ here
  ]

  trim_front-hit :
      (left i x : ℕ)
      → get_elem? s.data_bytes i ≡ some x
      → (x == c) ≡ true
      → trim_front s c (suc left) i ≡ trim_front s c left (i + 1)
  unfolding trim_front
  trim_front-hit left i x e h = rw (byte_at-found s c v i x e, h)

  trim_front-miss :
      (left i x : ℕ)
      → get_elem? s.data_bytes i ≡ some x
      → (x == c) ≡ false
      → trim_front s c (suc left) i ≡ ok i
  unfolding trim_front
  trim_front-miss left i x e h = rw (byte_at-found s c v i x e, h)

  trim_back-hit :
      (left i x : ℕ)
      → get_elem? s.data_bytes i ≡ some x
      → (x == c) ≡ true
      → trim_back s c (suc left) i ≡ trim_back s c left (i - 1)
  unfolding trim_back
  trim_back-hit left i x e h = rw (byte_at-found s c v i x e, h)

  trim_back-miss :
      (left i x : ℕ)
      → get_elem? s.data_bytes i ≡ some x
      → (x == c) ≡ false
      → trim_back s c (suc left) i ≡ ok i
  unfolding trim_back
  trim_back-miss left i x e h = rw (byte_at-found s c v i x e, h)

  trim_front-first :
      (left i : ℕ)
      → i + left ≡ s.len
      → ((j : ℕ) → j < i → get_elem? s.data_bytes j ≡ some c)
      → (f : ℕ) × (trim_front s c left i ≡ ok f)
        × (f ≤ s.len)
        × ((j : ℕ) → j < f → get_elem? s.data_bytes j ≡ some c)
        × (f < s.len → get_elem? s.data_bytes f ≢ some c)
  unfolding trim_front
  trim_front-first zero i sum all =
      (i, refl, omega (arith, sum), all, λ h. absurd (omega (arith, h, sum)))
  trim_front-first (suc left) i sum all =
      let (x, e) = get_elem?-within s.data_bytes i (omega (arith, sum, v.inside)) in
      elim (Bool-cases (x == c)) [
        | inl hit ↦
            let here = e ∙ ap some ((==_iff x c).0 hit) in
            let (f, r, low, before, edge) =
              trim_front-first left (i + 1) (omega (arith, sum)) (all_to i all here) in
            (f, trim_front-hit left i x e hit ∙ r, low, before, edge)
        | inr miss ↦
            (i, trim_front-miss left i x e miss, omega (arith, sum), all, λ h. differs i x e miss)
      ]

  trim_back-last :
      (left front back : ℕ)
      → front + left ≡ back
      → back < s.len
      → get_elem? s.data_bytes front ≢ some c
      → ((j : ℕ) → back < j → j < s.len → get_elem? s.data_bytes j ≡ some c)
      → (b : ℕ) × (trim_back s c left back ≡ ok b)
        × (front ≤ b)
        × (b < s.len)
        × ((j : ℕ) → b < j → j < s.len → get_elem? s.data_bytes j ≡ some c)
        × (get_elem? s.data_bytes b ≢ some c)
  unfolding trim_back
  trim_back-last zero front back sum h edge all =
      let same : front ≡ back = omega (arith, sum) in
      (
        back,
        refl,
        omega (arith, sum),
        h,
        all,
        subst (λ n. get_elem? s.data_bytes n ≢ some c) same edge,
      )
  trim_back-last (suc left) front back sum h edge all =
      let (x, e) = get_elem?-within s.data_bytes back (omega (arith, h, v.inside)) in
      elim (Bool-cases (x == c)) [
        | inl hit ↦
            let here = e ∙ ap some ((==_iff x c).0 hit) in
            let (b, r, over, in_b, after, last) =
              trim_back-last left front (back - 1) (omega (arith, sum)) (omega (arith, h)) edge
                (λ j k l. all_from back all here j (omega (arith, k)) l) in
            (b, trim_back-hit left back x e hit ∙ r, over, in_b, after, last)
        | inr miss ↦ (
          back,
          trim_back-miss left back x e miss,
          omega (arith, sum),
          h,
          all,
          differs back x e miss,
        )
      ]

  trim-none :
      (f : ℕ)
      → trim_front s c s.len 0 ≡ ok f
      → (s.len == 0 || f == s.len) ≡ true
      → trim s c ≡ ok (of_string [])
  unfolding trim
  trim-none f e n = rw (e, n)

  trim-some :
      (f b : ℕ)
      → trim_front s c s.len 0 ≡ ok f
      → (s.len == 0 || f == s.len) ≡ false
      → trim_back s c (s.len - 1 - f) (s.len - 1) ≡ ok b
      → trim s c ≡ ok (slice s f (b - f + 1))
  unfolding trim
  trim-some f b e n g = rw (e, n, g)

  slice-Trimmed :
      (f b : ℕ)
      → f ≤ b
      → b < s.len
      → ((i : ℕ) → i < f → get_elem? s.data_bytes i ≡ some c)
      → get_elem? s.data_bytes f ≢ some c
      → ((i : ℕ) → b < i → i < s.len → get_elem? s.data_bytes i ≡ some c)
      → get_elem? s.data_bytes b ≢ some c
      → Trimmed s c (slice s f (b - f + 1))
  slice-Trimmed f b over in_b before edge after last = record {
    from = f;
    to = b + 1;
    order = (omega arith, omega arith);
    text =
        ap (λ n. to_string (slice s f n)) {x = b - f + 1} {y = b + 1 - f} (omega arith)
        ∙ to_string-slice s c v f (b + 1) (omega arith) (omega arith);
    before = before;
    after = λ i h l. after i (omega (arith, h)) l;
    edges = λ h. (edge, subst (λ n. get_elem? s.data_bytes n ≢ some c) {x = b} (omega arith) last);
  }

  -- In a slice that lies in its string, `trim` ends without a fault. Its result has the bytes of the
  -- slice between two places: all bytes outside are the delimiter, and the first and the last byte
  -- inside, if there are any, are not.
  pub trim-Trimmed : (t : StringSlice) × (trim s c ≡ ok t) × Trimmed s c t
  unfolding to_string of_string
  trim-Trimmed =
      let (f, e, low, before, edge) =
        trim_front-first s.len 0 (omega arith) (λ j h. absurd (omega (arith, h))) in
      elim (Bool-cases (s.len == 0 || f == s.len)) [
        | inl nothing ↦
            let whole : f ≡ s.len = ground (arith, low, nothing) in
            (
              of_string [],
              trim-none f e nothing,
              record {
                from = f;
                to = f;
                order = (omega arith, low);
                text = ap (λ n. take n (drop f s.data_bytes)) {x = 0} (omega arith);
                before = before;
                after = λ i h l. absurd (omega (arith, h, l, whole));
                edges = λ h. absurd (omega (arith, h));
              },
            )
        | inr some_left ↦
            let inside : f < s.len = ground (arith, low, some_left) in
            let (b, g, over, in_b, after, last) =
              trim_back-last (s.len - 1 - f) f (s.len - 1) (omega (arith, inside))
                (omega (arith, inside)) (edge inside) (λ j h l. absurd (omega (arith, h, l))) in
            (
              slice s f (b - f + 1),
              trim-some f b e some_left g,
              slice-Trimmed f b over in_b before (edge inside) after last,
            )
      ]
