-- ===== src/StringSlice/FindSlice/Search.antt =====
-- `find(const StringSlice &)` finds the first place where the pattern stands.
use libpotato.Base.{
  ℕ, zero, suc, ◌+◌, ◌-◌, ◌%◌, ◌^◌, ◌≤◌, ◌<◌, ◌≡◌, inl, inr, refl, ap, ◌∙◌, subst, true, false,
  List, ok, if◌then◌else◌, ◌==◌, leb, get_elem?, length-replicate, replicate, Bool-cases, dec_lt,
  ==_iff, arith,
}
use libpotato.StringSlice.{StringSlice, npos, is_empty, byte_at}
use libpotato.StringSlice.Split.{IsWithin, get_elem?-within, byte_at-found}
use libpotato.StringSlice.FindSlice.{char_at, fall, fill_table, search_from, find_slice}
use libpotato.StringSlice.FindSlice.Borders.{Ends, nothing-Ends}
use libpotato.StringSlice.FindSlice.Table.{IsLongest, TableTo, char_at-found, fall-Fallen}
use libpotato.StringSlice.FindSlice.Next.{Fallen-next}
use libpotato.StringSlice.FindSlice.Fill.{fill_table-TableTo, TableTo-start}

-- The bytes of `p` are the bytes of `s` from `k` on.
pub record OccursAt (s p : StringSlice) (k : ℕ) : Type 0 where
  pub fits : k + p.len ≤ s.len
  pub same : (d : ℕ) → d < p.len → get_elem? p.data_bytes d ≡ get_elem? s.data_bytes (k + d)

-- The answer of a search: the first place, or `npos` where there is none or no pattern.
pub data SliceAnswer (s p : StringSlice) : ℕ → Type 0 where
  no_pattern : p.len ≡ 0 → SliceAnswer s p npos
  first : (k : ℕ) → OccursAt s p k → ((j : ℕ) → j < k → ¬ OccursAt s p j) → SliceAnswer s p k
  nowhere : ((j : ℕ) → ¬ OccursAt s p j) → SliceAnswer s p npos

OccursAt-Ends :
    (s p : StringSlice) (k : ℕ) → OccursAt s p k → Ends p.data_bytes s.data_bytes (k + p.len) p.len
OccursAt-Ends s p k o = record {
  within = omega arith;
  same = λ d h. o.same d h ∙ ap (get_elem? s.data_bytes) (omega arith);
}

Ends-OccursAt :
    (s p : StringSlice) (e : ℕ)
    → e ≤ s.len
    → Ends p.data_bytes s.data_bytes e p.len
    → OccursAt s p (e - p.len)
Ends-OccursAt s p e h w = record { fits = omega (arith, h, w.within); same = w.same }

module _ (p : StringSlice) (v : IsWithin p) (s : StringSlice) (u : IsWithin s) where
  search_from-found :
      (next : List ℕ) (left i j c k y : ℕ)
      → byte_at s i ≡ ok c
      → fall p (j + 1) next c j ≡ ok k
      → char_at p k ≡ ok y
      → (y == c) ≡ true
      → leb p.len (k + 1) ≡ true
      → search_from p s next (suc left) i j ≡ ok ((i + 2 ^ 64 - (k + 1) + 1) % 2 ^ 64)
  unfolding search_from
  search_from-found next left i j c k y at_i f at_k hit full = rw (at_i, f, at_k, hit, full)

  search_from-on :
      (next : List ℕ) (left i j c k y : ℕ)
      → byte_at s i ≡ ok c
      → fall p (j + 1) next c j ≡ ok k
      → char_at p k ≡ ok y
      → (y == c) ≡ true
      → leb p.len (k + 1) ≡ false
      → search_from p s next (suc left) i j ≡ search_from p s next left (i + 1) (k + 1)
  unfolding search_from
  search_from-on next left i j c k y at_i f at_k hit more = rw (at_i, f, at_k, hit, more)

  search_from-miss :
      (next : List ℕ) (left i j c k y : ℕ)
      → byte_at s i ≡ ok c
      → fall p (j + 1) next c j ≡ ok k
      → char_at p k ≡ ok y
      → (y == c) ≡ false
      → search_from p s next (suc left) i j ≡ search_from p s next left (i + 1) k
  unfolding search_from
  search_from-miss next left i j c k y at_i f at_k miss = rw (at_i, f, at_k, miss)

  -- What the loop knows before the byte `i`.
  record Searching (i j : ℕ) : Type 0 where
    short : j < p.len
    longest : IsLongest p s.data_bytes i (p.len - 1) j
    none_yet : (m : ℕ) → m + p.len ≤ i → ¬ OccursAt s p m

  Searching-next :
      (i b : ℕ)
      → b < p.len
      → IsLongest p s.data_bytes (i + 1) (p.len - 1 + 1) b
      → ((m : ℕ) → m + p.len ≤ i → ¬ OccursAt s p m)
      → Searching (i + 1) b
  Searching-next i b h long none_yet = record {
    short = h;
    longest = record { ends = long.ends; most = λ k l w. long.most k (omega arith) w };
    none_yet = λ m l o. elim (dec_lt i (m + p.len)) [
      | yes now ↦
          let here : m + p.len ≡ i + 1 = omega (arith, l) in
          let whole : Ends p.data_bytes s.data_bytes (i + 1) p.len =
            subst (λ n. Ends p.data_bytes s.data_bytes n p.len) here (OccursAt-Ends s p m o) in
          absurd (omega (arith, h, long.most p.len (omega (arith, h)) whole))
      | no before ↦ none_yet m (omega arith) o
    ];
  }

  found-SliceAnswer :
      (i k : ℕ)
      → i < s.len
      → k < p.len
      → p.len ≤ k + 1
      → Ends p.data_bytes s.data_bytes (i + 1) (k + 1)
      → ((m : ℕ) → m + p.len ≤ i → ¬ OccursAt s p m)
      → SliceAnswer s p ((i + 2 ^ 64 - (k + 1) + 1) % 2 ^ 64)
  found-SliceAnswer i k inside low full ends none_yet =
      let whole : k + 1 ≡ p.len = omega arith in
      let place : i + 1 - p.len ≡ (i + 2 ^ 64 - (k + 1) + 1) % 2 ^ 64 =
        omega (arith, u.small, ends.within) in
      let occurs =
        Ends-OccursAt s p (i + 1) (omega arith)
          (subst (λ n. Ends p.data_bytes s.data_bytes (i + 1) n) whole ends) in
      subst (λ n. SliceAnswer s p n) place
        (first (i + 1 - p.len) occurs (λ j h. none_yet j (omega (arith, h))))

  -- A round, over the answer of the rounds that follow.
  search_from-step :
      (next : List ℕ) (left i j c k y : ℕ)
      → i < s.len
      → ((m : ℕ) → m + p.len ≤ i → ¬ OccursAt s p m)
      → byte_at s i ≡ ok c
      → fall p (j + 1) next c j ≡ ok k
      → char_at p k ≡ ok y
      → k < p.len
      → IsLongest p s.data_bytes (i + 1) (p.len - 1 + 1) (if y == c then k + 1 else k)
      → ((b : ℕ)
          → Searching (i + 1) b
          → (n : ℕ) × (search_from p s next left (i + 1) b ≡ ok n) × SliceAnswer s p n)
      → (n : ℕ) × (search_from p s next (suc left) i j ≡ ok n) × SliceAnswer s p n
  search_from-step next left i j c k y inside none_yet at_i f at_k low long rest =
      elim (Bool-cases (y == c)) [
        | inl hit ↦
            let grown : IsLongest p s.data_bytes (i + 1) (p.len - 1 + 1) (k + 1) =
              subst (λ b. IsLongest p s.data_bytes (i + 1) (p.len - 1 + 1) (if b then k + 1 else k))
                hit long in
            elim (Bool-cases (leb p.len (k + 1))) [
              | inl full ↦ (
                (i + 2 ^ 64 - (k + 1) + 1) % 2 ^ 64,
                search_from-found next left i j c k y at_i f at_k hit full,
                found-SliceAnswer i k inside low (ground (arith, full)) grown.ends none_yet,
              )
              | inr more ↦
                  let (n, r, a) =
                    rest (k + 1) (Searching-next i (k + 1) (ground (arith, more)) grown none_yet) in
                  (n, search_from-on next left i j c k y at_i f at_k hit more ∙ r, a)
            ]
        | inr miss ↦
            let kept : IsLongest p s.data_bytes (i + 1) (p.len - 1 + 1) k =
              subst (λ b. IsLongest p s.data_bytes (i + 1) (p.len - 1 + 1) (if b then k + 1 else k))
                miss long in
            let (n, r, a) = rest k (Searching-next i k low kept none_yet) in
            (n, search_from-miss next left i j c k y at_i f at_k miss ∙ r, a)
      ]

  search_from-SliceAnswer :
      (next : List ℕ) (left i j : ℕ)
      → TableTo p next p.len
      → i + left ≡ s.len
      → Searching i j
      → (k : ℕ) × (search_from p s next left i j ≡ ok k) × SliceAnswer s p k
  unfolding search_from
  search_from-SliceAnswer next zero i j table sum w =
      (npos, refl, nowhere (λ m o. w.none_yet m (omega (arith, sum, o.fits)) o))
  search_from-SliceAnswer next (suc left) i j table sum w =
      let (c, e_i) = get_elem?-within s.data_bytes i (omega (arith, sum, u.inside)) in
      let at_i = byte_at-found s 0 u i c e_i in
      let (k, f, fallen) =
        fall-Fallen p v (j + 1) next s.data_bytes i c j (omega arith) w.short
          (λ r h. table r (omega (arith, h, w.short))) w.longest.ends in
      let low : k < p.len = omega (arith, fallen.low, w.short) in
      let (y, at_k, e_k) = char_at-found p v k low in
      let long = Fallen-next p s.data_bytes i (p.len - 1) c y j k w.longest fallen e_i e_k in
      search_from-step next left i j c k y (omega (arith, sum)) w.none_yet at_i f at_k low long
        (λ b w'. search_from-SliceAnswer next left (i + 1) b table (omega (arith, sum)) w')

  searched :
      (next : List ℕ)
      → is_empty p ≡ false
      → is_empty s ≡ false
      → fill_table p (p.len - 1) 1 0 (replicate p.len 0) ≡ ok next
      → find_slice p s ≡ search_from p s next s.len 0 0
  unfolding find_slice
  searched next a b e = rw (a, b, e)

  Searching-start : 0 < p.len → Searching 0 0
  Searching-start pos = record {
    short = pos;
    longest = record { ends = nothing-Ends p.data_bytes s.data_bytes 0; most = λ k l w. w.within };
    none_yet = λ m l o. absurd (omega (arith, l));
  }

  -- For a pattern and a slice that lie in their strings, the search ends without a fault: it gives
  -- the first place of the slice where the whole pattern stands, or `npos` where the pattern stands
  -- nowhere in the slice or is empty.
  pub find_slice-SliceAnswer : (k : ℕ) × (find_slice p s ≡ ok k) × SliceAnswer s p k
  unfolding find_slice
  find_slice-SliceAnswer = elim (Bool-cases (is_empty p)) [
    | inl e ↦ (npos, rw e, no_pattern ((==_iff p.len 0).0 e))
    | inr bytes ↦
        let pos : 0 < p.len = ground (arith, bytes) in
        elim (Bool-cases (is_empty s)) [
          | inl e ↦ (npos, rw (bytes, e), nowhere (λ j o. ground (arith, o.fits, pos, e)))
          | inr text ↦
              let (next, f, table) =
                fill_table-TableTo p v (p.len - 1) 1 0 (replicate p.len 0) (omega arith)
                  (omega arith) (omega arith) (length-replicate p.len 0) (TableTo-start p pos)
                  (record { ends = nothing-Ends p.data_bytes p.data_bytes 1; most = λ k l w. l }) in
              let (k, r, a) =
                search_from-SliceAnswer next s.len 0 0 table (omega arith) (Searching-start pos) in
              (k, searched next bytes text f ∙ r, a)
        ]
  ]
