-- ===== src/StringSlice/FindSlice/Next.antt =====
-- One step of either loop: from the longest beginning before a place to the one before the next.
use libpotato.Base.{
  ℕ, ◌+◌, ◌-◌, ◌≤◌, ◌≡◌, ◌≢◌, inl, inr, sym, ap, ◌∙◌, subst, some, List, if◌then◌else◌, ◌==◌,
  get_elem?, dec_lt, Bool-cases, ==_iff, arith,
}
use libpotato.StringSlice.{StringSlice}
use libpotato.StringSlice.FindSlice.Borders.{Ends, nothing-Ends, Ends-extend, Ends-shrink}
use libpotato.StringSlice.FindSlice.Table.{IsLongest, Fallen}

module _ (p : StringSlice) where
  -- A beginning that goes on with the byte is at most the one where the inner loop stopped.
  grown :
      (t : List ℕ) (e bound c j k : ℕ)
      → IsLongest p t e bound j
      → Fallen p t e c j k
      → get_elem? t e ≡ some c
      → (m : ℕ) → m ≤ bound
      → Ends p.data_bytes t (e + 1) (m + 1)
      → (m ≤ k) × (get_elem? p.data_bytes m ≡ some c)
  grown t e bound c j k long fallen at_e m h w =
      let (u, b) = Ends-shrink p.data_bytes t e m w in
      let here : get_elem? p.data_bytes m ≡ some c = b ∙ at_e in
      elim (dec_lt k m) [
        | yes lt ↦ absurd (fallen.skipped m (long.most m h u) lt u here)
        | no ge ↦ (omega arith, here)
      ]

  -- The longest beginning before the next place, where the byte goes on and where it does not.
  IsLongest-hit :
      (t : List ℕ) (e bound c j k : ℕ)
      → IsLongest p t e bound j
      → Fallen p t e c j k
      → get_elem? t e ≡ some c
      → get_elem? p.data_bytes k ≡ some c
      → IsLongest p t (e + 1) (bound + 1) (k + 1)
  IsLongest-hit t e bound c j k long fallen at_e at_k = record {
    ends = Ends-extend p.data_bytes t e k fallen.ends (at_k ∙ sym at_e);
    most = λ m h w. elim (dec_lt 0 m) [
      | yes some_byte ↦
          let back : m ≡ m - 1 + 1 = omega arith in
          let (low, here) =
            grown t e bound c j k long fallen at_e (m - 1) (omega (arith, h))
              (subst (λ n. Ends p.data_bytes t (e + 1) n) back w) in
          omega (arith, low, back)
      | no none_left ↦ omega arith
    ];
  }

  IsLongest-miss :
      (t : List ℕ) (e bound c y j k : ℕ)
      → IsLongest p t e bound j
      → Fallen p t e c j k
      → get_elem? t e ≡ some c
      → get_elem? p.data_bytes k ≡ some y
      → y ≢ c
      → IsLongest p t (e + 1) (bound + 1) k
  IsLongest-miss t e bound c y j k long fallen at_e at_k miss =
      let other : get_elem? p.data_bytes k ≢ some c =
        λ q. let both : some y ≡ some c = sym at_k ∙ q in miss (ground (arith, both)) in
      record {
        ends = elim fallen.stops [
          | inl start ↦
              subst (λ n. Ends p.data_bytes t (e + 1) n) (sym start)
                (nothing-Ends p.data_bytes t (e + 1))
          | inr here ↦ absurd (other here)
        ];
        most = λ m h w. elim (dec_lt k m) [
          | yes lt ↦
              let back : m ≡ m - 1 + 1 = omega arith in
              let (low, here) =
                grown t e bound c j k long fallen at_e (m - 1) (omega (arith, h))
                  (subst (λ n. Ends p.data_bytes t (e + 1) n) back w) in
              let same : m - 1 ≡ k = omega (arith, low, back) in
              absurd (other (ap (get_elem? p.data_bytes) (sym same) ∙ here))
          | no ge ↦ omega arith
        ];
      }

  pub Fallen-next :
      (t : List ℕ) (e bound c y j k : ℕ)
      → IsLongest p t e bound j
      → Fallen p t e c j k
      → get_elem? t e ≡ some c
      → get_elem? p.data_bytes k ≡ some y
      → IsLongest p t (e + 1) (bound + 1) (if y == c then k + 1 else k)
  Fallen-next t e bound c y j k long fallen at_e at_k = elim (Bool-cases (y == c)) [
    | inl hit ↦
        rw hit
          (IsLongest-hit t e bound c j k long fallen at_e (at_k ∙ ap some ((==_iff y c).0 hit)))
    | inr miss ↦
        rw miss (IsLongest-miss t e bound c y j k long fallen at_e at_k (ground (arith, miss)))
  ]
