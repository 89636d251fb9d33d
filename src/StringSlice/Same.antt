-- ===== src/StringSlice/Same.antt =====
-- `==`: two slices are the same if and only if their texts are.
use libpotato.Base.{
  some, get_elem?, drop, ℕ, zero, suc, ◌≤◌, ◌≡◌, ◌↔◌, refl, ap, inl, inr, Bool, true, false, not,
  List, [], ◌∷◌, ok, ◌==◌, length, take, length-take, Bool-cases, ==_iff, arith,
}
use libpotato.StringSlice.{StringSlice, to_string, memcmp_is_zero, same_slice, other_slice}
use libpotato.StringSlice.Split.{IsWithin}

heads :
    (x y : ℕ) (xs ys : List ℕ) (n : ℕ)
    → (x == y) ≡ false
    → ¬ (take (suc n) (x ∷ xs) ≡ take (suc n) (y ∷ ys))
heads x y xs ys n differs t =
    let both : some x ≡ some y = ap (λ l. get_elem? l 0) t in ground (arith, both, differs)

memcmp_is_zero_iff :
    (n : ℕ) (xs ys : List ℕ)
    → n ≤ length xs
    → n ≤ length ys
    → (b : Bool) × (memcmp_is_zero n xs ys ≡ ok b) × ((b ≡ true) ↔ (take n xs ≡ take n ys))
unfolding memcmp_is_zero
memcmp_is_zero_iff zero xs ys h g = (true, refl, (λ e. refl, λ e. refl))
memcmp_is_zero_iff (suc n) [] ys h g = absurd (omega arith)
memcmp_is_zero_iff (suc n) (x ∷ xs) [] h g = absurd (omega arith)
memcmp_is_zero_iff (suc n) (x ∷ xs) (y ∷ ys) h g = elim (Bool-cases (x == y)) [
  | inl same ↦
      let (b, e, i) = memcmp_is_zero_iff n xs ys (omega arith) (omega arith) in
      let head : x ≡ y = (==_iff x y).0 same in
      (b, rw (same, e), (λ t. rw (head, i.0 t), λ t. i.1 (ap (drop 1) t)))
  | inr differs ↦ (false, rw differs, (λ t. cc, λ t. absurd (heads x y xs ys n differs t)))
]

-- For two slices that lie in their strings: `==` ends without a fault, and says yes if and only if the
-- texts are the same; `!=` says the contrary.
pub same_slice_iff :
    (a b : StringSlice)
    → IsWithin a
    → IsWithin b
    → (r : Bool) × (same_slice a b ≡ ok r)
      × (other_slice a b ≡ ok (not r))
      × ((r ≡ true) ↔ (to_string a ≡ to_string b))
unfolding same_slice other_slice to_string
same_slice_iff a b v w = elim (Bool-cases (a.len == b.len)) [
  | inl same ↦
      let len : a.len ≡ b.len = (==_iff a.len b.len).0 same in
      let (r, e, i) =
        memcmp_is_zero_iff b.len a.data_bytes b.data_bytes (omega (arith, v.inside, len))
          w.inside in
      (r, rw (same, e), rw (same, e), rw len i)
  | inr differs ↦
      (false, rw differs, rw differs, (λ t. cc, λ t. absurd (lengths a b v w differs t)))
]
  where
    lengths :
        (a b : StringSlice)
        → IsWithin a
        → IsWithin b
        → (a.len == b.len) ≡ false
        → ¬ (take a.len a.data_bytes ≡ take b.len b.data_bytes)
    lengths a b v w differs t = ground (
      arith,
      v.inside,
      w.inside,
      differs,
      ap (λ l. length l) t,
      length-take a.len a.data_bytes,
      length-take b.len b.data_bytes,
    )
