-- ===== src/StringSlice/Split.antt =====
-- `split`: the pieces joined with the delimiter are the slice, and no piece has the delimiter.
use libpotato.Base.{
  ℕ, zero, suc, ◌+◌, ◌-◌, ◌≤◌, ◌<◌, ◌^◌, ◌≡◌, ◌≢◌, subst, refl, sym, ap, ◌∙◌, inl, inr, true, false,
  some, List, [], ◌∷◌, ◌++◌, append_assoc, map, ok, ◌==◌, length, get_elem?, take, drop, Bool-cases,
  ==_iff, drop-drop, take-nil, arith,
}
use libpotato.StringSlice.{StringSlice, slice, to_string, byte_at, split_from, split}

-- The texts with the delimiter between them.
abbrev pub join : ℕ → List (List ℕ) → List ℕ
join delim [] = []
join delim (x ∷ []) = x
join delim (x ∷ (y ∷ rest)) = x ++ (delim ∷ join delim (y ∷ rest))

abbrev pub Without : ℕ → List ℕ → Type 0
Without c [] = Unit {0}
Without c (x ∷ xs) = (x ≢ c) × Without c xs

abbrev pub AllWithout : ℕ → List (List ℕ) → Type 0
AllWithout c [] = Unit {0}
AllWithout c (x ∷ xs) = Without c x × AllWithout c xs

-- The slice lies in its string, and a `size_t` holds its length.
pub record IsWithin (s : StringSlice) : Type 0 where
  pub inside : s.len ≤ length s.data_bytes
  pub small : s.len < 2 ^ 64

abbrev pub between : List ℕ → ℕ → ℕ → List ℕ
between xs b e = take (e - b) (drop b xs)

pub get_elem?-within : (xs : List ℕ) (i : ℕ) → i < length xs → (x : ℕ) × (get_elem? xs i ≡ some x)
get_elem?-within [] i h = absurd (omega arith)
get_elem?-within (x ∷ xs) zero h = (x, refl)
get_elem?-within (x ∷ xs) (suc i) h = get_elem?-within xs i (omega arith)

take-snoc :
    (xs : List ℕ) (n x : ℕ) → get_elem? xs n ≡ some x → take (suc n) xs ≡ take n xs ++ (x ∷ [])
take-snoc [] n x e = cc
take-snoc (a ∷ xs) zero x e = ground arith
take-snoc (a ∷ xs) (suc n) x e = ap (λ t. a ∷ t) (take-snoc xs n x e)

get_elem?-drop : (xs : List ℕ) (b n : ℕ) → get_elem? (drop b xs) n ≡ get_elem? xs (b + n)
get_elem?-drop xs zero n = ap (get_elem? xs) (omega arith)
get_elem?-drop [] (suc b) zero = refl
get_elem?-drop [] (suc b) (suc n) = refl
get_elem?-drop (x ∷ xs) (suc b) n =
    get_elem?-drop xs b n ∙ ap (get_elem? (x ∷ xs)) {x = suc (b + n)} (omega arith)

-- One byte more.
between-snoc :
    (xs : List ℕ) (b i x : ℕ)
    → b ≤ i
    → get_elem? xs i ≡ some x
    → between xs b (suc i) ≡ between xs b i ++ (x ∷ [])
between-snoc xs b i x h e =
    ap (λ k. take k (drop b xs)) {y = suc (i - b)} (omega arith)
    ∙ take-snoc (drop b xs) (i - b) x
        (get_elem?-drop xs b (i - b) ∙ ap (get_elem? xs) (omega arith) ∙ e)

take-add : (m n : ℕ) (xs : List ℕ) → take (m + n) xs ≡ take m xs ++ take n (drop m xs)
take-add zero n xs = ap (λ k. take k xs) (omega arith)
take-add (suc m) n [] = take-nil (suc m + n) ∙ sym (take-nil n)
take-add (suc m) n (x ∷ xs) =
    ap (λ k. take k (x ∷ xs)) {y = suc (m + n)} (omega arith) ∙ ap (λ t. x ∷ t) (take-add m n xs)

-- Two stretches that meet.
between-append :
    (xs : List ℕ) (b m e : ℕ) → b ≤ m → m ≤ e → between xs b m ++ between xs m e ≡ between xs b e
between-append xs b m e h k =
    ap (λ t. between xs b m ++ take (e - m) t)
      (ap (λ t. drop t xs) {y = b + (m - b)} (omega arith) ∙ sym (drop-drop (m - b) b xs))
    ∙ sym (take-add (m - b) (e - m) (drop b xs))
    ∙ ap (λ t. take t (drop b xs)) (omega arith)

Without-snoc : (c x : ℕ) (xs : List ℕ) → Without c xs → x ≢ c → Without c (xs ++ (x ∷ []))
Without-snoc c x [] h n = (n, tt)
Without-snoc c x (y ∷ xs) h n = (h.0, Without-snoc c x xs h.1 n)

module _ (s : StringSlice) (delim : ℕ) (v : IsWithin s) where
  pub to_string-slice :
      (b e : ℕ) → b ≤ e → e ≤ s.len → to_string (slice s b (e - b)) ≡ between s.data_bytes b e
  unfolding to_string slice
  to_string-slice b e h k = ap (λ t. take t (drop b s.data_bytes)) (omega (arith, v.small))

  -- What the loop gives from a piece that begins at `begin` and has had no delimiter.
  abbrev Pieces : ℕ → List StringSlice → Type 0
  Pieces begin ps =
      (join delim (map to_string ps) ≡ between s.data_bytes begin s.len)
      × AllWithout delim (map to_string ps)

  pub byte_at-found : (i x : ℕ) → get_elem? s.data_bytes i ≡ some x → byte_at s i ≡ ok x
  unfolding byte_at
  byte_at-found i x e = rw (byte_at, e)

  split_from-hit :
      (left i begin x : ℕ) (rest : List StringSlice)
      → get_elem? s.data_bytes i ≡ some x
      → (x == delim) ≡ true
      → split_from s delim left (i + 1) (i + 1) ≡ ok rest
      → split_from s delim (suc left) i begin ≡ ok (slice s begin (i - begin) ∷ rest)
  unfolding split_from
  split_from-hit left i begin x rest e hit r = rw (byte_at-found i x e, hit, r)

  split_from-miss :
      (left i begin x : ℕ)
      → get_elem? s.data_bytes i ≡ some x
      → (x == delim) ≡ false
      → split_from s delim (suc left) i begin ≡ split_from s delim left (i + 1) begin
  unfolding split_from
  split_from-miss left i begin x e miss = rw (byte_at-found i x e, miss)

  -- The stretch up to the end, around a delimiter.
  around :
      (i begin x : ℕ)
      → begin ≤ i
      → i < s.len
      → get_elem? s.data_bytes i ≡ some x
      → between s.data_bytes begin i ++ (x ∷ between s.data_bytes (i + 1) s.len)
        ≡ between s.data_bytes begin s.len
  around i begin x h k e =
      sym
        (append_assoc (between s.data_bytes begin i) (x ∷ []) (between s.data_bytes (i + 1) s.len))
      ∙ ap (λ t. t ++ between s.data_bytes (i + 1) s.len)
          (sym (between-snoc s.data_bytes begin i x h e)
            ∙ ap (between s.data_bytes begin) {y = i + 1} (omega arith))
      ∙ between-append s.data_bytes begin (i + 1) s.len (omega arith) (omega arith)

  split_from-Pieces :
      (left i begin : ℕ)
      → begin ≤ i
      → i + left ≡ s.len
      → Without delim (between s.data_bytes begin i)
      → (p : StringSlice) × (ps : List StringSlice) × (split_from s delim left i begin
          ≡ ok (p ∷ ps))
        × Pieces begin (p ∷ ps)
  unfolding split_from
  split_from-Pieces zero i begin h k w =
      let last = to_string-slice begin s.len (omega (arith, h, k)) (omega arith) in
      let same : i ≡ s.len = omega (arith, k) in
      (
        slice s begin (s.len - begin),
        [],
        refl,
        (last, (subst (Without delim) (ap (between s.data_bytes begin) same ∙ sym last) w, tt)),
      )
  split_from-Pieces (suc left) i begin h k w =
      let (x, e) = get_elem?-within s.data_bytes i (omega (arith, k, v.inside)) in
      elim (Bool-cases (x == delim)) [
        | inl hit ↦
            let same : x ≡ delim = (==_iff x delim).0 hit in
            let none_yet : between s.data_bytes (i + 1) (i + 1) ≡ [] =
              ap (λ t. take t (drop (i + 1) s.data_bytes)) {y = 0} (omega arith) in
            let (p, ps, r, (j, all)) =
              split_from-Pieces left (i + 1) (i + 1) (omega arith) (omega (arith, k))
                (subst (Without delim) (sym none_yet) tt) in
            let piece = to_string-slice begin i h (omega (arith, k)) in
            (
              slice s begin (i - begin),
              p ∷ ps,
              split_from-hit left i begin x (p ∷ ps) e hit r,
              (
                ap (λ t. t ++ (delim ∷ join delim (to_string p ∷ map to_string ps))) piece
                    ∙ ap (λ t. between s.data_bytes begin i ++ (delim ∷ t)) j
                    ∙ ap
                        (λ t.
                          between s.data_bytes begin i ++ (t ∷ between s.data_bytes (i + 1) s.len))
                        (sym same)
                    ∙ around i begin x h (omega (arith, k)) e,
                (subst (Without delim) (sym piece) w, all),
              ),
            )
        | inr miss ↦
            let on : between s.data_bytes begin (i + 1) ≡ between s.data_bytes begin i ++ (x ∷ []) =
              ap (between s.data_bytes begin) {y = suc i} (omega arith)
              ∙ between-snoc s.data_bytes begin i x h e in
            let (p, ps, r, good) =
              split_from-Pieces left (i + 1) begin (omega (arith, h)) (omega (arith, k)) (
                subst (Without delim) (sym on)
                  (Without-snoc delim x (between s.data_bytes begin i) w (λ q. ground arith))) in
            (p, ps, split_from-miss left i begin x e miss ∙ r, good)
      ]

  split-loop : 0 < s.len → split s delim ≡ split_from s delim s.len 0 0
  unfolding split
  split-loop h = ground arith

  -- A slice that is not empty and lies in its string is split into pieces without the delimiter,
  -- and these joined with the delimiter are the slice again.
  pub split-join :
      0 < s.len
      → (ps : List StringSlice) × (split s delim ≡ ok ps)
        × (join delim (map to_string ps) ≡ to_string s)
        × AllWithout delim (map to_string ps)
  unfolding to_string
  split-join h =
      let (p, ps, e, (j, all)) = split_from-Pieces s.len 0 0 (omega arith) (omega arith) tt in
      (p ∷ ps, split-loop h ∙ e, j ∙ whole, all)
    where
      whole : between s.data_bytes 0 s.len ≡ to_string s
      whole = ap (λ n. take n s.data_bytes) (omega arith)
