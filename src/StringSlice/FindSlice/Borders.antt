-- ===== src/StringSlice/FindSlice/Borders.antt =====
-- Where a pattern's beginning stands before a place of a text.
use libpotato.Base.{ℕ, ◌+◌, ◌-◌, ◌≤◌, ◌<◌, ◌≡◌, sym, ap, ◌∙◌, List, get_elem?, dec_lt, arith}

-- The first `k` bytes of the pattern `p` are the `k` bytes of `t` before the place `e`.
pub record Ends (p t : List ℕ) (e k : ℕ) : Type 0 where
  pub within : k ≤ e
  pub same : (d : ℕ) → d < k → get_elem? p d ≡ get_elem? t (e - k + d)

at : (t : List ℕ) {i j : ℕ} → i ≡ j → get_elem? t i ≡ get_elem? t j
at t h = ap (get_elem? t) h

pub nothing-Ends : (p t : List ℕ) (e : ℕ) → Ends p t e 0
nothing-Ends p t e = record { within = omega arith; same = λ d h. absurd (omega arith) }

-- One byte more on both sides.
pub Ends-extend :
    (p t : List ℕ) (e k : ℕ)
    → Ends p t e k
    → get_elem? p k ≡ get_elem? t e
    → Ends p t (e + 1) (k + 1)
Ends-extend p t e k w b = record {
  within = omega (arith, w.within);
  same = λ d h. elim (dec_lt d k) [
    | yes lt ↦ w.same d lt ∙ at t (omega (arith, w.within))
    | no ge ↦ let last : d ≡ k = omega arith in at p last ∙ b ∙ at t (omega (arith, w.within, last))
  ];
}

-- One byte less.
pub Ends-shrink :
    (p t : List ℕ) (e k : ℕ)
    → Ends p t (e + 1) (k + 1)
    → Ends p t e k × (get_elem? p k ≡ get_elem? t e)
Ends-shrink p t e k w = (
  record {
    within = omega (arith, w.within);
    same = λ d h. w.same d (omega arith) ∙ at t (omega (arith, w.within));
  },
  w.same k (omega arith) ∙ at t (omega (arith, w.within)),
)

-- Of two beginnings that stand before one place, the shorter stands at the end of the longer,
pub Ends-border : (p t : List ℕ) (e j k : ℕ) → k ≤ j → Ends p t e j → Ends p t e k → Ends p p j k
Ends-border p t e j k h w v = record {
  within = h;
  same =
      λ d l. v.same d l ∙ at t (omega (arith, w.within)) ∙ sym (w.same (j - k + d) (omega arith));
}

-- and what stands at the end of the longer stands before the place.
pub Ends-trans : (p t : List ℕ) (e j k : ℕ) → Ends p t e j → Ends p p j k → Ends p t e k
Ends-trans p t e j k w v = record {
  within = omega (arith, w.within, v.within);
  same = λ d l.
      v.same d l
      ∙ w.same (j - k + d) (omega (arith, v.within))
      ∙ at t (omega (arith, w.within, v.within));
}
