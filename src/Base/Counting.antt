-- ===== src/Base/Counting.antt =====
-- How often a descriptor is in a list.
use Prim.Native.Nat.{ℕ, ◌+◌}
use mathlib.Core.Path.{◌≡◌}
use mathlib.Core.List.{List, [], ◌∷◌, ◌++◌}
use native.Mathlib.Omega.{arith}
use libpotato.Base.Tests.{◌==◌, if◌then◌else◌}

module _ (fd : ℕ) where
  abbrev pub count : List ℕ → ℕ
  count [] = 0
  count (first ∷ others) = (if first == fd then 1 else 0) + count others

  pub count-append : (front back : List ℕ) → count (front ++ back) ≡ count front + count back
  count-append (first ∷ others) back = omega (arith, count-append others back)
  count-append [] back = omega arith
