-- ===== src/Base/Decimal.antt =====
-- A number printed in decimal, as `%u` does: the characters' codes.
use Prim.Native.Nat.{ℕ, zero, suc, ◌+◌, ◌-◌, ◌*◌, ◌/◌, ◌%◌, ◌≤◌, ◌<◌, ◌^◌}
use mathlib.Core.Path.{◌≡◌, refl}
use mathlib.Core.List.{List, [], ◌∷◌, ◌++◌}
use native.Mathlib.Nat.{pow-suc}
use native.Mathlib.Omega.{arith}
use libpotato.Base.Tests.{ltb, if◌then◌else◌}
use libpotato.Base.Lists.{length, length-append}

-- With one round for each digit.
unfoldable pub decimal_digits : ℕ → ℕ → List ℕ
decimal_digits zero n = []
decimal_digits (suc f) n =
    let high = decimal_digits f (n / 10) in
    if ltb n 10 then (b'0' + n) ∷ [] else high ++ ((b'0' + n % 10) ∷ [])

-- A port has at most five digits; twenty are enough for 64 bits.
unfoldable pub decimal : ℕ → List ℕ
unfolding decimal_digits
decimal n = decimal_digits 20 n

-- The number that a text of digits stands for.
unfoldable pub decimal_value : ℕ → List ℕ → ℕ
decimal_value acc [] = acc
decimal_value acc (c ∷ cs) = decimal_value (acc * 10 + (c - b'0')) cs

decimal_value-append :
    (acc : ℕ) (xs : List ℕ) (c : ℕ)
    → decimal_value acc (xs ++ (c ∷ [])) ≡ decimal_value acc xs * 10 + (c - b'0')
unfolding decimal_value
decimal_value-append acc [] c = refl
decimal_value-append acc (x ∷ xs) c = decimal_value-append (acc * 10 + (x - b'0')) xs c

decimal_digits-value : (f n : ℕ) → n < 10 ^ f → decimal_value 0 (decimal_digits f n) ≡ n
unfolding decimal_digits decimal_value
decimal_digits-value zero n h = omega arith
decimal_digits-value (suc f) n h =
    let k : n < 10 ^ f * 10 = rw (← pow-suc 10 f) h in
    ground (
      arith,
      decimal_value-append 0 (decimal_digits f (n / 10)) (b'0' + n % 10),
      decimal_digits-value f (n / 10),
    )

-- A printed number of up to twenty digits reads back.
pub decimal-value : (n : ℕ) → n < 2 ^ 64 → decimal_value 0 (decimal n) ≡ n
unfolding decimal
decimal-value n h = decimal_digits-value 20 n (omega arith)

decimal_digits-length : (f n k : ℕ) → 0 < k → n < 10 ^ k → length (decimal_digits f n) ≤ k
unfolding decimal_digits
decimal_digits-length zero n k p h = omega arith
decimal_digits-length (suc f) n zero p h = absurd (omega arith)
decimal_digits-length (suc f) n (suc zero) p h = let l : n < 10 = omega arith in ground arith
decimal_digits-length (suc f) n (suc (suc k)) p h =
    let l : n < 10 ^ suc k * 10 = rw (← pow-suc 10 (suc k)) h in
    ground (
      arith,
      length-append (decimal_digits f (n / 10)) ((b'0' + n % 10) ∷ []),
      decimal_digits-length f (n / 10) (suc k),
    )

pub length-decimal : (n k : ℕ) → 0 < k → n < 10 ^ k → length (decimal n) ≤ k
unfolding decimal
length-decimal n k p h = decimal_digits-length 20 n k p h
