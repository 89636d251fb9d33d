-- ===== src/Endian/Little.antt =====
-- A little-endian machine, as Linux on x86: it meets the laws of `ByteOrder` at every width.
use mathlib.Core.List.{reverse, reverse-cons, reverse-reverse}
use native.Mathlib.Nat.{pow-suc}
use libpotato.Base.{
  ℕ, zero, suc, ◌+◌, ◌*◌, ◌/◌, ◌%◌, ◌^◌, ◌<◌, ◌≡◌, refl, sym, ap, ap₂, ◌∙◌, List, [], ◌∷◌, ◌++◌,
  length, length-append, arith,
}
use libpotato.Endian.{ByteOrder, Platform, big_endian}

little_endian : ℕ → ℕ → List ℕ
little_endian zero x = []
little_endian (suc n) x = x % 256 ∷ little_endian n (x / 256)

value : List ℕ → ℕ
value [] = 0
value (b ∷ bs) = b + 256 * value bs

abbrev AreBytes : List ℕ → Type 0
AreBytes [] = Unit {0}
AreBytes (b ∷ bs) = (b < 256) × AreBytes bs

length-little_endian : (n x : ℕ) → length (little_endian n x) ≡ n
unfolding little_endian
length-little_endian zero x = refl
length-little_endian (suc n) x = ap suc (length-little_endian n (x / 256))

little_endian-AreBytes : (n x : ℕ) → AreBytes (little_endian n x)
unfolding little_endian
little_endian-AreBytes zero x = tt
little_endian-AreBytes (suc n) x = (omega arith, little_endian-AreBytes n (x / 256))

div-lt-pow : (n x : ℕ) → x < 256 ^ suc n → x / 256 < 256 ^ n
div-lt-pow n x h = let k : x < 256 ^ n * 256 = rw (← pow-suc 256 n) h in omega arith

value-little_endian : (n x : ℕ) → x < 256 ^ n → value (little_endian n x) ≡ x
unfolding value little_endian
value-little_endian zero x h = omega arith
value-little_endian (suc n) x h = omega (arith, value-little_endian n (x / 256) (div-lt-pow n x h))

little_endian-value : (bs : List ℕ) → AreBytes bs → little_endian (length bs) (value bs) ≡ bs
unfolding value little_endian
little_endian-value [] h = refl
little_endian-value (b ∷ bs) h =
    ap₂ ◌∷◌ (omega arith)
      (ap (little_endian (length bs)) (omega arith) ∙ little_endian-value bs h.1)

value-lt : (bs : List ℕ) → AreBytes bs → value bs < 256 ^ length bs
unfolding value
value-lt [] h = omega arith
value-lt (b ∷ bs) h = rw (pow-suc 256 (length bs)) (omega (arith, value-lt bs h.1))

reverse-little_endian : (n x : ℕ) → reverse (little_endian n x) ≡ big_endian n x
unfolding little_endian big_endian
reverse-little_endian zero x = refl
reverse-little_endian (suc n) x =
    reverse-cons (x % 256) (little_endian n (x / 256))
    ∙ ap (λ t. t ++ (x % 256 ∷ [])) (reverse-little_endian n (x / 256))

AreBytes-append : (xs ys : List ℕ) → AreBytes xs → AreBytes ys → AreBytes (xs ++ ys)
AreBytes-append [] ys h k = k
AreBytes-append (x ∷ xs) ys h k = (h.0, AreBytes-append xs ys h.1 k)

AreBytes-reverse : (xs : List ℕ) → AreBytes xs → AreBytes (reverse xs)
AreBytes-reverse [] h = tt
AreBytes-reverse (x ∷ xs) h =
    rw (reverse-cons x xs)
      (AreBytes-append (reverse xs) (x ∷ []) (AreBytes-reverse xs h.1) (h.0, tt))

length-reverse : (bytes : List ℕ) → length (reverse bytes) ≡ length bytes
length-reverse [] = refl
length-reverse (b ∷ bs) =
    ap length (reverse-cons b bs)
    ∙ length-append (reverse bs) (b ∷ [])
    ∙ omega (arith, length-reverse bs)

size : (n x : ℕ) → length (reverse (little_endian n x)) ≡ n
size n x = length-reverse (little_endian n x) ∙ length-little_endian n x

-- The word whose bytes are those of `x` in the other order.
swap : ℕ → ℕ → ℕ
swap n x = value (reverse (little_endian n x))

little_endian-swap : (n x : ℕ) → little_endian n (swap n x) ≡ reverse (little_endian n x)
unfolding swap
little_endian-swap n x =
    ap (λ k. little_endian k (value (reverse (little_endian n x)))) (sym (size n x))
    ∙ little_endian-value (reverse (little_endian n x))
        (AreBytes-reverse (little_endian n x) (little_endian-AreBytes n x))

swap-swap : (n x : ℕ) → x < 256 ^ n → swap n (swap n x) ≡ x
unfolding swap
swap-swap n x h =
    ap (λ t. value (reverse t)) (little_endian-swap n x)
    ∙ ap value (reverse-reverse (little_endian n x))
    ∙ value-little_endian n x h

swap-lt : (n x : ℕ) → swap n x < 256 ^ n
unfolding swap
swap-lt n x = rw (size n x) at (
    value-lt (reverse (little_endian n x))
      (AreBytes-reverse (little_endian n x) (little_endian-AreBytes n x)))

pub order : (n : ℕ) → ByteOrder n
order n = record {
  to_memory = little_endian n;
  of_memory = value;
  hton = swap n;
  ntoh = swap n;
  of_memory-to_memory = value-little_endian n;
  hton-lt = λ x _. swap-lt n x;
  ntoh-hton = swap-swap n;
  to_memory-hton = λ x _. little_endian-swap n x ∙ reverse-little_endian n x;
}

abbrev pub x86 : Platform
x86 = record { word16 = order 2; word32 = order 4; word64 = order 8 }
