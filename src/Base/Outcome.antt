-- ===== src/Base/Outcome.antt =====
-- How a call of the library ends: with a result, or by a fault that stops the process.
use mathlib.Core.Path.{◌≡◌, refl}
use mathlib.Core.Logic.{◌⊎◌, inl, inr}
use mathlib.Core.Bool.{Bool, true, false}

-- An `assert` that fails, a null pointer that is read, an index out of range, a `std::vector` that
-- throws `length_error`, a call of `abort`, a loop that does not end.
pub data Fault : Type 0 where
  assertion null_pointer out_of_range length_error aborted endless : Fault

pub data Result {ℓ} (A : Type ℓ) : Type ℓ where
  err : Fault → Result A
  ok : A → Result A

-- `assert(test)`.
abbrev pub guard : Bool → Fault → Result (Unit {0})
guard false fault = err fault
guard true fault = ok tt

infixl 5 ◌>>=◌
-- A fault ends the whole call.
abbrev pub ◌>>=◌ {ℓ κ} : {A : Type ℓ} {C : Type κ} → Result A → (A → Result C) → Result C
err fault >>= next = err fault
ok result >>= next = next result

infixl 5 ◌>>◌
abbrev pub ◌>>◌ {ℓ κ} : {A : Type ℓ} {C : Type κ} → Result A → Result C → Result C
first >> second = first >>= (λ _. second)

pub >>=-eq-ok {ℓ κ} :
    {A : Type ℓ} {C : Type κ} (m : Result A) (f : A → Result C) {c : C}
    → (m >>= f) ≡ ok c
    → (a : A) × (m ≡ ok a) × (f a ≡ ok c)
>>=-eq-ok (err fault) f h = cc
>>=-eq-ok (ok result) f h = (result, refl, h)

pub Result-cases {ℓ} :
    {A : Type ℓ} (r : Result A) → ((a : A) × (r ≡ ok a)) ⊎ ((e : Fault) × (r ≡ err e))
Result-cases (ok a) = inl (a, refl)
Result-cases (err e) = inr (e, refl)
