-- ===== src/SpinLock/Exclusion.antt =====
-- At most one thread stands behind the lock.
use libpotato.Base.{
  ℕ, ◌≡◌, refl, sym, ap, ◌∙◌, subst, Bool, true, false, ◌⊎◌, inl, inr, if◌then◌else◌, ◌==◌,
  Bool-cases, ==_iff,
}
use libpotato.SpinLock.{
  Place, Shared, Step, Reach, outside, spinning, entered, loaded, stored, move, lock_round, load,
  store, unlock, guard_begin, begins, tries, loads, stores, ends, stop, step, idle,
}

module _ (Op A : Type 0) where
  -- Between `lock` and `unlock`.
  abbrev pub Holds : Place Op A → Type 0
  Holds outside = ⊥
  Holds (spinning op) = ⊥
  Holds (entered op) = Unit {0}
  Holds (loaded op a) = Unit {0}
  Holds stored = Unit {0}

  -- The flag is clear and nobody is behind the lock, or it is set and one thread alone is.
  pub data Owner (flag : Bool) (place : ℕ → Place Op A) : Type 0 where
    nobody : flag ≡ false → ((t : ℕ) → ¬ Holds (place t)) → Owner flag place
    one :
        (t : ℕ)
        → flag ≡ true
        → Holds (place t)
        → ((i : ℕ) → Holds (place i) → i ≡ t)
        → Owner flag place

  -- What a thread has read under the lock is still the value.
  abbrev pub Fresh : A → Place Op A → Type 0
  Fresh v outside = Unit {0}
  Fresh v (spinning op) = Unit {0}
  Fresh v (entered op) = Unit {0}
  Fresh v (loaded op a) = a ≡ v
  Fresh v stored = Unit {0}

  pub Fresh-free : (v : A) (p : Place Op A) → ¬ Holds p → Fresh v p
  Fresh-free v outside h = tt
  Fresh-free v (spinning op) h = tt
  Fresh-free v (entered op) h = tt
  Fresh-free v (loaded op a) h = absurd (h tt)
  Fresh-free v stored h = tt

  module _ (P : Place Op A → Type 0) (place : ℕ → Place Op A) (t : ℕ) (p : Place Op A) where
    pub moved : P p → P (move Op A place t p t)
    moved h = subst P (sym (ap (λ b. if b then p else place t) ((==_iff t t).1 refl))) h

    pub moved-back :
        (i : ℕ) → (i ≡ t → P p) → ((i == t) ≡ false → P (place i)) → P (move Op A place t p i)
    moved-back i this others = elim (Bool-cases (i == t)) [
      | inl same ↦
          subst P (sym (ap (λ b. if b then p else place i) same)) (this ((==_iff i t).0 same))
      | inr n ↦ subst P (sym (ap (λ b. if b then p else place i) n)) (others n)
    ]

    moved-cases : (i : ℕ) → P (move Op A place t p i) → ((i ≡ t) × P p) ⊎ P (place i)
    moved-cases i h = elim (Bool-cases (i == t)) [
      | inl same ↦ inl ((==_iff i t).0 same, subst P (ap (λ b. if b then p else place i) same) h)
      | inr n ↦ inr (subst P (ap (λ b. if b then p else place i) n) h)
    ]

  Place-Holds :
      (place : ℕ → Place Op A) (t : ℕ) (p : Place Op A) → place t ≡ p → Holds p → Holds (place t)
  Place-Holds place t p e h = subst Holds (sym e) h

  -- A thread that moves outside of the lock,
  Owner-aside :
      (flag : Bool) (place : ℕ → Place Op A) (t : ℕ) (p : Place Op A)
      → ¬ Holds (place t)
      → ¬ Holds p
      → Owner flag place
      → Owner flag (move Op A place t p)
  Owner-aside flag place t p was is (nobody f free) =
      nobody f
        (λ i h. elim (moved-cases Holds place t p i h) [ inl (e, q) ↦ is q | inr q ↦ free i q ])
  Owner-aside flag place t p was is (one u f h alone) =
      one u f
        (moved-back Holds place t p u (λ e. absurd (was (subst (λ i. Holds (place i)) e h)))
          (λ n. h))
        (λ i q. elim (moved-cases Holds place t p i q) [
          | inl (e, r) ↦ absurd (is r)
          | inr r ↦ alone i r
        ])

  -- and one that moves behind it.
  Owner-keep :
      (flag : Bool) (place : ℕ → Place Op A) (t : ℕ) (p : Place Op A)
      → Holds (place t)
      → Holds p
      → Owner flag place
      → Owner flag (move Op A place t p)
  Owner-keep flag place t p was is (nobody f free) = absurd (free t was)
  Owner-keep flag place t p was is (one u f h alone) = one t f (moved Holds place t p is) (λ i q.
      elim (moved-cases Holds place t p i q) [
        | inl (e, r) ↦ e
        | inr r ↦ alone i r ∙ sym (alone t was)
      ])

  -- A thread takes the lock where the flag was clear,
  Owner-take :
      (place : ℕ → Place Op A) (t : ℕ) (p : Place Op A)
      → Holds p
      → Owner false place
      → Owner true (move Op A place t p)
  Owner-take place t p is (nobody f free) =
      one t refl (moved Holds place t p is) (λ i q. elim (moved-cases Holds place t p i q) [
        | inl (e, r) ↦ e
        | inr r ↦ absurd (free i r)
      ])
  Owner-take place t p is (one u f h alone) = cc

  -- and gives it back.
  Owner-give :
      (flag : Bool) (place : ℕ → Place Op A) (t : ℕ) (p : Place Op A)
      → Holds (place t)
      → ¬ Holds p
      → Owner flag place
      → Owner false (move Op A place t p)
  Owner-give flag place t p was is (nobody f free) = absurd (free t was)
  Owner-give flag place t p was is (one u f h alone) = nobody refl (λ i q.
      elim (Bool-cases (i == t)) [
        | inl same ↦ is (subst Holds (ap (λ b. if b then p else place i) same) q)
        | inr n ↦
            let r : Holds (place i) = subst Holds (ap (λ b. if b then p else place i) n) q in
            let e : i ≡ t = alone i r ∙ sym (alone t was) in cc ((==_iff i t).1 e, n)
      ])

  module _ (run : Op → A → A) where
    lock_round-Owner :
        (t : ℕ) (op : Op) (s : Shared Op A)
        → Owner s.flag s.place
        → Owner (lock_round Op A run t op s).flag (lock_round Op A run t op s).place
    unfolding lock_round
    lock_round-Owner t op s o = elim (Bool-cases s.flag) [
      | inl taken ↦ rw taken (subst (λ b. Owner b s.place) taken o)
      | inr free ↦
          rw free (Owner-take s.place t (entered op) tt (subst (λ b. Owner b s.place) free o))
    ]

    Owner-step :
        (s s' : Shared Op A) → Step Op A run s s' → Owner s.flag s.place → Owner s'.flag s'.place
    unfolding guard_begin lock_round load store unlock
    Owner-step s _ (begins t op e) o =
        Owner-aside s.flag s.place t (spinning op) (λ h. subst Holds e h) (λ h. h) o
    Owner-step s _ (tries t op e) o = lock_round-Owner t op s o
    Owner-step s _ (loads t op e) o =
        Owner-keep s.flag s.place t (loaded op s.value) (Place-Holds s.place t (entered op) e tt) tt
          o
    Owner-step s _ (stores t op a e) o =
        Owner-keep s.flag s.place t stored (Place-Holds s.place t (loaded op a) e tt) tt o
    Owner-step s _ (ends t e) o =
        Owner-give s.flag s.place t outside (Place-Holds s.place t stored e tt) (λ h. h) o

    pub Reach-Owner :
        (s s' : Shared Op A) → Reach Op A run s s' → Owner s.flag s.place → Owner s'.flag s'.place
    Reach-Owner s _ (stop _) o = o
    Reach-Owner s _ (step _ s' s'' r q) o = Owner-step s' s'' q (Reach-Owner s s' r o)

    -- In every state that threads reach from an unlocked one that none of them has entered, the flag is
    -- clear and no thread stands between `lock` and `unlock`, or it is set and one thread alone does.
    pub idle-Reach-Owner :
        (a : A) (s : Shared Op A) → Reach Op A run (idle Op A a) s → Owner s.flag s.place
    unfolding idle
    idle-Reach-Owner a s r = Reach-Owner (idle Op A a) s r (nobody refl (λ t h. h))
