-- ===== src/SpinLock/Serial.antt =====
-- The operations under the lock run as if one thread ran them all, each as a whole.
use libpotato.Base.{
  ℕ, ◌≡◌, refl, sym, ap, ◌∙◌, subst, false, inl, inr, if◌then◌else◌, ◌==◌, Bool-cases, ==_iff, List,
  [], ◌∷◌, ◌++◌,
}
use libpotato.SpinLock.{
  Place, Shared, Step, Reach, outside, spinning, entered, loaded, stored, lock_round, load, store,
  unlock, guard_begin, begins, tries, loads, stores, ends, stop, step, idle,
}
use libpotato.SpinLock.Exclusion.{
  Holds, Owner, nobody, one, Fresh, Fresh-free, moved-back, Reach-Owner, idle-Reach-Owner,
}

module _ (Op A : Type 0) (run : Op → A → A) where
  -- The operations of a list, one after the other.
  pub replay : List Op → A → A
  replay [] a = a
  replay (op ∷ ops) a = replay ops (run op a)

  pub replay_none : (a : A) → replay [] a ≡ a
  unfolding replay
  replay_none a = refl

  pub replay_step : (op : Op) (ops : List Op) (a : A) → replay (op ∷ ops) a ≡ replay ops (run op a)
  unfolding replay
  replay_step op ops a = refl

  replay-append :
      (ops : List Op) (op : Op) (a : A) → replay (ops ++ (op ∷ [])) a ≡ run op (replay ops a)
  unfolding replay
  replay-append [] op a = refl
  replay-append (o ∷ ops) op a = replay-append ops op (run o a)

  pub record IsSerial (a : A) (s : Shared Op A) : Type 0 where
    pub serial : s.value ≡ replay s.done a
    pub fresh : (i : ℕ) → Fresh Op A s.value (s.place i)

  -- A thread moves to a place where what it has read is fresh.
  fresh-moved :
      (v : A) (place : ℕ → Place Op A) (t : ℕ) (p : Place Op A)
      → ((i : ℕ) → Fresh Op A v (place i))
      → Fresh Op A v p
      → (i : ℕ) → Fresh Op A v (if i == t then p else place i)
  fresh-moved v place t p others this i =
      moved-back Op A (Fresh Op A v) place t p i (λ e. this) (λ n. others i)

  -- Who stands behind the lock is the one who stores.
  others-free :
      (s : Shared Op A) (t : ℕ)
      → Owner Op A s.flag s.place
      → Holds Op A (s.place t)
      → (i : ℕ) → (i == t) ≡ false
      → ¬ Holds Op A (s.place i)
  others-free s t (nobody f free) h i n q = free t h
  others-free s t (one u f g alone) h i n q =
      let e : i ≡ t = alone i q ∙ sym (alone t h) in cc ((==_iff i t).1 e, n)

  lock_round-IsSerial :
      (a : A) (t : ℕ) (op : Op) (s : Shared Op A)
      → IsSerial a s
      → IsSerial a (lock_round Op A run t op s)
  unfolding lock_round
  lock_round-IsSerial a t op s q = elim (Bool-cases s.flag) [
    | inl taken ↦ rw taken (record { serial = q.serial; fresh = q.fresh })
    | inr free ↦ rw free (record {
      serial = q.serial;
      fresh = fresh-moved s.value s.place t (entered op) q.fresh tt;
    })
  ]

  store-IsSerial :
      (a : A) (t : ℕ) (op : Op) (b : A) (s : Shared Op A)
      → s.place t ≡ loaded op b
      → Owner Op A s.flag s.place
      → IsSerial a s
      → IsSerial a (store Op A run t op b s)
  unfolding store
  store-IsSerial a t op b s e o q =
      let seen : b ≡ s.value = subst (Fresh Op A s.value) e (q.fresh t) in
      let here : Holds Op A (s.place t) = subst (Holds Op A) (sym e) tt in
      record {
        serial = ap (run op) (seen ∙ q.serial) ∙ sym (replay-append s.done op a);
        fresh = λ i.
            moved-back Op A (Fresh Op A (run op b)) s.place t stored i (λ same. tt)
              (λ n. Fresh-free Op A (run op b) (s.place i) (others-free s t o here i n));
      }

  step-IsSerial :
      (a : A) (s s' : Shared Op A)
      → Step Op A run s s'
      → Owner Op A s.flag s.place
      → IsSerial a s
      → IsSerial a s'
  unfolding guard_begin load unlock
  step-IsSerial a s _ (begins t op e) o q = record {
    serial = q.serial;
    fresh = fresh-moved s.value s.place t (spinning op) q.fresh tt;
  }
  step-IsSerial a s _ (tries t op e) o q = lock_round-IsSerial a t op s q
  step-IsSerial a s _ (loads t op e) o q = record {
    serial = q.serial;
    fresh = fresh-moved s.value s.place t (loaded op s.value) q.fresh refl;
  }
  step-IsSerial a s _ (stores t op b e) o q = store-IsSerial a t op b s e o q
  step-IsSerial a s _ (ends t e) o q = record {
    serial = q.serial;
    fresh = fresh-moved s.value s.place t outside q.fresh tt;
  }

  Reach-IsSerial :
      (a : A) (s s' : Shared Op A)
      → Reach Op A run s s'
      → Owner Op A s.flag s.place
      → IsSerial a s
      → IsSerial a s'
  Reach-IsSerial a s _ (stop _) o q = q
  Reach-IsSerial a s _ (step _ s1 s2 r d) o q =
      step-IsSerial a s1 s2 d (Reach-Owner Op A run s s1 r o) (Reach-IsSerial a s s1 r o q)

  -- In every state that threads reach from an unlocked one that none of them has entered, however
  -- their steps interleave, the value is what the operations stored so far give one after the other:
  -- each reads what the one before has written, and none is lost.
  pub idle-Reach-replay :
      (a : A) (s : Shared Op A) → Reach Op A run (idle Op A a) s → s.value ≡ replay s.done a
  unfolding idle replay
  idle-Reach-replay a s r =
      (Reach-IsSerial a (idle Op A a) s r (idle-Reach-Owner Op A run a (idle Op A a) (stop _))
        (record { serial = refl; fresh = λ i. tt })).serial
