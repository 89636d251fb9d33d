-- ===== src/SpinLock/Schedule.antt =====
-- Reachable states by evaluation: the threads take their steps in a given order.
use libpotato.Base.{ℕ, ◌≡◌, refl, List, [], ◌∷◌}
use libpotato.SpinLock.{
  Place, Shared, Step, Reach, outside, spinning, entered, loaded, stored, begins, tries, loads,
  stores, ends, step, stop,
}

module _ (Op A : Type 0) (run : Op → A → A) where
  -- The step of a thread from its place. A thread outside begins with the operation.
  abbrev take_turn :
      (s : Shared Op A) (t : ℕ) (op : Op) (p : Place Op A)
      → s.place t ≡ p
      → (s' : Shared Op A) × Step Op A run s s'
  take_turn s t op outside e = (_, begins t op e)
  take_turn s t op (spinning o) e = (_, tries t o e)
  take_turn s t op (entered o) e = (_, loads t o e)
  take_turn s t op (loaded o a) e = (_, stores t o a e)
  take_turn s t op stored e = (_, ends t e)

  abbrev take_turns :
      (start : Shared Op A)
      → List (ℕ × Op)
      → (s : Shared Op A) → Reach Op A run start s
      → (s' : Shared Op A) × Reach Op A run start s'
  take_turns start [] s r = (s, r)
  take_turns start ((t, op) ∷ rest) s r =
      let next = take_turn s t op (s.place t) refl in
      take_turns start rest next.0 (step start s next.0 r next.1)

  abbrev pub schedule :
      (start : Shared Op A) → List (ℕ × Op) → (s : Shared Op A) × Reach Op A run start s
  schedule start turns = take_turns start turns start (stop start)
