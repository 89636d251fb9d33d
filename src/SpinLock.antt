-- ===== src/SpinLock.antt =====
-- potato/thread/Mutex.h: `SpinLock` and `SpinLockGuard`. Threads share a value of type `A` that they
-- change under the lock; `run` is what each operation does. A step is one atomic access: to the flag,
-- or to the value. The accesses of all threads happen in one order.
pub mod Exclusion
pub mod Serial
pub mod Schedule
mod Tests
use libpotato.Base.{
  ℕ, ◌≡◌, Bool, true, false, Option, none, some, List, [], ◌∷◌, ◌++◌, if◌then◌else◌, ◌==◌,
}

-- `std::atomic_flag`: its value before, and after.
abbrev test_and_set : Bool → Bool × Bool
test_and_set flag = (flag, true)

abbrev pub clear : Bool → Bool
clear flag = false

module _ (Op A : Type 0) where
  -- Where a thread stands: outside, in the loop of `lock`, behind it, after it has read the value, and
  -- after it has written the value.
  pub data Place : Type 0 where
    outside : Place
    spinning entered : Op → Place
    loaded : Op → A → Place
    stored : Place

  -- `done` is a ghost: the operations that were stored, in their order.
  pub record Shared : Type 0 where
    pub flag : Bool
    pub value : A
    pub place : ℕ → Place
    pub done : List Op

  abbrev pub move : (ℕ → Place) → ℕ → Place → ℕ → Place
  move place t p i = if i == t then p else place i

  module _ (run : Op → A → A) where
    -- One round of `while (flag_.test_and_set()) yield();`.
    unfoldable pub lock_round : ℕ → Op → Shared → Shared
    lock_round t op s =
        let (old, flag) = test_and_set s.flag in
        if old
        then record s { flag = flag }
        else record s { flag = flag; place = move s.place t (entered op) }

    unfoldable pub load : ℕ → Op → Shared → Shared
    load t op s = record s { place = move s.place t (loaded op s.value) }

    unfoldable pub store : ℕ → Op → A → Shared → Shared
    store t op a s = record s {
      value = run op a;
      place = move s.place t stored;
      done = s.done ++ (op ∷ []);
    }

    unfoldable pub unlock : ℕ → Shared → Shared
    unlock t s = record s { flag = clear s.flag; place = move s.place t outside }

    -- The guard's constructor calls `lock`, and its destructor `unlock`.
    unfoldable pub guard_begin : ℕ → Op → Shared → Shared
    guard_begin t op s = record s { place = move s.place t (spinning op) }

    pub data Step (s : Shared) : Shared → Type 0 where
      begins : (t : ℕ) (op : Op) → s.place t ≡ outside → Step s (guard_begin t op s)
      tries : (t : ℕ) (op : Op) → s.place t ≡ spinning op → Step s (lock_round t op s)
      loads : (t : ℕ) (op : Op) → s.place t ≡ entered op → Step s (load t op s)
      stores : (t : ℕ) (op : Op) (a : A) → s.place t ≡ loaded op a → Step s (store t op a s)
      ends : (t : ℕ) → s.place t ≡ stored → Step s (unlock t s)

    -- A run, in any order of the threads' steps.
    pub data Reach : Shared → Shared → Type 0 where
      stop : (s : Shared) → Reach s s
      step : (s s' s'' : Shared) → Reach s s' → Step s' s'' → Reach s s''

  unfoldable pub idle : A → Shared
  idle a = record { flag = false; value = a; place = λ t. outside; done = [] }
