-- ===== src/SpinLock/Tests.antt =====
-- Two threads add to a number under the lock: the second one spins while the first has it.
use libpotato.Base.{ℕ, ◌+◌, ◌≡◌, refl, List, [], ◌∷◌, map}
use libpotato.SpinLock.{Shared, Reach, lock_round, load, store, unlock, guard_begin, idle}
use libpotato.SpinLock.Exclusion.{Owner, idle-Reach-Owner}
use libpotato.SpinLock.Serial.{replay, idle-Reach-replay}
use libpotato.SpinLock.Schedule.{schedule}

abbrev add : ℕ → ℕ → ℕ
add op a = a + op

abbrev start : Shared ℕ ℕ
start = idle ℕ ℕ 10

-- Thread `t` adds `t + 1`.
abbrev turns : List (ℕ × ℕ)
turns = map (λ t. (t, t + 1)) (0 ∷ 1 ∷ 0 ∷ 1 ∷ 0 ∷ 1 ∷ 0 ∷ 0 ∷ 1 ∷ 1 ∷ 1 ∷ [])

abbrev last : (s : Shared ℕ ℕ) × Reach ℕ ℕ add start s
last = schedule ℕ ℕ add start turns

added : last.0.value ≡ 13
unfolding idle lock_round load store unlock guard_begin
added = refl

idle-Reach-Owner_example : Owner ℕ ℕ last.0.flag last.0.place
idle-Reach-Owner_example = idle-Reach-Owner ℕ ℕ add 10 last.0 last.1

idle-Reach-replay_example : last.0.value ≡ replay ℕ ℕ add last.0.done 10
idle-Reach-replay_example = idle-Reach-replay ℕ ℕ add 10 last.0 last.1
