-- ===== src/EventLoopPool.antt =====
-- potato/net/EventLoopPool.h and EventLoopPool.cpp: the loops of the server's threads, handed out in
-- turn. A loop is the number of its `EventLoop`.
pub mod RoundRobin
pub mod Stopping
mod Tests
use libpotato.Base.{
  ℕ, zero, suc, ◌+◌, Bool, true, false, Option, none, some, List, [], ◌∷◌, ◌++◌, Result, ok, err,
  out_of_range, ◌>>=◌, if◌then◌else◌, leb, ◌==◌, length, get_elem?,
}

pub record EventLoopPool : Type 0 where
  pub main_loop : ℕ
  pub et_mode : Bool
  pub starting : Bool
  pub thread_nums : ℕ
  pub next : ℕ
  pub loops : List ℕ

-- The constructor.
unfoldable pub new_pool : ℕ → Bool → EventLoopPool
new_pool main_loop et_mode = record {
  main_loop = main_loop;
  et_mode = et_mode;
  starting = false;
  thread_nums = 0;
  next = 0;
  loops = [];
}

unfoldable pub set_thread_num : ℕ → EventLoopPool → EventLoopPool
set_thread_num n p = record p { thread_nums = n }

-- What a thread does under the lock, with the loop that it has made.
unfoldable pub thread_func : ℕ → EventLoopPool → EventLoopPool
thread_func loop p = record p { loops = p.loops ++ (loop ∷ []) }

-- What the waiting thread tests.
abbrev pub all_there : EventLoopPool → Bool
all_there p = length p.loops == p.thread_nums

-- `start`, with the loops of the threads in the order in which they take the lock. `none`: the wait
-- does not end.
unfoldable pub start : List ℕ → EventLoopPool → Option EventLoopPool
unfolding thread_func
start [] p = if all_there p then some (record p { starting = true }) else none
start (loop ∷ others) p = start others (thread_func loop p)

-- An element of the vector. An index out of its range is undefined behaviour.
abbrev pub element : List ℕ → ℕ → Result ℕ
element xs i = elim (get_elem? xs i) [ none ↦ err out_of_range | some x ↦ ok x ]

unfoldable pub get_next_loop : EventLoopPool → Result (ℕ × EventLoopPool)
get_next_loop p = elim p.loops [
  | [] ↦ ok (p.main_loop, p)
  | x ∷ xs ↦ (do
    loop ← element p.loops p.next
    ok (loop, record p { next = if leb (length p.loops) (p.next + 1) then 0 else p.next + 1 }))
]

-- The loops given by `n` calls.
unfoldable pub get_next_loops : ℕ → EventLoopPool → Result (List ℕ × EventLoopPool)
get_next_loops zero p = ok ([], p)
get_next_loops (suc n) p = do
  (x, p1) ← get_next_loop p
  (xs, p2) ← get_next_loops n p1
  ok (x ∷ xs, p2)
