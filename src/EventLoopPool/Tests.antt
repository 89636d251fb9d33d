-- ===== src/EventLoopPool/Tests.antt =====
-- Three loops: the theorems on the pool at concrete inputs.
use libpotato.Base.{
  ℕ, ◌≡◌, ◌⊎◌, ◌++◌, refl, Bool, true, false, some, List, [], ◌∷◌, ok, err, assertion, arith,
}
use libpotato.EventLoop.{EventLoop}
use libpotato.EventLoop.Running.{Round}
use libpotato.EventLoop.Order.{note_down}
use libpotato.IoWatcher.Kernel.{kernel}
use libpotato.EventLoopPool.Stopping.{
  Place, before_queue, in_queue, all_looping, Ended, delete_pool, delete_pool-if_looping,
}
use libpotato.EventLoopPool.{EventLoopPool, new_pool, set_thread_num, start, get_next_loops}
use libpotato.EventLoopPool.RoundRobin.{IsTurning, start-cycle}

abbrev turning : EventLoopPool
turning = record {
  main_loop = 0;
  et_mode = true;
  starting = true;
  thread_nums = 3;
  next = 2;
  loops = 5 ∷ 6 ∷ 7 ∷ [];
}

start-cycle_example :
    (p : EventLoopPool) × (start (8 ∷ 4 ∷ []) (set_thread_num 2 (new_pool 0 false)) ≡ some p)
    × IsTurning p
    × (get_next_loops 2 p ≡ ok (8 ∷ 4 ∷ [], p))
start-cycle_example = start-cycle (8 ∷ 4 ∷ []) 0 false (omega arith)

-- Two loops. One thread is in `epoll_wait`, and is handed a function after it takes its queue; the
-- other runs a function.
abbrev loop_that : Bool → List ℕ → EventLoop ℕ (List ℕ)
loop_that on queue = record {
  looping = on;
  pending_functors = queue;
  at_first = [];
  at_second = [];
  rest = [];
}

abbrev two_loops : List (EventLoop ℕ (List ℕ))
two_loops = loop_that true (7 ∷ []) ∷ loop_that true [] ∷ []

abbrev waits : Round ℕ (List ℕ)
waits = record {
  before = λ l. ok l;
  during = λ l. ok (record l { pending_functors = l.pending_functors ++ (9 ∷ []) });
}

abbrev places : List (Place ℕ (List ℕ))
places = before_queue waits ∷ in_queue (8 ∷ []) ∷ []

notes-off : (f : ℕ) (l : EventLoop ℕ (List ℕ)) → l.looping ≡ false → (note_down f l).looping ≡ false
notes-off f l h = h

delete_pool-if_looping_example :
    ((all_looping note_down two_loops ≡ true)
      × (ls' : List (EventLoop ℕ (List ℕ))) × (delete_pool note_down kernel true [] places two_loops
          ≡ ok ls')
      × Ended note_down notes-off kernel true places two_loops ls')
    ⊎ ((all_looping note_down two_loops ≡ false)
        × (delete_pool note_down kernel true [] places two_loops ≡ err assertion))
delete_pool-if_looping_example =
    delete_pool-if_looping note_down notes-off kernel true [] places two_loops (
      (
        λ l h. (l, refl, h),
        λ l h. (record l { pending_functors = l.pending_functors ++ (9 ∷ []) }, refl, h),
      ),
      (tt, tt),
    )
