-- ===== src/EventLoop.antt =====
-- potato/net/EventLoop.h and EventLoop.cpp: the functions that other threads hand to a loop, and its
-- wakeup. `F` names the functions, and `body` is what one does to the loop and to the rest `W` of the
-- program; it may hand in more.
pub mod Order
pub mod Running
pub mod Rounds
pub mod Life
mod Tests
use libpotato.Base.{
  ℕ, Bool, false, true, not, List, [], ◌∷◌, ◌++◌, Result, ok, err, assertion, guard, ◌>>=◌, ◌>>◌,
  if◌then◌else◌, drop,
}

-- `at_first` and `at_second` are the bytes that wait to be read at the two ends of the wakeup
-- sockets. The loop waits for the second end to be readable.
pub record EventLoop (F W : Type 0) : Type 0 where
  pub looping : Bool
  pub pending_functors : List F
  pub at_first : List ℕ
  pub at_second : List ℕ
  pub rest : W

module _ {F W : Type 0} (body : F → EventLoop F W → EventLoop F W) where
  -- `wakeup()`: four bytes are read at the first end.
  unfoldable pub wakeup : EventLoop F W → EventLoop F W
  wakeup l = record l { at_first = drop 4 l.at_first }

  -- `runInLoop(func)`, on the loop's thread or on another.
  unfoldable pub run_in_loop : Bool → F → EventLoop F W → EventLoop F W
  run_in_loop in_loop_thread f l =
      if in_loop_thread
      then body f l
      else wakeup (record l { pending_functors = l.pending_functors ++ (f ∷ []) })

  unfoldable pub call_each : List F → EventLoop F W → EventLoop F W
  call_each [] l = l
  call_each (f ∷ fs) l = call_each fs (body f l)

  -- `callPendingFunctors()`: the queue is emptied before the functions run.
  unfoldable pub call_pending_functors : EventLoop F W → EventLoop F W
  call_pending_functors l = call_each l.pending_functors (record l { pending_functors = [] })

  unfoldable pub stop_loop : Bool → EventLoop F W → Result (EventLoop F W)
  stop_loop in_loop_thread l = do
    guard l.looping assertion
    let l' = record l { looping = false }
    ok (if in_loop_thread then l' else wakeup l')
