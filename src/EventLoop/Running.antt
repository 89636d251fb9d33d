-- ===== src/EventLoop/Running.antt =====
-- The life of a loop: its constructor and destructor, `startLoop`, and what reads the wakeup socket.
use libpotato.Base.{
  ℕ, zero, suc, Bool, true, false, not, ◌&&◌, some, List, [], ◌∷◌, Result, ok, err, assertion,
  endless, guard, ◌>>=◌, ◌>>◌, if◌then◌else◌, leb, length, drop,
}
use libpotato.IoWatcher.{IoEvent, Epoll, new_event, expect_reading, remove_this_event}
use libpotato.EventLoop.{EventLoop, call_each, stop_loop}

module _ {F W : Type 0} where
  -- The callback of `wakeupEvent_`: it reads four bytes at the second end, and in edge-triggered mode
  -- it does so until it gets less.
  unfoldable pub read_wakeup : (fuel : ℕ) → Bool → EventLoop F W → Result (EventLoop F W)
  read_wakeup zero et l = err endless
  read_wakeup (suc fuel) et l =
      let l' = record l { at_second = drop 4 l.at_second } in
      let again = read_wakeup fuel et l' in
      if leb 4 (length l.at_second) && et then again else ok l'

  unfoldable pub on_wakeup : Bool → EventLoop F W → Result (EventLoop F W)
  unfolding read_wakeup
  on_wakeup et l = read_wakeup (suc (length l.at_second)) et l

-- A loop with its wakeup event and the kernel's interest list.
pub record Running (k : Epoll) (F W : Type 0) : Type 0 where
  pub loop : EventLoop F W
  pub wakeup_event : IoEvent
  pub holder : k.Holder

-- What `handleIOEvent` and other threads do to the loop before its queue is taken, and what other
-- threads do after.
pub record Round (F W : Type 0) : Type 0 where
  pub before : EventLoop F W → Result (EventLoop F W)
  pub during : EventLoop F W → Result (EventLoop F W)

module _ (k : Epoll) (et : Bool) {F W : Type 0} (body : F → EventLoop F W → EventLoop F W) where
  -- `EventLoop(etMode)`, with the second end of its sockets.
  unfoldable pub new_loop : ℕ → k.Holder → W → Running k F W
  new_loop second h rest = record {
    loop = record {
      looping = false;
      pending_functors = [];
      at_first = [];
      at_second = [];
      rest = rest;
    };
    wakeup_event = new_event et (some second);
    holder = h;
  }

  -- `callPendingFunctors()`, where `during` is what other threads do between the swap, after which
  -- the queue is theirs again, and the end of the function.
  unfoldable pub call_pending_functors_while :
      (EventLoop F W → Result (EventLoop F W)) → EventLoop F W → Result (EventLoop F W)
  call_pending_functors_while during l = do
    l' ← during (record l { pending_functors = [] })
    ok (call_each body l.pending_functors l')

  -- The `while` of `startLoop`. In each round other threads act, and `handleIOEvent` with them, before
  -- the queue is taken, and they act again after it. A loop that goes on when the rounds are used up
  -- does not end.
  unfoldable pub run_rounds : List (Round F W) → EventLoop F W → Result (EventLoop F W)
  run_rounds [] l = if l.looping then err endless else ok l
  run_rounds (r ∷ rs) l =
      let more = (do
        l1 ← r.before l
        l2 ← call_pending_functors_while r.during l1
        run_rounds rs l2) in
      if l.looping then more else ok l

  unfoldable pub start_loop : List (Round F W) → Running k F W → Result (Running k F W)
  start_loop rounds r = do
    guard (not r.loop.looping) assertion
    let l = record (r.loop) { looping = true }
    (e, h) ← expect_reading k et r.wakeup_event r.holder
    l' ← run_rounds rounds l
    ok (record { loop = l'; wakeup_event = e; holder = h })

  -- `~EventLoop()`, on the loop's thread.
  unfoldable pub delete_loop : Running k F W → Result (Running k F W)
  delete_loop r = do
    (e, h) ← remove_this_event k et r.wakeup_event r.holder
    l ← if r.loop.looping then stop_loop body true r.loop else ok r.loop
    ok (record { loop = l; wakeup_event = e; holder = h })
