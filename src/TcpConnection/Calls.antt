-- ===== src/TcpConnection/Calls.antt =====
-- potato/net/TcpConnection.h and TcpConnection.cpp: the calls that any thread may make of a
-- connection. On the loop's thread they act at once; on another one they hand a function to the
-- loop, which runs it when it comes to its queue. A call of another thread is modelled as one step of
-- the loop's history, and in two: its test of the socket, and what it does once the test has passed.
use libpotato.Base.{
  ℕ, Bool, Option, none, some, List, Result, ok, err, null_pointer, ◌>>=◌, true, false,
}
use libpotato.EventLoop.{EventLoop, run_in_loop, call_pending_functors}
use libpotato.IoWatcher.{Epoll}
use libpotato.Socket.{Socket, Reply}
use libpotato.TcpConnection.{
  World, Callbacks, assert_set, bind_socket, bind_in_loop, handle_close_event, write_in_loop,
}

-- The functions that a connection hands to its loop, with what they hold: those of `bindSocket`, of
-- `close` and of `write`, which holds a copy of the message. The kernel's reply to a write is known
-- when the function runs.
pub data Functor : Type 0 where
  bind_functor close_functor : Functor
  write_functor : (Option ℕ → List ℕ → Reply ℕ) → List ℕ → Functor

module _ (k : Epoll) (et : Bool) (cb : Callbacks k) where
  -- The connection's loop. A fault of one of its functions ends the process.
  abbrev pub Loop : Type 0
  Loop = EventLoop Functor (Result (World k))

  unfoldable pub run_functor : Functor → World k → Result (World k)
  run_functor bind_functor w = bind_in_loop k et cb w
  run_functor close_functor w = handle_close_event k et cb w
  run_functor (write_functor sys_write str) w = write_in_loop k et cb sys_write str w

  -- The loop goes on with what `f` makes of the connection.
  abbrev pub on_connection : (World k → Result (World k)) → Loop → Loop
  on_connection f l = record l { rest = l.rest >>= f }

  abbrev pub body : Functor → Loop → Loop
  body f l = on_connection (run_functor f) l

  -- What a call does once `r` has told whether it hands a function to the loop.
  abbrev pub if_asked : Bool → Functor → Result Bool → Loop → Loop
  if_asked in_loop_thread f (err fault) l = record l { rest = err fault }
  if_asked in_loop_thread f (ok false) l = l
  if_asked in_loop_thread f (ok true) l = run_in_loop body in_loop_thread f l

  -- `write` once its test of `socket_` has passed: it reads `loop_`, to hand over the function.
  abbrev pub write_hands : World k → Result Bool
  write_hands w = elim w.loop [ none ↦ err null_pointer | some l ↦ ok true ]

  -- `close` once its test has passed.
  abbrev pub close_hands : World k → Result Bool
  close_hands w = do
    _ ← assert_set k w.io_event
    _ ← assert_set k w.socket
    _ ← assert_set k w.loop
    ok true

  unfoldable pub write_asks : World k → Result Bool
  write_asks w = elim w.socket [ none ↦ ok false | some s ↦ write_hands w ]

  unfoldable pub close_asks : World k → Result Bool
  close_asks w = elim w.socket [ none ↦ ok false | some s ↦ close_hands w ]

  -- `write`, which `send` is another name of, on the loop's thread or on another.
  unfoldable pub write_from : Bool → (Option ℕ → List ℕ → Reply ℕ) → List ℕ → Loop → Loop
  write_from in_loop_thread sys_write msg l =
      if_asked in_loop_thread (write_functor sys_write msg) (l.rest >>= write_asks) l

  -- `close`, on the loop's thread or on another.
  unfoldable pub close_from : Bool → Loop → Loop
  close_from in_loop_thread l = if_asked in_loop_thread close_functor (l.rest >>= close_asks) l

  -- `bindSocket` with the loop `l`, whose number is `n`, on that loop's thread or on another.
  unfoldable pub bind_from : Bool → Socket → ℕ → Loop → Loop
  bind_from in_loop_thread s n l =
      let bound = on_connection (bind_socket k et cb s n) l in
      if_asked in_loop_thread bind_functor (bound.rest >>= λ w. ok true) bound

  -- `callPendingFunctors` of the connection's loop.
  unfoldable pub drain_loop : Loop → Loop
  drain_loop l = call_pending_functors body l
