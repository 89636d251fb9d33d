-- ===== src/TcpConnection/Handing.antt =====
-- What threads and the kernel do to a connection, as steps of its loop.
use libpotato.Base.{
  ℕ, ◌+◌, ◌≤◌, ◌≡◌, refl, ap, ◌∙◌, Bool, true, false, Option, none, some, List, [], ◌∷◌, ◌++◌,
  Result, ok, ◌>>=◌, if◌then◌else◌, length, drop,
}
use libpotato.EventLoop.{run_in_loop, wakeup}
use libpotato.IoWatcher.{Epoll}
use libpotato.Socket.{Reply}
use libpotato.TcpConnection.{World, Callbacks, handle_write_event}
use libpotato.TcpConnection.Live.{Live, stream}
use libpotato.TcpConnection.Calls.{
  Functor, write_functor, Loop, on_connection, body, if_asked, run_functor, write_asks, write_from,
  drain_loop,
}
use libpotato.TcpConnection.Outbox.{
  Happening, write_msg, come_to_queue, room, Outbox, waiting, OnlyWrites,
}

module _ (k : Epoll) (et : Bool) (cb : Callbacks k) where
  -- The watcher calls the handler where the event asks for room.
  abbrev pub on_room : (Option ℕ → List ℕ → Reply ℕ) → World k → Result (World k)
  on_room f w =
      if elim w.io_event [ none ↦ false | some e ↦ e.is_writing ]
      then handle_write_event k et cb f w
      else ok w

  abbrev pub happen : Happening → Loop k et cb → Loop k et cb
  happen (write_msg here f msg) l = write_from k et cb here f msg l
  happen come_to_queue l = drain_loop k et cb l
  happen (room f) l = on_connection k et cb (on_room f) l

  abbrev pub happen_all : List Happening → Loop k et cb → Loop k et cb
  happen_all [] l = l
  happen_all (h ∷ hs) l = happen_all hs (happen h l)

  -- A live connection that owes its peer what the outbox says, with a queue of what the outbox says
  -- waits. Its write buffer's vector has at most `n` bytes once it holds those too.
  pub record Owing (n : ℕ) (l : Loop k et cb) (o : Outbox) : Type 0 where
    pub connection : World k
    pub running : l.rest ≡ ok connection
    pub live : Live k et connection
    pub owes : stream connection ≡ o.owed
    pub queue : waiting l.pending_functors ≡ o.queued
    pub writes_only : OnlyWrites l.pending_functors
    pub small : length connection.write_buffer.buf + length o.queued ≤ n

  pub write-queued :
      (f : Option ℕ → List ℕ → Reply ℕ) (msg : List ℕ) (l : Loop k et cb) (w : World k)
      → l.rest ≡ ok w
      → Live k et w
      → (here : Bool)
      → write_from k et cb here f msg l ≡ run_in_loop (body k et cb) here (write_functor f msg) l
  unfolding write_from write_asks
  write-queued f msg l w e (fd, writing, v) here =
      ap (λ r. if_asked k et cb here (write_functor f msg) (r >>= write_asks k et cb) l) e
      ∙ rw (v.bound.socket_on, v.bound.loop_on)

  pub run_in_loop-away :
      (f : Functor) (l : Loop k et cb)
      → run_in_loop (body k et cb) false f l ≡ record l {
        pending_functors = l.pending_functors ++ (f ∷ []);
        at_first = drop 4 l.at_first;
      }
  unfolding run_in_loop wakeup
  run_in_loop-away f l = refl

  pub run_in_loop-here :
      (f : Functor) (l : Loop k et cb)
      → run_in_loop (body k et cb) true f l ≡ on_connection k et cb (run_functor k et cb f) l
  unfolding run_in_loop
  run_in_loop-here f l = refl

  pub on_connection-ok :
      (f : World k → Result (World k)) (l : Loop k et cb) (w : World k)
      → l.rest ≡ ok w
      → on_connection k et cb f l ≡ record l { rest = f w }
  on_connection-ok f l w e = ap (λ r. record l { rest = r >>= f }) e
