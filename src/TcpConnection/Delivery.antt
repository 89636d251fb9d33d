-- ===== src/TcpConnection/Delivery.antt =====
-- `write` from several threads, the loop's queue and `handleWriteEvent` together: the connection
-- delivers what its outbox says.
use libpotato.Base.{
  ℕ, ◌+◌, ◌≤◌, ◌≡◌, refl, sym, ap, ◌∙◌, subst, Bool, true, false, Option, none, some, List, [], ◌∷◌,
  ◌++◌, append_assoc, append-nil, ok, if◌then◌else◌, length, length-append, arith,
}
use libpotato.EventLoop.{call_each, call_pending_functors}
use libpotato.IoWatcher.{Epoll}
use libpotato.Socket.{Reply}
use libpotato.Buffer.{max_size}
use libpotato.TcpConnection.{World, Callbacks, write, handle_write_event}
use libpotato.TcpConnection.Live.{Live, Owes, stream, facts}
use libpotato.TcpConnection.Stream.{write-Owes}
use libpotato.TcpConnection.Drain.{handle_write_event-Owes}
use libpotato.TcpConnection.Calls.{
  Functor, bind_functor, close_functor, write_functor, Loop, body, run_functor, write_from,
  drain_loop,
}
use libpotato.TcpConnection.Outbox.{
  Happening, write_msg, come_to_queue, room, IsSound, AllSound, all_written, Outbox, put, outbox,
  waiting, OnlyWrites, waiting-append, OnlyWrites-append,
}
use libpotato.TcpConnection.Handing.{
  on_room, happen, happen_all, Owing, write-queued, run_in_loop-away, run_in_loop-here,
  on_connection-ok,
}

module _ (k : Epoll) (et : Bool) (cb : Callbacks k)
    (quiet : (w : World k)
      → Live k et w
      → Owes k et (facts w) (length w.write_buffer.buf) (stream w) (cb.write_complete w)) where
  pub run_functor-Owes :
      (f : Option ℕ → List ℕ → Reply ℕ) (msg : List ℕ) (w : World k)
      → IsSound f
      → Live k et w
      → length w.write_buffer.buf + length msg ≤ max_size
      → Owes k et
          (facts w)
          (length w.write_buffer.buf + length msg)
          (stream w ++ msg)
          (run_functor k et cb (write_functor f msg) w)
  unfolding run_functor write
  run_functor-Owes f msg w s (fd, writing, v) h =
      let (w', e, live, owes, small, same) =
        write-Owes k et cb quiet f msg w fd writing v h (s.at_most (some fd) msg)
          (s.again (some fd) msg) in
      (w', sym (rw (v.bound.socket_on, v.bound.loop_on)) ∙ e, live, owes, small, same)

  pub on_room-Owes :
      (f : Option ℕ → List ℕ → Reply ℕ) (w : World k)
      → IsSound f
      → Live k et w
      → Owes k et (facts w) (length w.write_buffer.buf) (stream w) (on_room k et cb f w)
  on_room-Owes f w s (fd, false, v) =
      (w, rw v.bound.event_on, (fd, false, v), refl, omega arith, refl)
  on_room-Owes f w s (fd, true, v) =
      let (w', e, live, owes, small, same) =
        handle_write_event-Owes k et cb quiet f w fd v (s.at_most (some fd) _)
          (s.again_later (some fd) _ (v.waiting refl)) in
      (
        w',
        ap
              (λ e.
                if elim e [ none ↦ false | some e ↦ e.is_writing ]
                then handle_write_event k et cb f w
                else ok w)
              v.bound.event_on
            ∙ e,
        live,
        owes,
        small,
        same,
      )

  -- The functions of a queue of writes, one after another.
  call_each-Owes :
      (fs : List Functor) (l : Loop k et cb) (w : World k)
      → OnlyWrites fs
      → Live k et w
      → length w.write_buffer.buf + length (waiting fs) ≤ max_size
      → (w' : World k) × (call_each (body k et cb) fs (record l { rest = ok w })
          ≡ record l { rest = ok w' })
        × Live k et w'
        × (stream w' ≡ stream w ++ waiting fs)
        × (length w'.write_buffer.buf ≤ length w.write_buffer.buf + length (waiting fs))
  unfolding call_each
  call_each-Owes [] l w o live h = (w, refl, live, sym (append-nil (stream w)), omega arith)
  call_each-Owes (bind_functor ∷ fs) l w o live h = absurd o
  call_each-Owes (close_functor ∷ fs) l w o live h = absurd o
  call_each-Owes (write_functor f msg ∷ fs) l w (s, o) live h =
      let both = length-append msg (waiting fs) in
      let (w1, e1, live1, owes1, small1, same1) =
        run_functor-Owes f msg w s live (omega (arith, both)) in
      let (w2, e2, live2, owes2, small2) =
        call_each-Owes fs l w1 o live1 (omega (arith, both, small1)) in
      (
        w2,
        ap (λ r. call_each (body k et cb) fs (record l { rest = r })) e1 ∙ e2,
        live2,
        owes2 ∙ ap (λ t. t ++ waiting fs) owes1 ∙ append_assoc (stream w) msg (waiting fs),
        omega (arith, both, small1, small2),
      )

  drain_loop-Owing :
      (n : ℕ) (l : Loop k et cb) (o : Outbox)
      → n ≤ max_size
      → Owing k et cb n l o
      → Owing k et cb n (drain_loop k et cb l) (record { owed = o.owed ++ o.queued; queued = [] })
  unfolding drain_loop call_pending_functors
  drain_loop-Owing n l o h g =
      let same = ap length g.queue in
      let (w, e, live, owes, small) =
        call_each-Owes l.pending_functors (record l { pending_functors = [] }) g.connection
          g.writes_only g.live (omega (arith, g.small, same)) in
      let f =
        ap
          (λ r.
            call_each (body k et cb) l.pending_functors
              (record l { pending_functors = []; rest = r }))
          g.running
        ∙ e in
      record {
        connection = w;
        running = ap (λ t. t.rest) f;
        live = live;
        owes =
            owes ∙ ap (λ t. t ++ waiting l.pending_functors) g.owes ∙ ap (λ t. o.owed ++ t) g.queue;
        queue = ap (λ t. waiting t.pending_functors) f;
        writes_only = subst (λ t. OnlyWrites t.pending_functors) (sym f) tt;
        small = omega (arith, small, g.small, same);
      }

  -- A write of another thread joins the queue; one of the loop's thread is made at once.
  write_from-Owing :
      (here : Bool) (f : Option ℕ → List ℕ → Reply ℕ) (msg : List ℕ) (n : ℕ) (l : Loop k et cb)
      (o : Outbox)
      → IsSound f
      → n + length msg ≤ max_size
      → Owing k et cb n l o
      → Owing k et cb (n + length msg) (write_from k et cb here f msg l) (put here msg o)
  write_from-Owing false f msg n l o s h g =
      let e =
        write-queued k et cb f msg l g.connection g.running g.live false
        ∙ run_in_loop-away k et cb (write_functor f msg) l in
      subst (λ t. Owing k et cb (n + length msg) t (put false msg o)) (sym e)
        (record {
          connection = g.connection;
          running = g.running;
          live = g.live;
          owes = g.owes;
          queue =
              waiting-append l.pending_functors (write_functor f msg ∷ [])
              ∙ ap (λ t. t ++ (msg ++ [])) g.queue
              ∙ ap (λ t. o.queued ++ t) (append-nil msg);
          writes_only = OnlyWrites-append l.pending_functors f msg g.writes_only s;
          small = omega (arith, g.small, length-append o.queued msg);
        })
  write_from-Owing true f msg n l o s h g =
      let (w, e1, live, owes, small, same) =
        run_functor-Owes f msg g.connection s g.live (omega (arith, g.small)) in
      let e =
        write-queued k et cb f msg l g.connection g.running g.live true
        ∙ run_in_loop-here k et cb (write_functor f msg) l
        ∙ on_connection-ok k et cb (run_functor k et cb (write_functor f msg)) l g.connection
            g.running
        ∙ ap (λ r. record l { rest = r }) e1 in
      subst (λ t. Owing k et cb (n + length msg) t (put true msg o)) (sym e)
        (record {
          connection = w;
          running = refl;
          live = live;
          owes = owes ∙ ap (λ t. t ++ msg) g.owes;
          queue = g.queue;
          writes_only = g.writes_only;
          small = omega (arith, g.small, small);
        })

  room-Owing :
      (f : Option ℕ → List ℕ → Reply ℕ) (n : ℕ) (l : Loop k et cb) (o : Outbox)
      → IsSound f
      → Owing k et cb n l o
      → Owing k et cb n (happen k et cb (room f) l) o
  room-Owing f n l o s g =
      let (w, e1, live, owes, small, same) = on_room-Owes f g.connection s g.live in
      let e =
        on_connection-ok k et cb (on_room k et cb f) l g.connection g.running
        ∙ ap (λ r. record l { rest = r }) e1 in
      subst (λ t. Owing k et cb n t o) (sym e)
        (record {
          connection = w;
          running = refl;
          live = live;
          owes = owes ∙ g.owes;
          queue = g.queue;
          writes_only = g.writes_only;
          small = omega (arith, g.small, small);
        })

  -- From a live connection, for a write-complete callback that leaves a live connection live and
  -- its stream, its facts and its buffer's vector as they are, and a kernel that takes any number of
  -- the bytes it is given or refuses with EAGAIN: whatever threads write, whenever the loop comes to
  -- its queue and whenever the kernel has room, nothing fails, the connection stays live, and what
  -- it owes its peer and what waits in the queue are those of the outbox. So every message is
  -- delivered whole and once, those of other threads in their order. The write buffer's vector may
  -- grow by the messages, and grows by no more.
  pub happen_all-Owing :
      (hs : List Happening) (n : ℕ) (l : Loop k et cb) (o : Outbox)
      → AllSound hs
      → n + length (all_written hs) ≤ max_size
      → Owing k et cb n l o
      → Owing k et cb (n + length (all_written hs)) (happen_all k et cb hs l) (outbox hs o)
  happen_all-Owing [] n l o s h g = subst (λ m. Owing k et cb m l o) (omega arith) g
  happen_all-Owing (write_msg here f msg ∷ hs) n l o (s, ss) h g =
      let both = length-append msg (all_written hs) in
      subst
        (λ m.
          Owing k et cb m (happen_all k et cb hs (write_from k et cb here f msg l))
            (outbox hs (put here msg o)))
        (omega (arith, both))
        (happen_all-Owing hs (n + length msg) (write_from k et cb here f msg l) (put here msg o) ss
          (omega (arith, both)) (write_from-Owing here f msg n l o s (omega (arith, both)) g))
  happen_all-Owing (come_to_queue ∷ hs) n l o ss h g =
      happen_all-Owing hs n (drain_loop k et cb l) _ ss h (drain_loop-Owing n l o (omega arith) g)
  happen_all-Owing (room f ∷ hs) n l o (s, ss) h g =
      happen_all-Owing hs n (happen k et cb (room f) l) o ss h (room-Owing f n l o s g)
