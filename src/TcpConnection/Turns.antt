-- ===== src/TcpConnection/Turns.antt =====
-- Each thing that happens to a connection keeps what is known of its loop.
use libpotato.Base.{
  ℕ, ◌+◌, ◌≤◌, ◌≡◌, inl, inr, refl, sym, ap, ◌∙◌, subst, Bool, true, false, Option, none, List, [],
  ◌∷◌, ◌++◌, ok, ◌>>=◌, length, length-append, arith,
}
use libpotato.EventLoop.{run_in_loop, call_each, call_pending_functors}
use libpotato.IoWatcher.{Epoll}
use libpotato.IpAddress.{IpAddress}
use libpotato.Socket.{Reply}
use libpotato.Buffer.{max_size}
use libpotato.TcpConnection.{World, Callbacks, reset}
use libpotato.TcpConnection.Live.{Live, Owes, stream, facts}
use libpotato.TcpConnection.Calls.{
  Functor, close_functor, write_functor, Loop, body, if_asked, run_functor, write_asks, close_asks,
  write_from, close_from, drain_loop,
}
use libpotato.TcpConnection.Outbox.{room, waiting, waiting-append}
use libpotato.TcpConnection.Handing.{
  happen, write-queued, run_in_loop-away, run_in_loop-here, on_connection-ok, on_room,
}
use libpotato.TcpConnection.Fate.{Takes, on_room-Reaches}
use libpotato.TcpConnection.Endings.{
  FunctorTakes, QueueTakes-append, IsFated, run_functor-Reaches, call_each-Reaches,
}

module _ (k : Epoll) (et : Bool) (cb : Callbacks k)
    (quiet : (w : World k)
      → Live k et w
      → Owes k et (facts w) (length w.write_buffer.buf) (stream w) (cb.write_complete w))
    (destroys : (w : World k) → cb.destroy w ≡ reset k et cb w) (fd : ℕ) (peer : IpAddress)
    (closed : List ℕ) (b : Bool) where
  abbrev pub Fated : ℕ → Loop k et cb → Type 0
  Fated n l = IsFated k et cb quiet destroys fd peer closed b n l

  pub grow : (n n' : ℕ) (l : Loop k et cb) → n ≤ n' → Fated n l → Fated n' l
  grow n n' l h g = record {
    connection = g.connection;
    running = g.running;
    bytes = g.bytes;
    status = g.status;
    queue = g.queue;
    total = omega (arith, g.total);
  }

  pub drain_loop-IsFated :
      (n : ℕ) (l : Loop k et cb) → n ≤ max_size → Fated n l → Fated n (drain_loop k et cb l)
  unfolding drain_loop call_pending_functors
  drain_loop-IsFated n l h g =
      let (w, e, s) =
        call_each-Reaches k et cb quiet destroys fd peer closed b l.pending_functors
          (record l { pending_functors = [] }) g.bytes g.connection g.queue (omega (arith, g.total))
          g.status in
      let f =
        ap
          (λ r.
            call_each (body k et cb) l.pending_functors
              (record l { pending_functors = []; rest = r }))
          g.running
        ∙ e in
      subst (Fated n) (sym f) (record {
        connection = w;
        running = refl;
        bytes = g.bytes + length (waiting l.pending_functors);
        status = s;
        queue = tt;
        total = omega (arith, g.total);
      })

  -- A function that is run, or joins the queue.
  run_in_loop-IsFated :
      (here : Bool) (f : Functor) (n : ℕ) (l : Loop k et cb)
      → FunctorTakes f
      → n + length (waiting (f ∷ [])) ≤ max_size
      → Fated n l
      → Fated (n + length (waiting (f ∷ []))) (run_in_loop (body k et cb) here f l)
  run_in_loop-IsFated false f n l t h g =
      subst (Fated (n + length (waiting (f ∷ [])))) (sym (run_in_loop-away k et cb f l)) (record {
        connection = g.connection;
        running = g.running;
        bytes = g.bytes;
        status = g.status;
        queue = QueueTakes-append l.pending_functors f g.queue t;
        total = omega (
          arith,
          g.total,
          ap length (waiting-append l.pending_functors (f ∷ [])),
          length-append (waiting l.pending_functors) (waiting (f ∷ [])),
        );
      })
  run_in_loop-IsFated true f n l t h g =
      let (w, e, s) =
        run_functor-Reaches k et cb quiet destroys fd peer closed b f g.bytes g.connection t
          (omega (arith, g.total)) g.status in
      subst (Fated (n + length (waiting (f ∷ []))))
        (sym (
          run_in_loop-here k et cb f l
          ∙ on_connection-ok k et cb (run_functor k et cb f) l g.connection g.running
          ∙ ap (λ r. record l { rest = r }) e))
        (record {
          connection = w;
          running = refl;
          bytes = g.bytes + length (waiting (f ∷ []));
          status = s;
          queue = g.queue;
          total = omega (arith, g.total);
        })

  -- A connection that is gone is not asked for anything.
  write_from-gone :
      (here : Bool) (f : Option ℕ → List ℕ → Reply ℕ) (msg : List ℕ) (l : Loop k et cb)
      (w : World k)
      → l.rest ≡ ok w
      → w.socket ≡ none
      → write_from k et cb here f msg l ≡ l
  unfolding write_from write_asks
  write_from-gone here f msg l w e off =
      ap (λ r. if_asked k et cb here (write_functor f msg) (r >>= write_asks k et cb) l) e ∙ rw off

  close_from-gone :
      (here : Bool) (l : Loop k et cb) (w : World k)
      → l.rest ≡ ok w
      → w.socket ≡ none
      → close_from k et cb here l ≡ l
  unfolding close_from close_asks
  close_from-gone here l w e off =
      ap (λ r. if_asked k et cb here close_functor (r >>= close_asks k et cb) l) e ∙ rw off

  close_from-open :
      (here : Bool) (l : Loop k et cb) (w : World k)
      → l.rest ≡ ok w
      → Live k et w
      → close_from k et cb here l ≡ run_in_loop (body k et cb) here close_functor l
  unfolding close_from close_asks
  close_from-open here l w e (fd', on, v) =
      ap (λ r. if_asked k et cb here close_functor (r >>= close_asks k et cb) l) e
      ∙ rw (v.bound.socket_on, v.bound.event_on, v.bound.loop_on)

  pub write_from-IsFated :
      (here : Bool) (f : Option ℕ → List ℕ → Reply ℕ) (msg : List ℕ) (n : ℕ) (l : Loop k et cb)
      → Takes f
      → n + length (msg ++ []) ≤ max_size
      → Fated n l
      → Fated (n + length (msg ++ [])) (write_from k et cb here f msg l)
  write_from-IsFated here f msg n l t h g = elim g.status [
    | inl o ↦
        subst (Fated (n + length (msg ++ [])))
          (sym (write-queued k et cb f msg l g.connection g.running o.live here))
          (run_in_loop-IsFated here (write_functor f msg) n l t h g)
    | inr gone ↦
        subst (Fated (n + length (msg ++ [])))
          (sym (write_from-gone here f msg l g.connection g.running gone.socket_off))
          (grow n (n + length (msg ++ [])) l (omega arith) g)
  ]

  pub close_from-IsFated :
      (here : Bool) (n : ℕ) (l : Loop k et cb)
      → n ≤ max_size
      → Fated n l
      → Fated n (close_from k et cb here l)
  close_from-IsFated here n l h g = elim g.status [
    | inl o ↦ subst (Fated n) (sym (close_from-open here l g.connection g.running o.live)) (
        subst (λ m. Fated m (run_in_loop (body k et cb) here close_functor l)) (omega arith)
          (run_in_loop-IsFated here close_functor n l tt (omega arith) g))
    | inr gone ↦
        subst (Fated n) (sym (close_from-gone here l g.connection g.running gone.socket_off)) g
  ]

  pub room-IsFated :
      (f : Option ℕ → List ℕ → Reply ℕ) (n : ℕ) (l : Loop k et cb)
      → Takes f
      → Fated n l
      → Fated n (happen k et cb (room f) l)
  room-IsFated f n l t g =
      let (w, e, s) =
        on_room-Reaches k et cb quiet destroys fd peer closed b f t g.bytes g.connection g.status in
      subst (Fated n)
        (sym (
          on_connection-ok k et cb (on_room k et cb f) l g.connection g.running
          ∙ ap (λ r. record l { rest = r }) e))
        (record {
          connection = w;
          running = refl;
          bytes = g.bytes;
          status = s;
          queue = g.queue;
          total = g.total;
        })
