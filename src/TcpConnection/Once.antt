-- ===== src/TcpConnection/Once.antt =====
-- A server's connection is closed at most once, whoever writes to it or closes it.
use libpotato.Base.{
  ℕ, ◌+◌, ◌≤◌, ◌≡◌, ◌⊎◌, inl, inr, sym, ap, ◌∙◌, subst, Bool, none, List, [], ◌∷◌, ◌++◌, ok, length,
  arith,
}
use libpotato.IoWatcher.{Epoll}
use libpotato.IpAddress.{IpAddress}
use libpotato.Buffer.{max_size}
use libpotato.TcpConnection.{World, Callbacks, reset}
use libpotato.TcpConnection.Live.{Live, Owes, stream, facts}
use libpotato.TcpConnection.Calls.{Loop}
use libpotato.TcpConnection.Outbox.{Happening, write_msg, come_to_queue, room, waiting}
use libpotato.TcpConnection.Handing.{happen}
use libpotato.TcpConnection.Fate.{open_facts}
use libpotato.TcpConnection.Endings.{
  Event, happening, close_call, HappeningTakes, QueueTakes, AllTake, size_of, sizes, happen_events,
}
use libpotato.TcpConnection.Turns.{
  Fated, grow, drain_loop-IsFated, write_from-IsFated, close_from-IsFated, room-IsFated,
}

module _ (k : Epoll) (et : Bool) (cb : Callbacks k)
    (quiet : (w : World k)
      → Live k et w
      → Owes k et (facts w) (length w.write_buffer.buf) (stream w) (cb.write_complete w))
    (destroys : (w : World k) → cb.destroy w ≡ reset k et cb w) (fd : ℕ) (peer : IpAddress)
    (closed : List ℕ) (b : Bool) where
  happen-IsFated :
      (h : Happening) (n : ℕ) (l : Loop k et cb)
      → HappeningTakes h
      → n + size_of h ≤ max_size
      → Fated k et cb quiet destroys fd peer closed b n l
      → Fated k et cb quiet destroys fd peer closed b (n + size_of h) (happen k et cb h l)
  happen-IsFated (write_msg here f msg) n l t h g =
      write_from-IsFated k et cb quiet destroys fd peer closed b here f msg n l t h g
  happen-IsFated come_to_queue n l t h g =
      grow k et cb quiet destroys fd peer closed b n (n + 0) (happen k et cb come_to_queue l)
        (omega arith)
        (drain_loop-IsFated k et cb quiet destroys fd peer closed b n l (omega arith) g)
  happen-IsFated (room f) n l t h g =
      grow k et cb quiet destroys fd peer closed b n (n + 0) (happen k et cb (room f) l)
        (omega arith) (room-IsFated k et cb quiet destroys fd peer closed b f n l t g)

  happen_events-IsFated :
      (es : List Event) (n : ℕ) (l : Loop k et cb)
      → AllTake es
      → n + sizes es ≤ max_size
      → Fated k et cb quiet destroys fd peer closed b n l
      → Fated k et cb quiet destroys fd peer closed b (n + sizes es) (happen_events k et cb es l)
  happen_events-IsFated [] n l t h g =
      subst (λ m. Fated k et cb quiet destroys fd peer closed b m l) (omega arith) g
  happen_events-IsFated (happening e ∷ es) n l (t, ts) h g =
      subst
        (λ m.
          Fated k et cb quiet destroys fd peer closed b m
            (happen_events k et cb es (happen k et cb e l)))
        (omega arith)
        (happen_events-IsFated es (n + size_of e) (happen k et cb e l) ts (omega arith)
          (happen-IsFated e n l t (omega arith) g))
  happen_events-IsFated (close_call here ∷ es) n l ts h g =
      happen_events-IsFated es n _ ts h
        (close_from-IsFated k et cb quiet destroys fd peer closed b here n l (omega arith) g)

  -- On a live connection of a server without a connection callback (its destroy callback is set and
  -- runs `reset`), whose write-complete callback leaves a live connection live and all else as it is,
  -- and whose loop has an empty queue: whatever threads write to it or close it, whenever the loop
  -- comes to its queue or the kernel has room, and whatever the kernel replies, a failure included,
  -- as long as it takes no more than it is given and the buffer's vector may grow by the messages,
  -- and no call of another thread is overtaken by a step of the loop (each `write` and `close` is one
  -- step, from its test of the socket until it has handed over its function): nothing fails. At the
  -- end the connection is live on its own descriptor and that is not closed, or
  -- it is bound to no socket and no event and its descriptor was closed exactly once.
  pub happen_events-once :
      (es : List Event) (l : Loop k et cb) (w : World k)
      → l.rest ≡ ok w
      → l.pending_functors ≡ []
      → Live k et w
      → facts w ≡ open_facts fd peer closed b
      → AllTake es
      → length w.write_buffer.buf + sizes es ≤ max_size
      → (w' : World k) × ((happen_events k et cb es l).rest ≡ ok w')
        × ((Live k et w' × (facts w' ≡ facts w))
            ⊎ ((w'.socket ≡ none) × (w'.io_event ≡ none) × (w'.closed ≡ closed ++ (fd ∷ []))))
  happen_events-once es l w on empty live same takes h =
      let start : Fated k et cb quiet destroys fd peer closed b (length w.write_buffer.buf) l =
        record {
          connection = w;
          running = on;
          bytes = length w.write_buffer.buf;
          status = inl (record { live = live; same = same; small = omega arith });
          queue = subst QueueTakes (sym empty) tt;
          total = omega (arith, ap (λ q. length (waiting q)) empty);
        } in
      let g = happen_events-IsFated es (length w.write_buffer.buf) l takes h start in
      (
        g.connection,
        g.running,
        elim g.status [
          | inl o ↦ inl (o.live, o.same ∙ sym same)
          | inr gone ↦ inr (gone.socket_off, gone.event_off, gone.once)
        ],
      )
