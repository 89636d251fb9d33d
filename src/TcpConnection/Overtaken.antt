-- ===== src/TcpConnection/Overtaken.antt =====
-- A write of another thread that waits in the loop's queue while its connection is closed and bound
-- to the next peer.
use libpotato.Base.{
  ℕ, ◌≡◌, refl, ap, ◌∙◌, Bool, true, false, Option, none, some, List, [], ◌∷◌, ◌++◌, ok, ◌>>=◌,
  length, drop, take_all, ◌==◌, arith, inl, inr, Bool-cases, ==_iff,
}
use libpotato.EventLoop.{run_in_loop, call_each, call_pending_functors, wakeup}
use libpotato.IoWatcher.{Epoll, new_event}
use libpotato.IoWatcher.Registration.{expect_reading-IsActive}
use libpotato.IpAddress.{IpAddress}
use libpotato.Socket
use libpotato.Socket.{Reply}
use libpotato.TcpConnection.{
  World, Callbacks, took, reset, write_in_loop, write_now, keep_rest, bind_socket, bind_in_loop,
  handle_close_event,
}
use libpotato.TcpConnection.Live.{IsLive, open_socket}
use libpotato.TcpConnection.Closing.{IsUnbound, handle_close_event-IsUnbound}
use libpotato.TcpConnection.Calls.{
  bind_functor, write_functor, Loop, body, if_asked, run_functor, write_from, bind_from, drain_loop,
  close_functor, close_from, close_asks,
}
use libpotato.TcpConnection.Handing.{write-queued, run_in_loop-away, on_connection-ok}

module _ (k : Epoll) (et : Bool) (cb : Callbacks k) (f : Option ℕ → List ℕ → Reply ℕ) (msg : List ℕ)
    (fd' n : ℕ) (peer : IpAddress) where
  -- The connection bound to the next peer, before the loop has taken it up.
  abbrev next : World k → World k
  next w = record w {
    loop = some n;
    io_event = some (new_event et (some fd'));
    socket = some (open_socket fd' peer);
  }

  bind_socket-next :
      (w w' : World k) (fd : ℕ)
      → IsUnbound k et cb w w' fd
      → bind_socket k et cb (open_socket fd' peer) n w' ≡ ok (next w')
  unfolding bind_socket Socket.valid
  bind_socket-next w w' fd u = rw (u.loop_off, u.socket_off, u.event_off)

  -- The kernel takes the whole message for the next peer.
  write_functor-next :
      (w : World k)
      → (f (some fd') msg).ret ≡ some (length msg)
      → w.write_complete_set ≡ false
      → run_functor k et cb (write_functor f msg) (next w)
        ≡ ok (record (next w) { sent = w.sent ++ msg })
  unfolding run_functor write_in_loop write_now keep_rest Socket.write took new_event
  write_functor-next w all unset = rw (
    all,
    (==_iff (length msg) (length msg)).1 refl,
    unset,
    take_all (length msg) msg (omega arith),
  )

  bind_functor-next :
      (w : World k) (xs : List ℕ)
      → w.connection_set ≡ false
      → k.interest w.holder fd' ≡ none
      → (w' : World k) × (run_functor k et cb bind_functor (record (next w) { sent = xs }) ≡ ok w')
        × (w'.socket ≡ some (open_socket fd' peer))
        × (w'.sent ≡ xs)
  unfolding run_functor bind_in_loop
  bind_functor-next w xs unset free =
      let (e', h', s, a, others) =
        expect_reading-IsActive k et (new_event et (some fd')) w.holder fd'
          (record { shape = refl; absent = free }) in
      (record (next w) { sent = xs; io_event = some e'; holder = h' }, rw (s, unset), refl, refl)

  free_after :
      (w w' : World k) (fd : ℕ)
      → IsUnbound k et cb w w' fd
      → k.interest w.holder fd' ≡ none
      → k.interest w'.holder fd' ≡ none
  free_after w w' fd u free = elim (Bool-cases (fd' == fd)) [
    | inl same ↦ ap (k.interest w'.holder) ((==_iff fd' fd).0 same) ∙ u.forgotten
    | inr other ↦ u.elsewhere fd' other ∙ free
  ]

  -- Another thread writes, the connection is closed on its loop's thread, another thread binds it
  -- to the next peer, and the loop comes to its queue.
  pub overtaken : Loop k et cb → Loop k et cb
  overtaken l = drain_loop k et cb (
      bind_from k et cb false (open_socket fd' peer) n
        (close_from k et cb true (write_from k et cb false f msg l)))

  module _ (l : Loop k et cb) (w : World k) (on : l.rest ≡ ok w) (fd : ℕ) (writing : Bool)
      (v : IsLive k et w fd writing) where
    abbrev queued : Loop k et cb
    queued = record l {
      pending_functors = l.pending_functors ++ (write_functor f msg ∷ []);
      at_first = drop 4 l.at_first;
    }

    write_first : write_from k et cb false f msg l ≡ queued
    write_first =
        write-queued k et cb f msg l w on (fd, writing, v) false
        ∙ run_in_loop-away k et cb (write_functor f msg) l

    close_second :
        (w' : World k)
        → handle_close_event k et cb w ≡ ok w'
        → close_from k et cb true queued ≡ record queued { rest = ok w' }
    unfolding close_from close_asks run_in_loop run_functor
    close_second w' e =
        ap (λ r. if_asked k et cb true close_functor (r >>= close_asks k et cb) queued) on
        ∙ rw (v.bound.socket_on, v.bound.event_on, v.bound.loop_on)
            (on_connection-ok k et cb (handle_close_event k et cb) queued w on
              ∙ ap (λ r. record queued { rest = r }) e)

    bind_third :
        (w' : World k)
        → IsUnbound k et cb w w' fd
        → bind_from k et cb false (open_socket fd' peer) n (record queued { rest = ok w' })
          ≡ record queued {
            rest = ok (next w');
            pending_functors =
                (l.pending_functors ++ (write_functor f msg ∷ [])) ++ (bind_functor ∷ []);
            at_first = drop 4 (drop 4 l.at_first);
          }
    unfolding bind_from run_in_loop wakeup
    bind_third w' u =
        ap
          (λ r.
            if_asked k et cb false bind_functor (r >>= λ w. ok true) (record queued { rest = r }))
          (bind_socket-next w w' fd u)

    drain_last :
        (w' : World k) (at_first : List ℕ)
        → l.pending_functors ≡ []
        → (r r' : World k) → run_functor k et cb (write_functor f msg) (next w') ≡ ok r
        → run_functor k et cb bind_functor r ≡ ok r'
        → drain_loop k et cb (record queued {
          rest = ok (next w');
          pending_functors =
              (l.pending_functors ++ (write_functor f msg ∷ [])) ++ (bind_functor ∷ []);
          at_first = at_first;
        })
          ≡ record l { rest = ok r'; pending_functors = []; at_first = at_first }
    unfolding drain_loop call_pending_functors call_each
    drain_last w' at_first empty r r' e e' =
        ap
          (λ q.
            call_each (body k et cb) ((q ++ (write_functor f msg ∷ [])) ++ (bind_functor ∷ []))
              (record l { rest = ok (next w'); pending_functors = []; at_first = at_first }))
          empty
        ∙ ap
            (λ t. record l {
              rest = t >>= run_functor k et cb bind_functor;
              pending_functors = [];
              at_first = at_first;
            })
            e
        ∙ ap (λ t. record l { rest = t; pending_functors = []; at_first = at_first }) e'

    -- On a live connection of a server (its destroy callback is set and runs `reset`), without a
    -- connection callback or a write-complete callback, whose loop has an empty queue: where another
    -- thread writes a message, and the connection is closed and bound to the next peer before the
    -- loop comes to its queue, the message goes to the descriptor of the next peer. The kernel does
    -- not watch that descriptor yet, and takes the whole message for it.
    pub overtaken-misdelivered :
        ((w : World k) → cb.destroy w ≡ reset k et cb w)
        → w.destroy_set ≡ true
        → w.connection_set ≡ false
        → w.write_complete_set ≡ false
        → l.pending_functors ≡ []
        → k.interest w.holder fd' ≡ none
        → (f (some fd') msg).ret ≡ some (length msg)
        → (w' : World k) × ((overtaken l).rest ≡ ok w')
          × (w'.socket ≡ some (open_socket fd' peer))
          × (w'.sent ≡ w.sent ++ msg)
    unfolding overtaken
    overtaken-misdelivered destroys destroy_on unset quiet empty free all =
        let (w1, e1, u) =
          handle_close_event-IsUnbound k et cb destroys w fd writing v.bound destroy_on unset in
        let (w2, e2, there, sent) =
          bind_functor-next w1 (w1.sent ++ msg) (u.connection_set ∙ unset)
            (free_after w w1 fd u free) in
        (
          w2,
          ap
                (λ t.
                  (drain_loop k et cb (
                    bind_from k et cb false (open_socket fd' peer) n
                      (close_from k et cb true t))).rest)
                write_first
              ∙ ap
                  (λ t.
                    (drain_loop k et cb (bind_from k et cb false (open_socket fd' peer) n t)).rest)
                  (close_second w1 e1)
              ∙ ap (λ t. (drain_loop k et cb t).rest) (bind_third w1 u)
              ∙ ap (λ t. t.rest)
                  (drain_last w1 (drop 4 (drop 4 l.at_first)) empty
                    (record (next w1) { sent = w1.sent ++ msg }) w2
                    (write_functor-next w1 all (u.complete_set ∙ quiet)) e2),
          there,
          sent ∙ ap (λ t. t ++ msg) u.sent_same,
        )
