-- ===== src/TcpConnection/Closing.antt =====
-- `handleCloseEvent`, `close` and `reset`: what a closed connection gives up, and what it keeps.
use libpotato.Base.{
  ℕ, ◌≡◌, refl, ap, ◌∙◌, Bool, true, false, none, some, List, [], ◌∷◌, ◌++◌, ok, err, null_pointer,
  ◌>>=◌, length, ◌<◌, ◌≤◌, arith,
}
use libpotato.IoWatcher.{Epoll, IoEvent, new_event}
use libpotato.IoWatcher.Registration.{Elsewhere, active, remove_this_event-gone}
use libpotato.IpAddress.{IpAddress}
use libpotato.Socket
use libpotato.Socket.{Socket, Reply}
use libpotato.Buffer.Contents.{contents}
use libpotato.TcpConnection.{
  World, Callbacks, handle_close_event, close, close_socket, reset, bind_socket, handle_read_event,
  if_set,
}
use libpotato.TcpConnection.Live.{IsBound, IsLive, open_socket}
use libpotato.TcpConnection.Receive.{
  arrival, take_in-TakenIn, IsReady, reads_of, handle_read_event-loop, read_loop-arrival, go_on,
  taken-Live,
}

module _ (k : Epoll) (et : Bool) (cb : Callbacks k) where
  -- The connection once its event is removed and its socket closed.
  pub record IsClosed (w w' : World k) (fd : ℕ) : Type 0 where
    pub loop_on : w'.loop ≡ w.loop
    pub peer : IpAddress
    pub event : IoEvent
    pub event_on : w'.io_event ≡ some event
    pub socket_off : w'.socket ≡ some (Socket.close (open_socket fd peer)).0
    pub once : w'.closed ≡ w.closed ++ (fd ∷ [])
    pub forgotten : k.interest w'.holder fd ≡ none
    pub elsewhere : Elsewhere k et fd w.holder w'.holder
    pub reads : w'.read_buffer ≡ w.read_buffer
    pub writes : w'.write_buffer ≡ w.write_buffer
    pub connection_set : w'.connection_set ≡ w.connection_set
    pub complete_set : w'.write_complete_set ≡ w.write_complete_set
    pub sent_same : w'.sent ≡ w.sent

  pub handle_close_event-IsClosed :
      (w : World k) (fd : ℕ) (writing : Bool)
      → IsBound k et w fd writing
      → (w' : World k) × (handle_close_event k et cb w ≡ if_set k w.destroy_set cb.destroy w')
        × IsClosed w w' fd
  unfolding handle_close_event Socket.close
  handle_close_event-IsClosed w fd writing v =
      let (e', h', s, out, zero_bits, gone, others) =
        remove_this_event-gone k et (active et fd writing) w.holder fd writing
          (record { shape = refl; known = v.known }) in
      (
        close_socket k (open_socket fd v.peer) (record w { io_event = some e'; holder = h' }),
        rw (v.socket_on, v.event_on, v.loop_on, s),
        record {
          loop_on = refl;
          peer = v.peer;
          event = e';
          event_on = refl;
          socket_off = refl;
          once = refl;
          forgotten = gone;
          elsewhere = others;
          reads = refl;
          writes = refl;
          connection_set = refl;
          complete_set = refl;
          sent_same = refl;
        },
      )

  handle_close_event-again :
      (w w' : World k) (fd l : ℕ)
      → w.loop ≡ some l
      → IsClosed w w' fd
      → handle_close_event k et cb w' ≡ ok w'
  unfolding handle_close_event Socket.close
  handle_close_event-again w w' fd l on c = rw (c.socket_off, c.event_on, c.loop_on, on)

  -- On a live connection without a destroy callback, a close succeeds: the kernel forgets the
  -- descriptor, the descriptor is closed, and a second close changes nothing, so it is not closed
  -- twice.
  pub handle_close_event-once :
      (w : World k) (fd : ℕ) (writing : Bool)
      → IsLive k et w fd writing
      → w.destroy_set ≡ false
      → (w' : World k) × (handle_close_event k et cb w ≡ ok w')
        × (handle_close_event k et cb w' ≡ ok w')
        × (w'.closed ≡ w.closed ++ (fd ∷ []))
        × (k.interest w'.holder fd ≡ none)
  handle_close_event-once w fd writing v unset =
      let (w', e, c) = handle_close_event-IsClosed w fd writing v.bound in
      (
        w',
        e ∙ ap (λ t. if_set k t cb.destroy w') unset,
        handle_close_event-again w w' fd v.bound.loop_no v.bound.loop_on c,
        c.once,
        c.forgotten,
      )

  -- A connection of a server, closed on its loop's thread: the destroy callback of `TcpServer` runs
  -- `reset` at once. No connection callback is set.
  pub record IsUnbound (w w' : World k) (fd : ℕ) : Type 0 where
    pub loop_off : w'.loop ≡ none
    pub event_off : w'.io_event ≡ none
    pub socket_off : w'.socket ≡ none
    pub once : w'.closed ≡ w.closed ++ (fd ∷ [])
    pub reads : w'.read_buffer ≡ w.read_buffer
    pub writes : w'.write_buffer ≡ w.write_buffer
    pub forgotten : k.interest w'.holder fd ≡ none
    pub elsewhere : Elsewhere k et fd w.holder w'.holder
    pub connection_set : w'.connection_set ≡ w.connection_set
    pub complete_set : w'.write_complete_set ≡ w.write_complete_set
    pub sent_same : w'.sent ≡ w.sent

  reset-IsUnbound :
      (w w1 : World k) (fd l : ℕ)
      → w.loop ≡ some l
      → w.connection_set ≡ false
      → IsClosed w w1 fd
      → (w2 : World k) × (reset k et cb w1 ≡ ok w2) × IsUnbound w w2 fd
  unfolding reset Socket.close
  reset-IsUnbound w w1 fd l on unset c = (
    record w1 { loop = none; io_event = none; socket = none },
    rw (c.event_on, c.socket_off, c.loop_on, on, c.connection_set, unset),
    record {
      loop_off = refl;
      event_off = refl;
      socket_off = refl;
      once = c.once;
      reads = c.reads;
      writes = c.writes;
      forgotten = c.forgotten;
      elsewhere = c.elsewhere;
      connection_set = c.connection_set;
      complete_set = c.complete_set;
      sent_same = c.sent_same;
    },
  )

  module _ (destroys : (w : World k) → cb.destroy w ≡ reset k et cb w) where
    pub handle_close_event-IsUnbound :
        (w : World k) (fd : ℕ) (writing : Bool)
        → IsBound k et w fd writing
        → w.destroy_set ≡ true
        → w.connection_set ≡ false
        → (w' : World k) × (handle_close_event k et cb w ≡ ok w') × IsUnbound w w' fd
    handle_close_event-IsUnbound w fd writing v destroy_on unset =
        let (w1, e1, c) = handle_close_event-IsClosed w fd writing v in
        let (w2, e2, u) = reset-IsUnbound w w1 fd v.loop_no v.loop_on unset c in
        (w2, e1 ∙ ap (λ t. if_set k t cb.destroy w1) destroy_on ∙ destroys w1 ∙ e2, u)

    -- A live connection whose destroy callback is set and runs `reset`, as a server's does on the
    -- loop's thread, and which has no connection callback, closes and can then be bound to the next
    -- socket; the unread bytes of both its buffers are still those of the last peer.
    pub handle_close_event-bind_socket :
        (w : World k) (fd : ℕ) (writing : Bool) (fd' l : ℕ) (peer : IpAddress)
        → IsLive k et w fd writing
        → w.destroy_set ≡ true
        → w.connection_set ≡ false
        → (w' : World k) × ((handle_close_event k et cb w
              >>= bind_socket k et cb (open_socket fd' peer) l)
            ≡ ok w')
          × (w'.loop ≡ some l)
          × (contents w'.write_buffer ≡ contents w.write_buffer)
          × (contents w'.read_buffer ≡ contents w.read_buffer)
    unfolding bind_socket Socket.valid
    handle_close_event-bind_socket w fd writing fd' l peer v destroy_on unset =
        let (w1, e, u) = handle_close_event-IsUnbound w fd writing v.bound destroy_on unset in
        (
          record w1 {
            loop = some l;
            io_event = some (new_event et (some fd'));
            socket = some (open_socket fd' peer);
          },
          rw (e, u.loop_off, u.socket_off, u.event_off),
          refl,
          ap contents u.writes,
          ap contents u.reads,
        )

    pub close-handle_close_event :
        (w : World k) (fd : ℕ) (writing : Bool)
        → IsBound k et w fd writing
        → close k et cb w ≡ handle_close_event k et cb w
    unfolding close
    close-handle_close_event w fd writing v = rw (v.socket_on, v.event_on, v.loop_on)

    go_on-null :
        (rs : List (Reply (List ℕ))) (w : World k)
        → w.io_event ≡ none
        → go_on k et cb rs w ≡ err null_pointer
    go_on-null rs w off = rw off

    -- On a live connection with room for the read, whose destroy callback is set and runs `reset`,
    -- whose message callback is set and calls `close`, and which has no connection callback, the
    -- handler reads a null pointer after a read of 1 to 4096 bytes.
    pub handle_read_event-null_pointer :
        (w : World k) (xs : List ℕ) (rs : List (Reply (List ℕ)))
        → ((v : World k) → cb.message v ≡ close k et cb v)
        → IsReady k et cb 1 w
        → 0 < length xs
        → length xs ≤ 4096
        → w.message_set ≡ true
        → w.destroy_set ≡ true
        → w.connection_set ≡ false
        → handle_read_event k et cb (arrival xs ∷ rs) w ≡ err null_pointer
    handle_read_event-null_pointer w xs rs closes r p h message_on destroy_on unset =
        let (b, e, x) =
          take_in-TakenIn k et cb w xs (reads_of k et cb w r.live) (omega (arith, r.ample))
            (omega (arith, r.growth)) in
        let w1 : World k = record w { read_buffer = b } in
        let (fd, writing, v) = taken-Live k et cb w b x.valid r.live in
        let (w2, e2, u) = handle_close_event-IsUnbound w1 fd writing v.bound destroy_on unset in
        handle_read_event-loop k et cb (arrival xs ∷ rs) w r.live
        ∙ read_loop-arrival k et cb xs rs w w1 p r.live e
        ∙ ap (λ t. if_set k t cb.message w1 >>= go_on k et cb rs) message_on
        ∙ ap (λ t. t >>= go_on k et cb rs)
            (closes w1 ∙ close-handle_close_event w1 fd writing v.bound ∙ e2)
        ∙ go_on-null rs w2 u.event_off
