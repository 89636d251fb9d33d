-- ===== src/TcpServer/Turnover.antt =====
-- One connection of a server, from its binding to its return.
use libpotato.Base.{
  ℕ, ◌≡◌, refl, ap, ◌∙◌, Bool, true, false, none, some, ok, ◌>>=◌, ◌==◌, inl, inr, Bool-cases,
  ==_iff,
}
use libpotato.IoWatcher.{Epoll, new_event}
use libpotato.IoWatcher.Registration.{expect_reading-IsActive}
use libpotato.IpAddress.{IpAddress}
use libpotato.Socket
use libpotato.Buffer.Contents.{IsValid}
use libpotato.TcpConnection.{
  World, Callbacks, if_set, drop_socket, assert_set, bind_socket, bind_in_loop, reset,
  handle_close_event,
}
use libpotato.TcpConnection.Live.{IsBound, open_socket}
use libpotato.TcpConnection.Closing.{IsClosed, handle_close_event-IsClosed}

module _ (k : Epoll) (et : Bool) where
  -- A connection that is bound to nothing.
  pub record IsFree (w : World k) : Type 0 where
    pub loop_off : w.loop ≡ none
    pub event_off : w.io_event ≡ none
    pub socket_off : w.socket ≡ none
    pub reads : IsValid w.read_buffer
    pub writes : IsValid w.write_buffer
    pub unknown : (j : ℕ) → k.interest w.holder j ≡ none

  -- A server's connection that is bound to a loop and an open socket, the only one that it has
  -- registered.
  pub record IsServed (w : World k) : Type 0 where
    pub fd : ℕ
    pub writing : Bool
    pub bound : IsBound k et w fd writing
    pub destroyable : w.destroy_set ≡ true
    pub alone : (j : ℕ) → (j == fd) ≡ false → k.interest w.holder j ≡ none

  module _ (cb : Callbacks k) (told : (w : World k) → cb.connection w ≡ ok w) where
    if_told : (is_set : Bool) (w : World k) → if_set k is_set cb.connection w ≡ ok w
    if_told true w = told w
    if_told false w = refl

    abbrev pub bound_to : World k → ℕ → IpAddress → ℕ → World k
    bound_to w fd peer l = record w {
      loop = some l;
      io_event = some (new_event et (some fd));
      socket = some (open_socket fd peer);
    }

    pub bind_socket-IsFree :
        (w : World k) (fd : ℕ) (peer : IpAddress) (l : ℕ)
        → IsFree w
        → bind_socket k et cb (open_socket fd peer) l w ≡ ok (bound_to w fd peer l)
    unfolding bind_socket Socket.valid
    bind_socket-IsFree w fd peer l f = rw (f.loop_off, f.socket_off, f.event_off)

    pub bind_in_loop-IsServed :
        (w : World k) (fd : ℕ) (peer : IpAddress) (l : ℕ)
        → IsFree w
        → w.destroy_set ≡ true
        → (w' : World k) × (bind_in_loop k et cb (bound_to w fd peer l) ≡ ok w')
          × IsServed w'
          × (w'.socket ≡ some (open_socket fd peer))
    unfolding bind_in_loop
    bind_in_loop-IsServed w fd peer l f d =
        let (e', h', s, a, others) =
          expect_reading-IsActive k et (new_event et (some fd)) w.holder fd
            (record { shape = refl; absent = f.unknown fd }) in
        let w' : World k = record (bound_to w fd peer l) { io_event = some e'; holder = h' } in
        (
          w',
          rw s (if_told w.connection_set w'),
          record {
            fd = fd;
            writing = false;
            bound = record {
              loop_no = l;
              peer = peer;
              loop_on = refl;
              event_on = ap some a.shape;
              socket_on = refl;
              known = a.known;
              reads = f.reads;
              writes = f.writes;
            };
            destroyable = d;
            alone = λ j n. others j n ∙ f.unknown j;
          },
          refl,
        )

    if_nothing : (is_set : Bool) (w : World k) → if_set k is_set (λ w. ok w) w ≡ ok w
    if_nothing true w = refl
    if_nothing false w = refl

    unset : World k → World k
    unset w = record w { loop = none; io_event = none }

    reset-told :
        (w : World k)
        → reset k et cb w ≡ (
            assert_set k w.io_event >>= λ e. assert_set k w.socket >>= λ s.
            assert_set k w.loop >>= λ l. ok (drop_socket k et cb w.socket (unset w)))
    unfolding reset unset
    reset-told w =
        ap
          (λ m. assert_set k w.io_event >>= λ e. assert_set k w.socket >>= λ s.
            assert_set k w.loop >>= λ l. m >>= λ w'. ok (drop_socket k et cb w'.socket (unset w')))
          (if_told w.connection_set w)

    reset-IsClosed :
        {cb' : Callbacks k} (w w1 : World k) (fd l : ℕ)
        → w1.loop ≡ some l
        → IsClosed k et cb' w w1 fd
        → reset k et cb w1 ≡ ok (record w1 { loop = none; io_event = none; socket = none })
    unfolding Socket.close unset
    reset-IsClosed w w1 fd l on c = reset-told w1 ∙ rw (c.event_on, c.socket_off, on)

    forgotten :
        {cb' : Callbacks k} (w w1 : World k) (v : IsServed w)
        → IsClosed k et cb' w w1 v.fd
        → (j : ℕ) → k.interest w1.holder j ≡ none
    forgotten w w1 v c j = elim (Bool-cases (j == v.fd)) [
      | inl same ↦ ap (k.interest w1.holder) ((==_iff j v.fd).0 same) ∙ c.forgotten
      | inr other ↦ c.elsewhere j other ∙ v.alone j other
    ]

    -- The end of a connection: `handleCloseEvent`, then `reset` in the destroy callback.
    pub handle_close_event-IsServed :
        (w : World k)
        → IsServed w
        → (w1 : World k) × (w2 : World k) × (handle_close_event k et
              (record cb { destroy = λ w. ok w })
              w
            ≡ ok w1)
          × (l : ℕ) × (w1.loop ≡ some l)
          × (reset k et cb w1 ≡ ok w2)
          × IsFree w2
    handle_close_event-IsServed w v =
        let (w1, e, c) =
          handle_close_event-IsClosed k et (record cb { destroy = λ w. ok w }) w v.fd v.writing
            v.bound in
        let on : w1.loop ≡ some v.bound.loop_no = c.loop_on ∙ v.bound.loop_on in
        (
          w1,
          record w1 { loop = none; io_event = none; socket = none },
          e ∙ if_nothing w.destroy_set w1,
          v.bound.loop_no,
          on,
          reset-IsClosed w w1 v.fd v.bound.loop_no on c,
          record {
            loop_off = refl;
            event_off = refl;
            socket_off = refl;
            reads = rw c.reads v.bound.reads;
            writes = rw c.writes v.bound.writes;
            unknown = λ j. forgotten w w1 v c j;
          },
        )
