-- ===== src/TcpConnection/Live.antt =====
-- A connected `TcpConnection`: its pointers, its event and its buffers belong together.
use libpotato.Base.{
  ℕ, ◌<◌, ◌≤◌, ◌≡◌, refl, ap, Bool, true, false, Option, some, List, [], ◌++◌, Result, ok, length,
  arith,
}
use libpotato.IpAddress.{IpAddress}
use libpotato.IoWatcher.{Epoll, IoEvent}
use libpotato.IoWatcher.Registration.{
  active, registered, IsActive, expect_writing-IsActive, ignore_writing-IsActive,
}
use libpotato.Socket.{Socket}
use libpotato.Buffer.Contents.{IsValid, contents}
use libpotato.TcpConnection.{World, Callbacks, expect, ignore}

abbrev pub open_socket : ℕ → IpAddress → Socket
open_socket fd peer = record { socket = some fd; connected = true; address = peer }

-- All that the connection owes its peer, in order: the bytes that the kernel has taken, then those
-- that wait in the write buffer.
abbrev pub stream : {k : Epoll} → World k → List ℕ
stream w = w.sent ++ contents w.write_buffer

-- What a call that only moves bytes leaves alone: the socket, the descriptors that are closed, and
-- which callbacks are set.
abbrev pub Facts : Type 0
Facts = Option Socket × List ℕ × Bool × Bool × Bool

abbrev pub facts : {k : Epoll} → World k → Facts
facts w = (w.socket, w.closed, w.destroy_set, w.connection_set, w.write_complete_set)

-- The connection is bound to a loop and to an open socket, its event is registered with the kernel,
-- for writing if `writing`, and its buffers are valid.
pub record IsBound (k : Epoll) (et : Bool) (w : World k) (fd : ℕ) (writing : Bool) : Type 0 where
  pub loop_no : ℕ
  pub peer : IpAddress
  pub loop_on : w.loop ≡ some loop_no
  pub event_on : w.io_event ≡ some (active et fd writing)
  pub socket_on : w.socket ≡ some (open_socket fd peer)
  pub known : k.interest w.holder fd ≡ some (registered et writing)
  pub reads : IsValid w.read_buffer
  pub writes : IsValid w.write_buffer

-- Besides, the event is writing if and only if bytes wait in the write buffer.
pub record IsLive (k : Epoll) (et : Bool) (w : World k) (fd : ℕ) (writing : Bool) : Type 0 where
  pub bound : IsBound k et w fd writing
  pub drained : writing ≡ false → contents w.write_buffer ≡ []
  pub waiting : writing ≡ true → 0 < length (contents w.write_buffer)

module _ (k : Epoll) (et : Bool) where
  abbrev pub Live : World k → Type 0
  Live w = (fd : ℕ) × (writing : Bool) × IsLive k et w fd writing

  -- What a call reaches: it succeeds, the connection is live after it, and owes its peer `xs`. The
  -- vector of its write buffer has at most `n` bytes then, and its facts are `fs`.
  abbrev pub Owes : Facts → ℕ → List ℕ → Result (World k) → Type 0
  Owes fs n xs r =
      (w' : World k) × (r ≡ ok w')
      × Live w'
      × (stream w' ≡ xs)
      × (length w'.write_buffer.buf ≤ n)
      × (facts w' ≡ fs)

  module _ (cb : Callbacks k) (w : World k) (fd : ℕ) (writing : Bool)
      (v : IsBound k et w fd writing) where
    pub rebound :
        (on : Bool) (e' : IoEvent) (h' : k.Holder)
        → IsActive k et on e' h' fd
        → IsBound k et (record w { io_event = some e'; holder = h' }) fd on
    rebound on e' h' a = record {
      loop_no = v.loop_no;
      peer = v.peer;
      loop_on = v.loop_on;
      event_on = ap some a.shape;
      socket_on = v.socket_on;
      known = a.known;
      reads = v.reads;
      writes = v.writes;
    }

    -- With bytes in the write buffer, `expectWriting` leaves the connection live.
    pub expect-Owes :
        0 < length (contents w.write_buffer)
        → Owes (facts w) (length w.write_buffer.buf) (stream w) (expect k et cb w)
    unfolding expect
    expect-Owes p =
        let (e', h', s, a, others) =
          expect_writing-IsActive k et (active et fd writing) w.holder fd writing
            (record { shape = refl; known = v.known }) in
        (
          record w { io_event = some e'; holder = h' },
          rw (v.event_on, s),
          (fd, true, record { bound = rebound true e' h' a; drained = λ q. cc; waiting = λ q. p }),
          refl,
          omega arith,
          refl,
        )

    -- With none, `ignoreWriting` does.
    pub ignore-Owes :
        contents w.write_buffer ≡ []
        → Owes (facts w) (length w.write_buffer.buf) (stream w) (ignore k et cb w)
    unfolding ignore
    ignore-Owes p =
        let (e', h', s, a, others) =
          ignore_writing-IsActive k et (active et fd writing) w.holder fd writing
            (record { shape = refl; known = v.known }) in
        (
          record w { io_event = some e'; holder = h' },
          rw (v.event_on, s),
          (
            fd,
            false,
            record { bound = rebound false e' h' a; drained = λ q. p; waiting = λ q. cc },
          ),
          refl,
          omega arith,
          refl,
        )
