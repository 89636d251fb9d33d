-- ===== src/TcpConnection/Racing.antt =====
-- A call of another thread that the loop overtakes: between its test of the socket and the rest of
-- `write` or of `close`, the loop's thread runs `reset`.
use libpotato.Base.{◌≡◌, ℕ, Bool, true, false, ok, err, null_pointer, assertion}
use libpotato.IoWatcher.{Epoll}
use libpotato.TcpConnection.{World, Callbacks, handle_close_event, reset}
use libpotato.TcpConnection.Live.{IsLive}
use libpotato.TcpConnection.Closing.{handle_close_event-IsUnbound}
use libpotato.TcpConnection.Calls.{write_asks, write_hands, close_asks, close_hands}

module _ (k : Epoll) (et : Bool) (cb : Callbacks k) where
  -- On a live connection of a server without a connection callback (its destroy callback is set and
  -- runs `reset`), the tests of the socket that `write` and `close` begin with pass. If then the
  -- connection ends on the loop's thread before the other thread goes on, `write` reads a null
  -- pointer and an assertion of `close` fails; a call that begins after it is not asked for anything.
  pub write_hands-null_pointer :
      ((w : World k) → cb.destroy w ≡ reset k et cb w)
      → (w : World k) (fd : ℕ) (writing : Bool) → IsLive k et w fd writing
      → w.destroy_set ≡ true
      → w.connection_set ≡ false
      → (write_asks k et cb w ≡ write_hands k et cb w)
        × (close_asks k et cb w ≡ close_hands k et cb w)
        × (w' : World k) × (handle_close_event k et cb w ≡ ok w')
        × (write_hands k et cb w' ≡ err null_pointer)
        × (close_hands k et cb w' ≡ err assertion)
        × (write_asks k et cb w' ≡ ok false)
        × (close_asks k et cb w' ≡ ok false)
  unfolding write_asks close_asks
  write_hands-null_pointer destroys w fd writing v destroy_on unset =
      let (w', e, u) =
        handle_close_event-IsUnbound k et cb destroys w fd writing v.bound destroy_on unset in
      (
        rw v.bound.socket_on,
        rw v.bound.socket_on,
        w',
        e,
        rw (write_hands, u.loop_off),
        rw (close_hands, u.event_off),
        rw (write_asks, u.socket_off),
        rw (close_asks, u.socket_off),
      )
