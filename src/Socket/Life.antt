-- ===== src/Socket/Life.antt =====
-- Which sockets are connected, and which descriptors are closed.
use libpotato.Base.{ℕ, ◌≡◌, Bool, true, Option, none, some, ok, err, assertion, arith}
use libpotato.IpAddress.{IpAddress, Family}
use libpotato.Socket.{
  Socket, SockType, Kind, new_socket, no_socket, adopt, close, bind, connect, accept, unconnected,
  valid,
}

-- A connected socket has a descriptor.
pub record IsSound (s : Socket) : Type 0 where
  pub connected_valid : s.connected ≡ true → valid s ≡ true

-- Every way to make a socket gives a sound one, and every call on a sound one leaves it sound.
pub data Made : Socket → Type 0 where
  by_type :
      (blank : IpAddress) (sys : Family → Kind → Option ℕ) (type : SockType) (abort_on_err : Bool)
      (s : Socket)
      → new_socket blank sys type abort_on_err ≡ ok s
      → Made s
  by_default : (blank : IpAddress) → Made (no_socket blank)
  by_adoption : (fd : Option ℕ) (a : IpAddress) (s : Socket) → adopt fd a ≡ ok s → Made s
  by_accept :
      (sys : Option ℕ → Option ℕ × IpAddress) (l s : Socket)
      → Made l
      → accept sys l ≡ ok (some s)
      → Made s
  by_bind :
      (sys : Option ℕ → IpAddress → ℕ → Bool) (s s' : Socket) (a : IpAddress)
      → Made s
      → bind sys s a ≡ ok s'
      → Made s'
  by_connect :
      (sys : Option ℕ → IpAddress → ℕ → Bool) (name : Option ℕ → IpAddress) (s s' : Socket)
      (a : IpAddress) (done : Bool)
      → Made s
      → connect sys name s a ≡ ok (s', done)
      → Made s'
  by_close : (s : Socket) → Made s → Made (close s).0

adopt-IsSound : (fd : Option ℕ) (a : IpAddress) (s : Socket) → adopt fd a ≡ ok s → IsSound s
unfolding adopt valid
adopt-IsSound none a s e = ground arith
adopt-IsSound (some fd) a s e = ground arith

-- However a socket was made and used, it is connected only while it has a descriptor.
pub Made-IsSound : {s : Socket} → Made s → IsSound s
unfolding new_socket no_socket accept bind connect close valid
Made-IsSound (by_type blank sys type abort_on_err s e) = ground arith
Made-IsSound (by_default blank) = ground arith
Made-IsSound (by_adoption fd a s e) = adopt-IsSound fd a s e
Made-IsSound (by_accept sys l s m e) =
    ground (arith, adopt-IsSound (sys l.socket).0 (sys l.socket).1 s)
Made-IsSound (by_bind sys s s' a m e) = ground (arith, Made-IsSound m)
Made-IsSound (by_connect sys name s s' a done m e) = ground (arith, Made-IsSound m)
Made-IsSound (by_close s m) = ground arith

-- `close` gives up the descriptor, and a second `close` closes nothing. After it no call that asserts
-- a valid socket goes through.
close-close :
    (s : Socket)
    → ((close s).1 ≡ s.socket)
      × ((close (close s).0).1 ≡ none)
      × ((close (close s).0).0 ≡ (close s).0)
      × (unconnected (close s).0 ≡ err assertion)
unfolding close unconnected
close-close s = ground arith
