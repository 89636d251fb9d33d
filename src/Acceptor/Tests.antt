-- ===== src/Acceptor/Tests.antt =====
-- A small server's acceptor: two calls of `handleAccept`, in the first of which the process runs out of
-- descriptors.
use libpotato.Base.{
  count, ℕ, ◌==◌, if◌then◌else◌, ◌+◌, ◌≡◌, refl, inl, inr, true, false, none, some, List, [], ◌∷◌,
  ok, err, assertion, ◌>>=◌, endless,
}
use libpotato.IpAddress.{IpAddress, af_inet, ipv6}
use libpotato.Socket.{socket_of}
use libpotato.IoWatcher.Kernel.{kernel, nothing_registered}
use libpotato.IoWatcher.Registration.{active, registered}
use libpotato.Acceptor.{
  World, Round, Errno, AcceptReply, emfile, eagain, other, handle_accept, delete_acceptor,
}
use libpotato.Acceptor.Ledger.{count-begin, descriptors}
use libpotato.Acceptor.Replies.{peer_socket, Stops}
use libpotato.Acceptor.Loop.{IsListening, handle_accept-IsListening, handle_accept-endless}
use libpotato.Acceptor.Life.{Setup, Succeeds, begin, life, life-closed, delete_acceptor-assertion}

abbrev host : IpAddress
host = record { sin_family = af_inet; sin_port = 80; sin_addr = 5; sin6_addr = [] }

abbrev good_calls : Setup
good_calls = record {
  blank = host;
  sys_socket = λ family kind. some 3;
  sys_bind = λ fd a len. true;
  sys_listen = λ fd. true;
  dev_null = some 4;
}

good_calls-Succeeds : Succeeds good_calls host 3
unfolding socket_of ipv6
good_calls-Succeeds = record { opened = refl; bound = refl; listens = refl }

abbrev failed : Errno → AcceptReply
failed e = record { fd = none; peer = host; errno = e }

abbrev taken : ℕ → AcceptReply
taken fd = record { fd = some fd; peer = host; errno = eagain }

abbrev plain : AcceptReply → Round
plain a = record { first = a; second = failed other; dev_null = none }

-- A connection, a second one for which there is no descriptor, and no more.
abbrev busy : List Round
busy =
    plain (taken 5)
    ∷ record { first = failed emfile; second = taken 4; dev_null = some 4 }
    ∷ plain (failed eagain)
    ∷ []

-- A connection that was given up before it was taken, then one more.
abbrev calm : List Round
calm = plain (failed other) ∷ plain (taken 6) ∷ plain (failed eagain) ∷ []

life-closed_example :
    (w : World kernel true) × (life kernel true good_calls host nothing_registered
        (busy ∷ calm ∷ [])
      ≡ ok w)
    × (w.handed ≡ peer_socket 5 host ∷ peer_socket 6 host ∷ [])
    × (kernel.interest w.holder 3 ≡ none)
    × ((i : ℕ) → count i w.gained ≡ count i (descriptors w.handed) + count i w.closed)
life-closed_example =
    life-closed kernel true good_calls host nothing_registered 3 (busy ∷ calm ∷ [])
      good_calls-Succeeds refl (inr (inr (inl refl)), (inr (inr (inl refl)), tt))

abbrev listening_world : World kernel true
listening_world = record {
  acceptor = record {
    listening = true;
    listen_socket = record { socket = some 3; connected = false; address = host };
    host_address = host;
    io_event = active true 3 false;
    idle_fd = some 4;
    callback_set = true;
  };
  holder = λ fd. if fd == 3 then some (registered true false) else none;
  handed = [];
  options = [];
  gained = 3 ∷ 4 ∷ [];
  closed = [];
}

listening_world-IsListening : IsListening kernel true listening_world 3
listening_world-IsListening = record {
  here = refl;
  off = refl;
  watched = record { shape = refl; known = refl };
  balanced = λ i. count-begin i (3 ∷ []) (4 ∷ []);
}

handle_accept-IsListening_example :
    (w' : World kernel true) × (handle_accept kernel true busy listening_world ≡ ok w')
    × (w'.handed ≡ peer_socket 5 host ∷ [])
    × (w'.acceptor.callback_set ≡ true)
    × IsListening kernel true w' 3
handle_accept-IsListening_example =
    handle_accept-IsListening kernel true busy listening_world 3 (inr (inr (inl refl)))
      listening_world-IsListening

delete_acceptor-assertion_example :
    (begin kernel true good_calls host nothing_registered >>= delete_acceptor kernel true)
    ≡ err assertion
delete_acceptor-assertion_example =
    delete_acceptor-assertion kernel true good_calls host nothing_registered 3 good_calls-Succeeds
      refl

-- No descriptor is left in the whole system.
abbrev full : List Round
full = plain (failed other) ∷ plain (failed other) ∷ []

handle_accept-endless_example : handle_accept kernel true full listening_world ≡ err endless
handle_accept-endless_example =
    handle_accept-endless kernel true full listening_world 3 never listening_world-IsListening
  where
    never : ¬ Stops full
    never (inl e) = cc
    never (inr (inl e)) = cc
    never (inr (inr e)) = e
