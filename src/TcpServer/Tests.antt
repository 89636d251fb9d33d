-- ===== src/TcpServer/Tests.antt =====
-- The pool of a server whose set begins with the index that was put in last.
use mathlib.Core.List.{not-mem-nil, Mem, Nodup, Perm, mem-cons_self}
use libpotato.Base.{
  inr, ℕ, ◌≡◌, ◌⊎◌, ◌≢◌, refl, inl, true, false, none, some, Option, List, [], ◌∷◌, ◌++◌, Result,
  ok,
}
use libpotato.IpAddress.{IpAddress, af_inet}
use libpotato.IoWatcher.Kernel.{kernel, nothing_registered}
use libpotato.Buffer.{init}
use libpotato.Buffer.Contents.{init-IsValid}
use libpotato.TcpConnection.{World, Callbacks}
use libpotato.SpinLock.{Shared, Reach, idle}
use libpotato.SpinLock.Schedule.{schedule}
use libpotato.TcpServer.Sections.{
  Section, Held, refill, take, give, run_section, Starved, Reach-Nodup,
}
use libpotato.TcpServer.Service.{Server}
use libpotato.TcpServer.Turnover.{IsServed, IsFree}
use libpotato.TcpServer.Peers
use libpotato.TcpServer.Peers.{IsGood, attend_all}
use libpotato.TcpServer.Peers.Reception.{attend_all-IsGood}
use libpotato.Acceptor.{Round, eagain, other}
use libpotato.Acceptor.Life.{Setup, Succeeds}
use libpotato.Acceptor.Replies.{peer_socket}
use libpotato.Socket.{socket_of}
use libpotato.IpAddress.{ipv6}
use libpotato.TcpServer.Front.{Front, delete_connections}
use libpotato.TcpServer.Opening.{IsOpen, peers}
use libpotato.TcpServer.Whole.{run_server, run_server-peers}
use libpotato.TcpServer.Deleting.{delete_connections-unless_lent}
use libpotato.TcpServer.{TcpServer, Begin, new_server}
use libpotato.TcpServer.Lending.{Request, arrive, leave, new_server-IsPool}

abbrev newest : List ℕ → ℕ
newest [] = 0
newest (i ∷ is) = i

newest-Mem : (s : List ℕ) → s ≢ [] → Mem (newest s) s
newest-Mem [] h = absurd (h refl)
newest-Mem (i ∷ is) h = mem-cons_self

abbrev in_order : Begin
in_order = record { first = newest; first-Mem = newest-Mem }

abbrev visits : List Request
visits = arrive ∷ arrive ∷ leave 1 ∷ arrive ∷ leave 7 ∷ []

abbrev peer : IpAddress
peer = record { sin_family = af_inet; sin_port = 80; sin_addr = 5; sin6_addr = [] }

-- A connection of a new server, whose callbacks do nothing.
abbrev free_connection : World kernel
free_connection = record {
  loop = none;
  io_event = none;
  socket = none;
  read_buffer = init;
  write_buffer = init;
  message_set = false;
  write_complete_set = false;
  connection_set = false;
  destroy_set = false;
  holder = nothing_registered;
  sent = [];
  closed = [];
}

abbrev quiet : Callbacks kernel
quiet = record {
  message = λ w. ok w;
  write_complete = λ w. ok w;
  connection = λ w. ok w;
  destroy = λ w. ok w;
}

-- One loop for all connections.
abbrev ready_server : Server kernel
ready_server = record {
  pool = new_server;
  loop_pool = record {
    main_loop = 0;
    et_mode = true;
    thread_nums = 0;
    loops = [];
    next = 0;
    starting = true;
  };
  connections = λ i. free_connection;
  message_set = true;
  write_complete_set = false;
  connection_set = true;
}

free_connection-IsFree : IsFree kernel true free_connection
free_connection-IsFree = record {
  loop_off = refl;
  event_off = refl;
  socket_off = refl;
  reads = init-IsValid;
  writes = init-IsValid;
  unknown = λ j. refl;
}

ready_server-IsGood : IsGood kernel true ready_server []
ready_server-IsGood = record {
  pooled = new_server-IsPool;
  ready = inl refl;
  served = λ i m. absurd (not-mem-nil m);
  free = λ i m. free_connection-IsFree;
}

-- The kernel takes a byte of the connection.
abbrev send_one : ℕ → World kernel → Result (World kernel)
send_one m w = ok (record w { sent = w.sent ++ (m ∷ []) })

send_one-IsServed :
    (m : ℕ) (w : World kernel)
    → IsServed kernel true w
    → (w' : World kernel) × (send_one m w ≡ ok w') × IsServed kernel true w'
send_one-IsServed m w v = (
  record w { sent = w.sent ++ (m ∷ []) },
  refl,
  record {
    fd = v.fd;
    writing = v.writing;
    bound = record {
      loop_no = v.bound.loop_no;
      peer = v.bound.peer;
      loop_on = v.bound.loop_on;
      event_on = v.bound.event_on;
      socket_on = v.bound.socket_on;
      known = v.bound.known;
      reads = v.bound.reads;
      writes = v.bound.writes;
    };
    destroyable = v.destroyable;
    alone = v.alone;
  },
)

-- Two peers arrive, the first one's connection sends, the second leaves, and a third takes its place.
abbrev day : List (Peers.Request kernel true)
day =
    Peers.arrive 3 peer
    ∷ Peers.arrive 4 peer
    ∷ Peers.work 1 9
    ∷ Peers.leave 0
    ∷ Peers.arrive 5 peer
    ∷ []

attend_all-IsGood_example :
    (srv' : Server kernel) × (lent' : List ℕ) × (attend_all kernel true in_order quiet send_one day
        ready_server []
      ≡ ok (srv', lent'))
    × IsGood kernel true srv' lent'
attend_all-IsGood_example =
    attend_all-IsGood kernel true in_order quiet (λ w. refl) send_one send_one-IsServed day
      ready_server [] ready_server-IsGood

-- One thread borrows a connection, then a second one, while another gives the first one back.
abbrev turns : List (ℕ × Section)
turns =
    (0, refill)
    ∷ (0, refill)
    ∷ (0, refill)
    ∷ (0, refill)
    ∷ (0, refill)
    ∷ (0, take)
    ∷ (0, take)
    ∷ (0, take)
    ∷ (0, take)
    ∷ (0, take)
    ∷ (1, give 0)
    ∷ (0, refill)
    ∷ (1, give 0)
    ∷ (0, refill)
    ∷ (1, give 0)
    ∷ (1, give 0)
    ∷ (1, give 0)
    ∷ (0, refill)
    ∷ (0, refill)
    ∷ (0, refill)
    ∷ (0, refill)
    ∷ (0, take)
    ∷ (0, take)
    ∷ (0, take)
    ∷ (0, take)
    ∷ []

abbrev new_pool : Held
new_pool = ok (new_server, [])

abbrev last :
    (w : Shared Section Held) × Reach Section Held
      (run_section in_order)
      (idle Section Held new_pool)
      w
last = schedule Section Held (run_section in_order) (idle Section Held new_pool) turns

Reach-Nodup_example :
    ((s : TcpServer) × (lent : List ℕ) × (last.0.value ≡ ok (s, lent))
      × Nodup (s.avail_index ++ lent)
      × Perm (s.avail_index ++ lent) s.connection_pool)
    ⊎ Starved in_order new_pool last.0.done
Reach-Nodup_example = Reach-Nodup in_order last.0 last.1

-- Two threads; two peers come at once, and a third one later.
abbrev good_calls : Setup
good_calls = record {
  blank = peer;
  sys_socket = λ family kind. some 3;
  sys_bind = λ fd a len. true;
  sys_listen = λ fd. true;
  dev_null = some 4;
}

good_calls-Succeeds : Succeeds good_calls peer 3
unfolding socket_of ipv6
good_calls-Succeeds = record { opened = refl; bound = refl; listens = refl }

abbrev round_of : Option ℕ → Round
round_of fd = record {
  first = record { fd = fd; peer = peer; errno = eagain };
  second = record { fd = none; peer = peer; errno = other };
  dev_null = none;
}

abbrev two_then_one : List (List Round)
two_then_one =
    (round_of (some 5) ∷ round_of (some 6) ∷ round_of none ∷ [])
    ∷ (round_of (some 7) ∷ round_of none ∷ [])
    ∷ []

run_server-peers_example :
    (fr : Front kernel true) × (run_server kernel true in_order quiet true good_calls peer
        nothing_registered nothing_registered
        (11 ∷ 12 ∷ [])
        two_then_one
      ≡ ok fr)
    × IsOpen kernel true fr 3
    × (peers kernel true fr
        ≡ some (peer_socket 5 peer) ∷ some (peer_socket 6 peer) ∷ some (peer_socket 7 peer) ∷ [])
run_server-peers_example =
    run_server-peers kernel true in_order quiet (λ w. refl) true good_calls peer nothing_registered
      nothing_registered 3 (11 ∷ 12 ∷ []) two_then_one good_calls-Succeeds refl (λ j. refl)
      (inr (inr (inl refl)), (inr (inl refl), tt))

delete_connections-unless_lent_example :
    delete_connections kernel true ready_server.connections new_server.connection_pool ≡ ok tt
delete_connections-unless_lent_example =
    delete_connections-unless_lent kernel true ready_server [] ready_server-IsGood
