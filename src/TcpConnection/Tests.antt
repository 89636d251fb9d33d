-- ===== src/TcpConnection/Tests.antt =====
-- A small server: the theorems on connections at concrete inputs.
use libpotato.Base.{
  ℕ, ◌<◌, ◌≡◌, ◌⊎◌, refl, Bool, true, false, Option, none, some, List, [], ◌∷◌, length, ◌++◌, ◌≤◌,
  ok, err, null_pointer, assertion, ◌>>=◌, if◌then◌else◌, ◌==◌, length-replicate, map, arith,
}
use libpotato.IpAddress.{IpAddress, af_inet}
use libpotato.IoWatcher.Kernel.{kernel}
use libpotato.IoWatcher.Registration.{active, registered}
use libpotato.Socket.{Reply}
use libpotato.Buffer.{Buffer, init}
use libpotato.Buffer.Contents.{init-IsValid, contents}
use libpotato.TcpConnection.{
  World, Callbacks, took, write, handle_write_event, handle_read_event, handle_close_event,
  bind_socket, close, reset,
}
use libpotato.TcpConnection.Live.{IsLive, Live, Owes, open_socket, facts}
use libpotato.TcpConnection.Receive.{arrival, IsReady}
use libpotato.TcpConnection.Stream.{write-Owes}
use libpotato.TcpConnection.Drain.{handle_write_event-Owes}
use libpotato.TcpConnection.Arrivals.{handle_read_event-IsReady, handle_read_event-received}
use libpotato.TcpConnection.Calls.{Loop, write_asks, write_hands, close_asks, close_hands}
use libpotato.TcpConnection.Outbox.{Happening, write_msg, come_to_queue, room, IsSound}
use libpotato.TcpConnection.Handing.{Owing, happen_all}
use libpotato.TcpConnection.Delivery.{happen_all-Owing}
use libpotato.TcpConnection.Overtaken.{overtaken, overtaken-misdelivered}
use libpotato.TcpConnection.Fate.{Takes}
use libpotato.TcpConnection.Endings.{Event, happening, close_call, happen_events}
use libpotato.TcpConnection.Once.{happen_events-once}
use libpotato.TcpConnection.Racing.{write_hands-null_pointer}
use libpotato.TcpConnection.Completing.{handle_write_event-null_pointer}
use libpotato.TcpConnection.Closing.{handle_close_event-bind_socket, handle_read_event-null_pointer}

abbrev peer : IpAddress
peer = record { sin_family = af_inet; sin_port = 80; sin_addr = 5; sin6_addr = [] }

abbrev waiting_bytes : Buffer
waiting_bytes = record { buf = 1 ∷ 2 ∷ 3 ∷ []; cur_read_index = 1; cur_write_index = 3 }

abbrev no_bytes : Buffer
no_bytes = record { buf = 0 ∷ 0 ∷ []; cur_read_index = 0; cur_write_index = 0 }

-- Descriptor 3, connected, in edge-triggered mode. `server` says whether a server made it.
abbrev connected : Buffer → Bool → Bool → Bool → World kernel
connected out writing message server = record {
  loop = some 1;
  io_event = some (active true 3 writing);
  socket = some (open_socket 3 peer);
  read_buffer = init;
  write_buffer = out;
  message_set = message;
  write_complete_set = false;
  connection_set = false;
  destroy_set = server;
  holder = λ fd. if fd == 3 then some (registered true writing) else none;
  sent = 9 ∷ [];
  closed = [];
}

waiting-IsLive :
    (message server : Bool)
    → IsLive kernel true (connected waiting_bytes true message server) 3 true
waiting-IsLive message server = record {
  bound = record {
    loop_no = 1;
    peer = peer;
    loop_on = refl;
    event_on = refl;
    socket_on = refl;
    known = refl;
    reads = init-IsValid;
    writes = record { read_in = omega arith; write_in = omega arith; small = omega arith };
  };
  drained = λ q. cc;
  waiting = λ q. omega arith;
}

idle-IsLive :
    (message server : Bool) → IsLive kernel true (connected no_bytes false message server) 3 false
idle-IsLive message server = record {
  bound = record {
    loop_no = 1;
    peer = peer;
    loop_on = refl;
    event_on = refl;
    socket_on = refl;
    known = refl;
    reads = init-IsValid;
    writes = record { read_in = omega arith; write_in = omega arith; small = omega arith };
  };
  drained = λ q. refl;
  waiting = λ q. cc;
}

-- Callbacks that do nothing.
abbrev quiet : Callbacks kernel
quiet = record {
  message = λ w. ok w;
  write_complete = λ w. ok w;
  connection = λ w. ok w;
  destroy = λ w. ok w;
}

-- The destroy callback of a server.
abbrev serving : Callbacks kernel
serving = record quiet { destroy = reset kernel true quiet }

-- And a message callback that closes the connection.
abbrev refusing : Callbacks kernel
refusing = record serving { message = close kernel true serving }

idle-IsReady :
    (cb : Callbacks kernel) (message server : Bool) (n : ℕ)
    → n ≤ 100
    → IsReady kernel true cb n (connected no_bytes false message server)
unfolding init
idle-IsReady cb message server n h = record {
  live = (3, false, idle-IsLive message server);
  ample = omega (arith, length-replicate {A = ℕ} 4096 0);
  growth = omega (arith, h, length-replicate {A = ℕ} 4096 0);
}

resets : (w : World kernel) → serving.destroy w ≡ reset kernel true serving w
unfolding reset
resets w = refl

resets_too : (w : World kernel) → refusing.destroy w ≡ reset kernel true refusing w
unfolding reset
resets_too w = refl

closes : (w : World kernel) → refusing.message w ≡ close kernel true refusing w
unfolding close handle_close_event
closes w = refl

-- The kernel takes two bytes, or as many as there are.
abbrev takes_two : Option ℕ → List ℕ → Reply ℕ
takes_two fd bytes = record { ret = some 2; again = false }

write-Owes_example :
    Owes kernel true
      (facts (connected waiting_bytes true false false))
      6
      ((9 ∷ 2 ∷ 3 ∷ []) ++ (7 ∷ 8 ∷ 6 ∷ []))
      (write kernel true quiet takes_two
        (7 ∷ 8 ∷ 6 ∷ [])
        (connected waiting_bytes true false false))
unfolding took
write-Owes_example =
    write-Owes kernel true quiet (λ w live. (w, refl, live, refl, omega arith, refl)) takes_two
      (7 ∷ 8 ∷ 6 ∷ []) (connected waiting_bytes true false false) 3 true
      (waiting-IsLive false false) (omega arith) (omega arith) (λ q. cc)

handle_write_event-Owes_example :
    Owes kernel true
      (facts (connected waiting_bytes true false false))
      3
      (9 ∷ 2 ∷ 3 ∷ [])
      (handle_write_event kernel true quiet takes_two (connected waiting_bytes true false false))
unfolding took
handle_write_event-Owes_example =
    handle_write_event-Owes kernel true quiet (λ w live. (w, refl, live, refl, omega arith, refl))
      takes_two (connected waiting_bytes true false false) 3 (waiting-IsLive false false)
      (omega arith) (λ q. cc)

abbrev two_reads : List (List ℕ)
two_reads = (1 ∷ 2 ∷ []) ∷ (3 ∷ []) ∷ []

handle_read_event-IsReady_example :
    (w' : World kernel) × (handle_read_event kernel true quiet
        (map arrival two_reads)
        (connected no_bytes false true false)
      ≡ ok w')
    × IsReady kernel true quiet 5 w'
handle_read_event-IsReady_example =
    handle_read_event-IsReady kernel true quiet (λ w n r. (w, refl, r)) two_reads
      (connected no_bytes false true false) 5
      (omega arith, omega arith, (omega arith, omega arith, tt))
      (idle-IsReady quiet true false 7 (omega arith))

handle_read_event-received_example :
    (w' : World kernel) × (handle_read_event kernel true quiet
        (map arrival two_reads)
        (connected no_bytes false false false)
      ≡ ok w')
    × (contents w'.read_buffer
        ≡ contents (connected no_bytes false false false).read_buffer ++ (1 ∷ 2 ∷ 3 ∷ []))
handle_read_event-received_example =
    handle_read_event-received kernel true quiet two_reads (connected no_bytes false false false)
      refl (omega arith, omega arith, (omega arith, omega arith, tt))
      (idle-IsReady quiet false false 2 (omega arith))

handle_close_event-bind_socket_example :
    (w' : World kernel) × ((handle_close_event kernel true serving
          (connected waiting_bytes true false true)
        >>= bind_socket kernel true serving (open_socket 4 peer) 2)
      ≡ ok w')
    × (w'.loop ≡ some 2)
    × (contents w'.write_buffer ≡ 2 ∷ 3 ∷ [])
    × (contents w'.read_buffer ≡ contents (connected waiting_bytes true false true).read_buffer)
handle_close_event-bind_socket_example =
    handle_close_event-bind_socket kernel true serving resets
      (connected waiting_bytes true false true) 3 true 4 2 peer (waiting-IsLive false true) refl
      refl

handle_read_event-null_pointer_example :
    handle_read_event kernel true refusing
      (arrival (1 ∷ []) ∷ [])
      (connected no_bytes false true true)
    ≡ err null_pointer
handle_read_event-null_pointer_example =
    handle_read_event-null_pointer kernel true refusing resets_too
      (connected no_bytes false true true) (1 ∷ []) [] closes
      (idle-IsReady refusing true true 1 (omega arith)) (omega arith) (omega arith) refl refl refl

-- A kernel that takes one byte at a time.
abbrev takes_one : Option ℕ → List ℕ → Reply ℕ
takes_one fd [] = record { ret = some 0; again = false }
takes_one fd (b ∷ bs) = record { ret = some 1; again = false }

takes_one_at_most : (fd : Option ℕ) (bytes : List ℕ) → took (takes_one fd bytes) ≤ length bytes
unfolding took
takes_one_at_most fd [] = omega arith
takes_one_at_most fd (b ∷ bs) = omega arith

takes_one_again :
    (fd : Option ℕ) (bytes : List ℕ)
    → (takes_one fd bytes).ret ≡ none
    → (takes_one fd bytes).again ≡ true
takes_one_again fd [] e = cc
takes_one_again fd (b ∷ bs) e = cc

takes_one_again_later :
    (fd : Option ℕ) (bytes : List ℕ)
    → 0 < length bytes
    → took (takes_one fd bytes) ≡ 0
    → (takes_one fd bytes).again ≡ true
unfolding took
takes_one_again_later fd [] h e = absurd (omega arith)
takes_one_again_later fd (b ∷ bs) h e = absurd (omega (arith, e))

takes_one-IsSound : IsSound takes_one
takes_one-IsSound = record {
  at_most = takes_one_at_most;
  again = takes_one_again;
  again_later = takes_one_again_later;
}

-- The loop of a connection, with an empty queue.
abbrev loop_of : World kernel → Loop kernel true quiet
loop_of w = record {
  looping = true;
  pending_functors = [];
  at_first = [];
  at_second = [];
  rest = ok w;
}

abbrev morning : List Happening
morning =
    write_msg false takes_one (7 ∷ 8 ∷ [])
    ∷ write_msg true takes_one (1 ∷ 2 ∷ [])
    ∷ come_to_queue
    ∷ room takes_one
    ∷ write_msg false takes_one (5 ∷ [])
    ∷ []

idle-Owing :
    Owing kernel true quiet 2
      (loop_of (connected no_bytes false false false))
      (record { owed = 9 ∷ []; queued = [] })
idle-Owing = record {
  connection = connected no_bytes false false false;
  running = refl;
  live = (3, false, idle-IsLive false false);
  owes = refl;
  queue = refl;
  writes_only = tt;
  small = omega arith;
}

happen_all-Owing_example :
    Owing kernel true quiet 7
      (happen_all kernel true quiet morning (loop_of (connected no_bytes false false false)))
      (record { owed = 9 ∷ 1 ∷ 2 ∷ 7 ∷ 8 ∷ []; queued = 5 ∷ [] })
happen_all-Owing_example =
    happen_all-Owing kernel true quiet (λ w live. (w, refl, live, refl, omega arith, refl)) morning
      2 (loop_of (connected no_bytes false false false)) (record { owed = 9 ∷ []; queued = [] })
      (takes_one-IsSound, (takes_one-IsSound, (takes_one-IsSound, (takes_one-IsSound, tt))))
      (omega arith) idle-Owing

-- A kernel that takes all.
abbrev takes_all : Option ℕ → List ℕ → Reply ℕ
takes_all fd bytes = record { ret = some (length bytes); again = false }

overtaken-misdelivered_example :
    (w' : World kernel) × ((overtaken kernel true serving takes_all
        (7 ∷ 8 ∷ [])
        4
        1
        peer
        (loop_of (connected no_bytes false false true))).rest
      ≡ ok w')
    × (w'.socket ≡ some (open_socket 4 peer))
    × (w'.sent ≡ 9 ∷ 7 ∷ 8 ∷ [])
overtaken-misdelivered_example =
    overtaken-misdelivered kernel true serving takes_all (7 ∷ 8 ∷ []) 4 1 peer
      (loop_of (connected no_bytes false false true)) (connected no_bytes false false true) refl 3
      false (idle-IsLive false true) resets refl refl refl refl refl refl

-- A connection whose write-complete callback closes it.
abbrev finishing : Callbacks kernel
finishing = record serving { write_complete = close kernel true serving }

resets_as_well : (w : World kernel) → finishing.destroy w ≡ reset kernel true finishing w
unfolding reset
resets_as_well w = refl

closes_at_end : (w : World kernel) → finishing.write_complete w ≡ close kernel true finishing w
unfolding close handle_close_event
closes_at_end w = refl

abbrev last_answer : World kernel
last_answer = record (connected waiting_bytes true false true) { write_complete_set = true }

last_answer-IsLive : IsLive kernel true last_answer 3 true
last_answer-IsLive =
    let v = waiting-IsLive false true in
    record {
      bound = record {
        loop_no = v.bound.loop_no;
        peer = v.bound.peer;
        loop_on = v.bound.loop_on;
        event_on = v.bound.event_on;
        socket_on = v.bound.socket_on;
        known = v.bound.known;
        reads = v.bound.reads;
        writes = v.bound.writes;
      };
      drained = v.drained;
      waiting = v.waiting;
    }

handle_write_event-null_pointer_example :
    handle_write_event kernel true finishing takes_all last_answer ≡ err null_pointer
unfolding took
handle_write_event-null_pointer_example =
    handle_write_event-null_pointer kernel true finishing resets_as_well closes_at_end takes_all
      last_answer 3 last_answer-IsLive refl refl refl refl

-- Two threads write, one of them closes the connection before the loop comes to its queue, and the
-- kernel fails.
abbrev fails : Option ℕ → List ℕ → Reply ℕ
fails fd bytes = record { ret = none; again = false }

fails-Takes : Takes fails
unfolding took
fails-Takes fd bytes = omega arith

abbrev evening : List Event
evening =
    happening (write_msg false takes_one (7 ∷ 8 ∷ []))
    ∷ close_call false
    ∷ happening (write_msg true fails (1 ∷ 2 ∷ []))
    ∷ happening come_to_queue
    ∷ close_call true
    ∷ happening (room fails)
    ∷ []

abbrev serving_loop : Loop kernel true serving
serving_loop = record {
  looping = true;
  pending_functors = [];
  at_first = [];
  at_second = [];
  rest = ok (connected no_bytes false false true);
}

happen_events-once_example :
    (w' : World kernel) × ((happen_events kernel true serving evening serving_loop).rest ≡ ok w')
    × ((Live kernel true w' × (facts w' ≡ facts (connected no_bytes false false true)))
        ⊎ ((w'.socket ≡ none) × (w'.io_event ≡ none) × (w'.closed ≡ 3 ∷ [])))
happen_events-once_example =
    happen_events-once kernel true serving (λ w live. (w, refl, live, refl, omega arith, refl))
      resets 3 peer [] false evening serving_loop (connected no_bytes false false true) refl refl
      (3, false, idle-IsLive false true) refl
      (takes_one_at_most, (fails-Takes, (tt, (fails-Takes, tt)))) (omega arith)

write_hands-null_pointer_example :
    (write_asks kernel true serving (connected no_bytes false false true)
      ≡ write_hands kernel true serving (connected no_bytes false false true))
    × (close_asks kernel true serving (connected no_bytes false false true)
        ≡ close_hands kernel true serving (connected no_bytes false false true))
    × (w' : World kernel) × (handle_close_event kernel true serving
          (connected no_bytes false false true)
        ≡ ok w')
    × (write_hands kernel true serving w' ≡ err null_pointer)
    × (close_hands kernel true serving w' ≡ err assertion)
    × (write_asks kernel true serving w' ≡ ok false)
    × (close_asks kernel true serving w' ≡ ok false)
write_hands-null_pointer_example =
    write_hands-null_pointer kernel true serving resets (connected no_bytes false false true) 3
      false (idle-IsLive false true) refl refl
