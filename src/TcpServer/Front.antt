-- ===== src/TcpServer/Front.antt =====
-- potato/net/TcpServer.h and TcpServer.cpp: the server from outside. `Front` is a server with its
-- acceptor; `lent` has the indices of the connections in use, the last one first.
use libpotato.Base.{
  ℕ, Bool, false, Option, none, some, List, [], ◌∷◌, Result, ok, err, endless, ◌>>=◌, ◌>>◌,
  if◌then◌else◌, length, drop,
}
use libpotato.IpAddress.{IpAddress}
use libpotato.IoWatcher.{Epoll}
use libpotato.Socket.{Socket}
use libpotato.Acceptor
use libpotato.Acceptor.{Round, new_acceptor, listen, set_new_connection_callback, handle_round}
use libpotato.Acceptor.Life.{Setup}
use libpotato.EventLoopPool
use libpotato.EventLoopPool.{new_pool}
use libpotato.TcpConnection
use libpotato.TcpConnection.{Callbacks, delete_connection}
use libpotato.TcpServer.{Begin, new_server}
use libpotato.TcpServer.Service.{Server, take_connection}

pub record Front (k : Epoll) (et : Bool) : Type 0 where
  pub acceptor : Acceptor.World k et
  pub server : Server k
  pub lent : List ℕ

module _ (k : Epoll) where
  -- The setters, with whether a function is given.
  unfoldable pub set_connection_callback : Bool → Server k → Server k
  set_connection_callback given srv = record srv { connection_set = given }

  unfoldable pub set_message_callback : Bool → Server k → Server k
  set_message_callback given srv = record srv { message_set = given }

  unfoldable pub set_write_complete_callback : Bool → Server k → Server k
  set_write_complete_callback given srv = record srv { write_complete_set = given }

  unfoldable pub set_thread_num : ℕ → Server k → Server k
  set_thread_num n srv = record srv { loop_pool = EventLoopPool.set_thread_num n srv.loop_pool }

module _ (k : Epoll) (et : Bool) where
  -- `TcpServer(addr, etMode)`, with the interest lists of the acceptor's loop and of the loops of
  -- the connections. The main loop has the number 0.
  unfoldable pub new_front : Setup → IpAddress → k.Holder → k.Holder → Result (Front k et)
  new_front c address h h' = do
    a ← new_acceptor k et c.blank c.sys_socket c.sys_bind c.dev_null address h
    ok (record {
      acceptor = set_new_connection_callback k et a;
      server = record {
        pool = new_server;
        loop_pool = new_pool 0 et;
        connections = λ i. TcpConnection.new_connection k h';
        message_set = false;
        write_complete_set = false;
        connection_set = false;
      };
      lent = [];
    })

  -- `start()` up to `startLoop`, with the order in which the threads add their loops.
  unfoldable pub start : (Option ℕ → Bool) → List ℕ → Front k et → Result (Front k et)
  start sys_listen order fr = do
    a ← listen k et sys_listen fr.acceptor
    elim (EventLoopPool.start order fr.server.loop_pool) [
      | none ↦ err endless
      | some p ↦ ok (record fr { acceptor = a; server = record (fr.server) { loop_pool = p } })
    ]

  -- The checks of `~TcpConnection` for the connections of the pool, which the server's destructor
  -- deletes.
  unfoldable pub delete_connections : (ℕ → TcpConnection.World k) → List ℕ → Result (Unit {0})
  delete_connections connections [] = ok tt
  delete_connections connections (i ∷ is) = do
    delete_connection k (connections i)
    delete_connections connections is

  module _ (begin : Begin) (cb : Callbacks k) where
    -- The sockets that the acceptor hands to `newConnection`, one after another.
    unfoldable pub take_all : List Socket → Server k → List ℕ → Result (Server k × List ℕ)
    take_all [] srv lent = ok (srv, lent)
    take_all (s ∷ ss) srv lent = do
      (srv', lent') ← take_connection k et begin cb s srv lent
      take_all ss srv' lent'

    -- A round of `handleAccept` whose callback is `newConnection`.
    unfoldable pub serve_round : Round → Front k et → Result (Bool × Front k et)
    serve_round r fr = do
      (more, a) ← handle_round k et r fr.acceptor
      (srv, lent) ← take_all (drop (length fr.acceptor.handed) a.handed) fr.server fr.lent
      ok (more, record { acceptor = a; server = srv; lent = lent })

    unfoldable pub serve_accept : List Round → Front k et → Result (Front k et)
    serve_accept [] fr = err endless
    serve_accept (r ∷ rs) fr = do
      (more, fr') ← serve_round r fr
      let rest = serve_accept rs fr'
      if more then rest else ok fr'

    -- The listening socket is ready once for each list of rounds.
    unfoldable pub serve_all : List (List Round) → Front k et → Result (Front k et)
    serve_all [] fr = ok fr
    serve_all (rs ∷ rss) fr = do fr' ← serve_accept rs fr; serve_all rss fr'
