-- ===== src/TcpServer/Service.antt =====
-- `TcpServer::newConnection` and `destroyConnection`: the pool, the loops and the connections
-- together. The callbacks are those of a server, on the thread of the connection's loop.
use libpotato.Base.{ℕ, Bool, true, ◌&&◌, List, ◌∷◌, Result, ok, ◌>>=◌, if◌then◌else◌, ◌==◌}
use libpotato.IoWatcher.{Epoll}
use libpotato.Socket.{Socket}
use libpotato.EventLoopPool.{EventLoopPool, get_next_loop}
use libpotato.TcpConnection.{
  set_message_callback, set_write_complete_callback, set_connection_callback, set_destroy_callback,
  World, Callbacks, is_connected, assert_set, bind_socket, bind_in_loop, reset, handle_close_event,
}
use libpotato.TcpServer.{TcpServer, Begin, borrow_connection, return_connection}

-- `connections` is the connection of each index. The three flags say which of the server's callbacks
-- are set.
pub record Server (k : Epoll) : Type 0 where
  pub pool : TcpServer
  pub loop_pool : EventLoopPool
  pub connections : ℕ → World k
  pub message_set : Bool
  pub write_complete_set : Bool
  pub connection_set : Bool

abbrev pub update {ℓ} : {A : Type ℓ} → (ℕ → A) → ℕ → A → ℕ → A
update f i a j = if j == i then a else f j

module _ (k : Epoll) (et : Bool) (begin : Begin) (cb : Callbacks k) where
  unfoldable pub set_callbacks : Server k → World k → World k
  set_callbacks srv w = set_write_complete_callback k srv.write_complete_set (
      set_message_callback k srv.message_set
        (set_destroy_callback k true (set_connection_callback k srv.connection_set w)))

  -- The new connection's index, and the server after it.
  unfoldable pub new_connection : Socket → Server k → Result (ℕ × Server k)
  new_connection socket srv = do
    (i, pool) ← borrow_connection begin srv.pool
    (loop, loop_pool) ← get_next_loop srv.loop_pool
    w ← bind_socket k et cb socket loop (set_callbacks srv (srv.connections i))
    ok (
      i,
      record srv { pool = pool; loop_pool = loop_pool; connections = update srv.connections i w },
    )

  -- What `bindSocket` leaves to the loop.
  unfoldable pub start_connection : ℕ → Server k → Result (Server k)
  start_connection i srv = do
    w ← bind_in_loop k et cb (srv.connections i)
    ok (record srv { connections = update srv.connections i w })

  -- A socket that comes from the acceptor, with a loop that takes it up at once; `lent` has the
  -- indices of the connections that are lent.
  unfoldable pub take_connection : Socket → Server k → (lent : List ℕ) → Result (Server k × List ℕ)
  take_connection socket srv lent = do
    (i, srv1) ← new_connection socket srv
    srv2 ← start_connection i srv1
    ok (srv2, i ∷ lent)

  -- `destroyConnection`, on the loop's thread.
  unfoldable pub destroy_connection : ℕ → Server k → Result (Server k)
  destroy_connection i srv = do
    loop ← assert_set k (srv.connections i).loop
    w ← reset k et cb (srv.connections i)
    ok (record srv {
      pool = return_connection i srv.pool;
      connections = update srv.connections i w;
    })

  -- `handleCloseEvent` of a server's connection. The destroy callback is `destroyConnection`: it is
  -- called for an open connection, if it is set, as the last action.
  unfoldable pub close_connection : ℕ → Server k → Result (Server k)
  close_connection i srv = do
    w ← handle_close_event k et (record cb { destroy = λ w. ok w }) (srv.connections i)
    let closed = record srv { connections = update srv.connections i w }
    if is_connected k (srv.connections i) && (srv.connections i).destroy_set
        then destroy_connection i closed
        else ok closed
