-- ===== src/TcpConnection.antt =====
-- potato/net/TcpConnection.h and TcpConnection.cpp: a connection as its loop's thread runs it.
--
-- `World` is a connection with what its calls reach: the kernel's interest list of its loop, the
-- bytes that the kernel has taken for its descriptor and the descriptors that are closed. The user's
-- callbacks, and the server's destroy callback, are functions on the world: they may call back into
-- the connection. The replies of the system calls are arguments of the calls that make them.
pub mod Live
pub mod Closing
pub mod Arrivals
pub mod Receive
pub mod Flushing
pub mod Drain
pub mod Completing
pub mod Stream
pub mod Outbox
pub mod Handing
pub mod Delivery
pub mod Overtaken
pub mod Fate
pub mod Endings
pub mod Turns
pub mod Once
pub mod Racing
pub mod Calls
mod Tests
use libpotato.Base.{
  ℕ, Bool, true, false, not, ◌&&◌, Option, none, some, List, [], ◌∷◌, ◌++◌, Result, ok, err,
  assertion, null_pointer, guard, ◌>>=◌, ◌>>◌, if◌then◌else◌, ltb, ◌==◌, length, take, drop,
}
use libpotato.Buffer.{
  Buffer, copy_to, has_written, writeable_bytes, readable_bytes, expand_buffer, read_as_slice,
  begin_write,
}
use libpotato.Buffer
use libpotato.IoWatcher.{
  IoEvent, Epoll, new_event, expect_reading, expect_writing, ignore_writing, remove_this_event,
}
use libpotato.IpAddress.{IpAddress}
use libpotato.Socket.{Socket, Reply, valid}
use libpotato.Socket

-- `n > 0`, and the count or the bytes where it holds.
unfoldable pub took : Reply ℕ → ℕ
took r = elim r.ret [ none ↦ 0 | some n ↦ n ]

unfoldable pub has_bytes : Reply (List ℕ) → Bool
has_bytes r = elim r.ret [ none ↦ false | some bytes ↦ ltb 0 (length bytes) ]

unfoldable pub got : Reply (List ℕ) → List ℕ
got r = elim r.ret [ none ↦ [] | some bytes ↦ bytes ]

module _ (k : Epoll) where
  pub record World : Type 0 where
    pub loop : Option ℕ
    pub io_event : Option IoEvent
    pub socket : Option Socket
    pub read_buffer : Buffer
    pub write_buffer : Buffer
    pub message_set : Bool
    pub write_complete_set : Bool
    pub connection_set : Bool
    pub destroy_set : Bool
    pub holder : k.Holder
    pub sent : List ℕ
    pub closed : List ℕ

  -- `messageCallback_`, `writeCompleteCallback_`, `connectionCallback_` and `destroyCallback_`.
  pub record Callbacks : Type 0 where
    pub message : World → Result World
    pub write_complete : World → Result World
    pub connection : World → Result World
    pub destroy : World → Result World

  -- A pointer that is read: `p->f()`.
  abbrev pub deref {ℓ} : {A : Type ℓ} → Option A → Result A
  deref none = err null_pointer
  deref (some a) = ok a

  -- `assert(p)`.
  abbrev pub assert_set {ℓ} : {A : Type ℓ} → Option A → Result A
  assert_set none = err assertion
  assert_set (some a) = ok a

  abbrev pub if_set : Bool → (World → Result World) → World → Result World
  if_set b f w = if b then f w else ok w

  -- The setters of the callbacks, with whether a function is given.
  abbrev pub set_message_callback : Bool → World → World
  set_message_callback given w = record w { message_set = given }

  abbrev pub set_write_complete_callback : Bool → World → World
  set_write_complete_callback given w = record w { write_complete_set = given }

  abbrev pub set_connection_callback : Bool → World → World
  set_connection_callback given w = record w { connection_set = given }

  abbrev pub set_destroy_callback : Bool → World → World
  set_destroy_callback given w = record w { destroy_set = given }

  unfoldable pub peer_address : World → Result IpAddress
  peer_address w = do s ← assert_set w.socket; ok s.address

  -- `isConnected()`.
  unfoldable pub is_connected : World → Bool
  is_connected w = elim w.socket [ none ↦ false | some s ↦ s.connected ]

  -- The socket is closed, as `close()` does: its descriptor joins those closed.
  abbrev pub closed_after : Option ℕ → List ℕ → List ℕ
  closed_after none fds = fds
  closed_after (some fd) fds = fds ++ (fd ∷ [])

  unfoldable pub close_socket : Socket → World → World
  close_socket s w = record w {
    socket = some (Socket.close s).0;
    closed = closed_after (Socket.close s).1 w.closed;
  }

  -- `TcpConnection(index, local)`, with the interest list that its events are to join.
  unfoldable pub new_connection : k.Holder → World
  new_connection h = record {
    loop = none;
    io_event = none;
    socket = none;
    read_buffer = Buffer.init;
    write_buffer = Buffer.init;
    message_set = false;
    write_complete_set = false;
    connection_set = false;
    destroy_set = false;
    holder = h;
    sent = [];
    closed = [];
  }

  -- The checks of `~TcpConnection()`.
  unfoldable pub delete_connection : World → Result (Unit {0})
  delete_connection w = do
    guard (elim w.io_event [ none ↦ true | some e ↦ false ]) assertion
    guard (elim w.socket [ none ↦ true | some s ↦ false ]) assertion

  module _ (et : Bool) (cb : Callbacks) where
    -- The assignments of `bindSocket`, before it hands `bind_in_loop` to the loop.
    unfoldable pub bind_socket : Socket → ℕ → World → Result World
    bind_socket s l w = do
      guard (elim w.loop [ none ↦ true | some x ↦ false ]) assertion
      guard (elim w.socket [ none ↦ true | some x ↦ false ]) assertion
      guard (elim w.io_event [ none ↦ true | some x ↦ false ]) assertion
      guard (valid s && s.connected) assertion
      ok (record w { loop = some l; io_event = some (new_event et s.socket); socket = some s })

    -- What `bindSocket` runs in the loop.
    unfoldable pub bind_in_loop : World → Result World
    bind_in_loop w = do
      e ← deref w.io_event
      (e', h') ← expect_reading k et e w.holder
      if_set w.connection_set cb.connection (record w { io_event = some e'; holder = h' })

    -- The socket's destructor, if this was its last owner.
    abbrev pub drop_socket : Option Socket → World → World
    drop_socket none w = record w { socket = none }
    drop_socket (some s) w = record w {
      socket = none;
      closed = closed_after (Socket.close s).1 w.closed;
    }

    unfoldable pub reset : World → Result World
    reset w = do
      _ ← assert_set w.io_event
      _ ← assert_set w.socket
      _ ← assert_set w.loop
      w' ← if_set w.connection_set cb.connection w
      ok (drop_socket w'.socket (record w' { loop = none; io_event = none }))

    unfoldable pub handle_close_event : World → Result World
    unfolding close_socket
    handle_close_event w = elim w.socket [
      | none ↦ ok w
      | some s ↦ (do
        e ← assert_set w.io_event
        _ ← assert_set w.loop
        if s.connected
            then (do
              (e', h') ← remove_this_event k et e w.holder
              if_set w.destroy_set cb.destroy
                  (close_socket s (record w { io_event = some e'; holder = h' })))
            else ok w)
    ]

    -- `close()`, on the loop's thread.
    unfoldable pub close : World → Result World
    close w = elim w.socket [
      | none ↦ ok w
      | some s ↦ (do _ ← assert_set w.io_event; _ ← assert_set w.loop; handle_close_event w)
    ]

    unfoldable pub ignore : World → Result World
    ignore w = do
      e ← deref w.io_event
      (e', h') ← ignore_writing k et e w.holder
      ok (record w { io_event = some e'; holder = h' })

    unfoldable pub expect : World → Result World
    expect w = do
      e ← deref w.io_event
      (e', h') ← expect_writing k et e w.holder
      ok (record w { io_event = some e'; holder = h' })

    -- `handleWriteEvent` once `n > 0` bytes are taken by the kernel.
    unfoldable pub after_write : ℕ → World → Result World
    after_write n w = do
      b ← Buffer.retrieve w.write_buffer n
      left ← readable_bytes b
      let w' = record w { write_buffer = b }
      if left == 0
          then (do w'' ← ignore w'; if_set w''.write_complete_set cb.write_complete w'')
          else ok w'

    -- `handleWriteEvent` once the kernel took nothing.
    unfoldable pub after_no_write : Bool → World → Result World
    after_no_write again w = if again then expect w else handle_close_event w

    unfoldable pub write_pending : (Option ℕ → List ℕ → Reply ℕ) → Socket → World → Result World
    unfolding took
    write_pending sys_write s w = do
      bytes ← read_as_slice w.write_buffer
      let r = Socket.write false sys_write s bytes
      if ltb 0 (took r)
          then after_write (took r) (record w { sent = w.sent ++ take (took r) bytes })
          else after_no_write r.again w

    -- `handleWriteEvent` past its checks.
    unfoldable pub flush : (Option ℕ → List ℕ → Reply ℕ) → Socket → World → Result World
    flush sys_write s w = do
      n ← readable_bytes w.write_buffer
      w' ← if ltb 0 n then write_pending sys_write s w else ok w
      m ← readable_bytes w'.write_buffer
      if m == 0 then ignore w' else ok w'

    unfoldable pub handle_write_event : (Option ℕ → List ℕ → Reply ℕ) → World → Result World
    handle_write_event sys_write w = elim w.socket [
      | none ↦ ok w
      | some s ↦ (do
        e ← assert_set w.io_event
        if not s.connected then ok w else (do guard e.is_writing assertion; flush sys_write s w))
    ]

    -- The rest of a message that the kernel did not take is kept for later.
    unfoldable pub keep_rest : ℕ → List ℕ → World → Result World
    keep_rest written str w =
        if written == length str then if_set w.write_complete_set cb.write_complete w else (do
          b ← Buffer.write w.write_buffer (drop written str)
          expect (record w { write_buffer = b }))

    unfoldable pub write_now :
        (Option ℕ → List ℕ → Reply ℕ) → List ℕ → Socket → World → Result World
    unfolding took
    write_now sys_write str s w =
        let r = Socket.write false sys_write s str in
        if (elim r.ret [ none ↦ true | some n ↦ false ]) && not r.again
        then handle_close_event w
        else keep_rest (took r) str (record w { sent = w.sent ++ take (took r) str })

    -- What `write` runs in the loop.
    unfoldable pub write_in_loop : (Option ℕ → List ℕ → Reply ℕ) → List ℕ → World → Result World
    write_in_loop sys_write str w = elim w.socket [
      | none ↦ ok w
      | some s ↦ (do
        e ← assert_set w.io_event
        _ ← assert_set w.loop
        if not s.connected
            then ok w
            else if e.is_writing
            then (do b ← Buffer.write w.write_buffer str; ok (record w { write_buffer = b }))
            else write_now sys_write str s w)
    ]

    -- `write`, which `send` is another name of, on the loop's thread.
    unfoldable pub write : (Option ℕ → List ℕ → Reply ℕ) → List ℕ → World → Result World
    write sys_write msg w = elim w.socket [
      | none ↦ ok w
      | some s ↦ (do _ ← deref w.loop; write_in_loop sys_write msg w)
    ]

    -- The bytes of one read, taken into the buffer; room for 4096 more is made.
    unfoldable pub take_in : List ℕ → World → Result World
    take_in bytes w = do
      filled ← copy_to w.read_buffer.buf (begin_write w.read_buffer) bytes
      b ← has_written (record (w.read_buffer) { buf = filled }) (length bytes)
      n ← writeable_bytes b
      b' ← if ltb n 4096 then expand_buffer b 4096 else ok b
      ok (record w { read_buffer = b' })

    -- `handleReadEvent` after a read that gave no bytes: the end of the stream, or an error.
    unfoldable pub after_no_read : Reply (List ℕ) → World → Result World
    after_no_read r w = elim r.ret [
      | some bytes ↦ handle_close_event w
      | none ↦ if r.again then ok w else handle_close_event w
    ]

    -- One read into the room of the buffer, with the system's reply to it.
    unfoldable pub read_once : Reply (List ℕ) → World → Result (Reply (List ℕ))
    read_once r w = do
      s ← deref w.socket
      n ← writeable_bytes w.read_buffer
      ok (Socket.read false (λ fd len. r) s n)

    -- The loop of `handleReadEvent` over the replies of the system's successive reads. After the last
    -- of them there is nothing more to read: the reply is EAGAIN.
    unfoldable pub read_loop : List (Reply (List ℕ)) → World → Result World
    read_loop [] w = ok w
    read_loop (r ∷ rs) w = do
      r' ← read_once r w
      let more = (do
        w1 ← take_in (got r') w
        w2 ← if_set w1.message_set cb.message w1
        e ← deref w2.io_event
        if e.et_mode then read_loop rs w2 else ok w2)
      if has_bytes r' then more else after_no_read r' w

    unfoldable pub handle_read_event : List (Reply (List ℕ)) → World → Result World
    handle_read_event rs w = elim w.socket [
      | none ↦ ok w
      | some s ↦ (do _ ← assert_set w.io_event; if not s.connected then ok w else read_loop rs w)
    ]
