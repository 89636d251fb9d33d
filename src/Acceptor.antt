-- ===== src/Acceptor.antt =====
-- potato/net/Acceptor.h and Acceptor.cpp, on Linux: the listening socket of a server.
--
-- `World` is an acceptor with what its calls reach: the kernel's interest list, the sockets that were
-- handed to the callback, the options that were set, and the descriptors that the process was given and
-- has closed on its behalf. A descriptor is `none` where it is negative.
pub mod Ledger
pub mod Replies
pub mod Rounds
pub mod Loop
pub mod Life
mod Tests
use libpotato.Base.{
  ℕ, Bool, true, false, Option, none, some, List, [], ◌∷◌, ◌++◌, Result, ok, err, endless, ◌>>=◌,
  ◌>>◌, if◌then◌else◌, as_list,
}
use libpotato.IpAddress.{IpAddress, Family, ipv6}
use libpotato.IoWatcher.{IoEvent, Epoll, new_event, expect_reading, remove_this_event}
use libpotato.Socket.{
  Socket, Kind, OptionCall, tcp_socket, tcp_socket6, new_socket, bind, accept, close, set_non_block,
  set_reuse_addr, set_reuse_port,
}
use libpotato.Socket

-- What `errno` can be, as far as the code tells it apart.
pub data Errno : Type 0 where
  eagain emfile other : Errno

abbrev pub is_eagain : Errno → Bool
is_eagain eagain = true
is_eagain emfile = false
is_eagain other = false

-- The reply of a call of `accept`. A call that succeeds leaves `errno` alone.
pub record AcceptReply : Type 0 where
  pub fd : Option ℕ
  pub peer : IpAddress
  pub errno : Errno

abbrev pub errno_after : Errno → AcceptReply → Errno
errno_after before r = elim r.fd [ none ↦ r.errno | some fd ↦ before ]

-- The EMFILE of the call before stands, unless `close(-1)` has put EBADF in its place.
abbrev pub errno_after_close : Option ℕ → Errno
errno_after_close none = other
errno_after_close (some fd) = emfile

-- The kernel's replies in one round of `handleAccept`: to the first `accept`, and, where the round
-- makes these calls, to the second one and to `open("/dev/null")`.
pub record Round : Type 0 where
  pub first : AcceptReply
  pub second : AcceptReply
  pub dev_null : Option ℕ

pub record Acceptor : Type 0 where
  pub listening : Bool
  pub listen_socket : Socket
  pub host_address : IpAddress
  pub io_event : IoEvent
  pub idle_fd : Option ℕ
  pub callback_set : Bool

module _ (k : Epoll) (et : Bool) where
  pub record World : Type 0 where
    pub acceptor : Acceptor
    pub holder : k.Holder
    pub handed : List Socket
    pub options : List OptionCall
    pub gained : List ℕ
    pub closed : List ℕ

  -- `Acceptor(loop, address)`. `dev_null` is the reply to `open`.
  unfoldable pub new_acceptor :
      (blank : IpAddress) (sys_socket : Family → Kind → Option ℕ)
      (sys_bind : Option ℕ → IpAddress → ℕ → Bool) (dev_null : Option ℕ) (address : IpAddress)
      → k.Holder
      → Result World
  new_acceptor blank sys_socket sys_bind dev_null address h = do
    s ← new_socket blank sys_socket (if ipv6 address then tcp_socket6 else tcp_socket) true
    o1 ← set_reuse_addr s true
    o2 ← set_reuse_port s true
    s' ← bind sys_bind s address
    o3 ← set_non_block s'
    ok (record {
      acceptor = record {
        listening = false;
        listen_socket = s';
        host_address = address;
        io_event = new_event et s.socket;
        idle_fd = dev_null;
        callback_set = false;
      };
      holder = h;
      handed = [];
      options = o1 ∷ o2 ∷ o3 ∷ [];
      gained = as_list s.socket ++ as_list dev_null;
      closed = [];
    })

  -- `~Acceptor()`, and the destructor of the listening socket after it.
  unfoldable pub delete_acceptor : World → Result World
  delete_acceptor w = do
    let closed = w.closed ++ as_list w.acceptor.idle_fd
    (e, h) ← remove_this_event k et w.acceptor.io_event w.holder
    let (s, fd) = close w.acceptor.listen_socket
    ok (record w {
      acceptor = record (w.acceptor) { io_event = e; listen_socket = s };
      holder = h;
      closed = closed ++ as_list fd;
    })

  unfoldable pub listen : (Option ℕ → Bool) → World → Result World
  listen sys_listen w = do
    Socket.listen sys_listen w.acceptor.listen_socket
    (e, h) ← expect_reading k et w.acceptor.io_event w.holder
    ok (record w { acceptor = record (w.acceptor) { io_event = e; listening = true }; holder = h })

  -- `setNewConnectionCallback` with a function.
  unfoldable pub set_new_connection_callback : World → World
  set_new_connection_callback w = record w {
    acceptor = record (w.acceptor) { callback_set = true };
  }

  -- `idleFd_ = fd`, a descriptor that the process was just given.
  abbrev set_idle_fd : Option ℕ → World → World
  set_idle_fd fd w = record w {
    acceptor = record (w.acceptor) { idle_fd = fd };
    gained = w.gained ++ as_list fd;
  }

  -- `::close(idleFd_)`.
  abbrev close_idle_fd : World → World
  close_idle_fd w = record w { closed = w.closed ++ as_list w.acceptor.idle_fd }

  -- The branch for EMFILE: the descriptor in reserve is given up for one connection, which is closed.
  -- Whether the loop goes on, and the state.
  unfoldable pub use_reserve : Round → World → Bool × World
  use_reserve r w =
      let taken = set_idle_fd r.second.fd (close_idle_fd w) in
      if is_eagain (errno_after (errno_after_close w.acceptor.idle_fd) r.second)
      then (false, set_idle_fd r.dev_null taken)
      else (true, set_idle_fd r.dev_null (close_idle_fd taken))

  -- The branches for a call that failed with `perrno`.
  unfoldable pub handle_refusal : Errno → Round → World → Bool × World
  handle_refusal emfile r w = use_reserve r w
  handle_refusal other r w = (true, w)
  handle_refusal eagain r w = (false, w)

  -- The socket goes to the callback if there is one, and is closed if there is none.
  unfoldable pub hand_over : Bool → Socket → World → World
  hand_over true s w = record w { handed = w.handed ++ (s ∷ []) }
  hand_over false s w = record w { closed = w.closed ++ as_list (close s).1 }

  unfoldable pub handle_socket : Socket → World → Result World
  handle_socket s w = do
    o ← set_non_block s
    ok (
        hand_over w.acceptor.callback_set s
          (record w { options = w.options ++ (o ∷ []); gained = w.gained ++ as_list s.socket }))

  unfoldable pub handle_reply : Option Socket → Round → World → Result (Bool × World)
  handle_reply none r w = ok (handle_refusal r.first.errno r w)
  handle_reply (some s) r w = do w' ← handle_socket s w; ok (true, w')

  unfoldable pub handle_round : Round → World → Result (Bool × World)
  handle_round r w = do
    ptr ← accept (λ fd. (r.first.fd, r.first.peer)) w.acceptor.listen_socket
    handle_reply ptr r w

  -- `handleAccept()`, with the replies of its rounds. A loop that asks for more does not end.
  unfoldable pub handle_accept : List Round → World → Result World
  handle_accept [] w = err endless
  handle_accept (r ∷ rs) w = do
    (more, w') ← handle_round r w
    let rest = handle_accept rs w'
    if more then rest else ok w'
