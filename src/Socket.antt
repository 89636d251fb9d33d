-- ===== src/Socket.antt =====
-- potato/net/Socket.h and Socket.cpp. The system calls are arguments: each is the function from what
-- the call is given to its reply. A descriptor is `none` where it is INVALID_SOCKET.
pub mod Life
mod Tests
use libpotato.Base.{
  ℕ, Bool, true, false, not, ◌&&◌, Option, none, some, List, Result, ok, err, assertion, aborted,
  guard, ◌>>=◌, ◌>>◌, if◌then◌else◌,
}
use libpotato.IpAddress.{IpAddress, Family, af_inet, af_inet6, ipv6}

pub data SockType : Type 0 where
  tcp_socket tcp_socket6 udp_socket udp_socket6 : SockType

pub data Kind : Type 0 where
  sock_stream sock_dgram : Kind

pub record Socket : Type 0 where
  pub socket : Option ℕ
  pub connected : Bool
  pub address : IpAddress

unfoldable pub valid_descriptor : Option ℕ → Bool
valid_descriptor none = false
valid_descriptor (some fd) = true

unfoldable pub valid : Socket → Bool
unfolding valid_descriptor
valid s = valid_descriptor s.socket

abbrev pub is_connected : Socket → Bool
is_connected s = s.connected

-- The arguments of `socket()` for each type.
unfoldable pub socket_of : SockType → (Family → Kind → Option ℕ) → Option ℕ
socket_of tcp_socket open_socket = open_socket af_inet sock_stream
socket_of tcp_socket6 open_socket = open_socket af_inet6 sock_stream
socket_of udp_socket open_socket = open_socket af_inet sock_dgram
socket_of udp_socket6 open_socket = open_socket af_inet6 sock_dgram

module _ (blank : IpAddress) where
  -- `Socket(type, abortOnErr)`. Without the flag a failed call leaves an invalid socket.
  unfoldable pub new_socket : (Family → Kind → Option ℕ) → SockType → Bool → Result Socket
  unfolding socket_of
  new_socket open_socket type abort_on_err = elim (socket_of type open_socket) [
    | none ↦
        if abort_on_err
        then err aborted
        else ok (record { socket = none; connected = false; address = blank })
    | some fd ↦ ok (record { socket = some fd; connected = false; address = blank })
  ]

  -- `Socket()`.
  unfoldable pub no_socket : Socket
  no_socket = record { socket = none; connected = false; address = blank }

-- `Socket(socket, addr)`, which `adopt` and `accept` call.
unfoldable pub adopt : Option ℕ → IpAddress → Result Socket
adopt none a = err assertion
adopt (some fd) a = ok (record { socket = some fd; connected = true; address = a })

-- `close()`, which the destructor calls too: the socket, and the descriptor that is closed.
unfoldable pub close : Socket → Socket × Option ℕ
close s = (record s { socket = none; connected = false }, s.socket)

-- The assertion before `bind`, `connect`, `listen`, `accept`, `setReuseAddr` and `setReusePort`.
unfoldable pub unconnected : Socket → Result (Unit {0})
unfolding valid
unconnected s = guard (not s.connected && valid s) assertion

abbrev pub addr_len : IpAddress → ℕ
addr_len a = if ipv6 a then 28 else 16

-- A reply is true for success.
unfoldable pub bind : (Option ℕ → IpAddress → ℕ → Bool) → Socket → IpAddress → Result Socket
unfolding unconnected
bind sys_bind s a = do
  unconnected s
  guard (sys_bind s.socket a (addr_len a)) aborted
  ok (record s { address = a })

-- `name` is the address that `getsockname` gives.
unfoldable pub connect :
    (Option ℕ → IpAddress → ℕ → Bool)
    → (Option ℕ → IpAddress)
    → Socket
    → IpAddress
    → Result (Socket × Bool)
unfolding unconnected
connect sys_connect name s a = do
  unconnected s
  ok (
      if sys_connect s.socket a (addr_len a)
      then (record s { address = name s.socket; connected = true }, true)
      else (s, false))

unfoldable pub listen : (Option ℕ → Bool) → Socket → Result (Unit {0})
unfolding unconnected
listen sys_listen s = do unconnected s; guard (sys_listen s.socket) aborted; ok tt

-- The reply of `accept` is a descriptor and the peer's address. The result is a null pointer where
-- the call fails.
unfoldable pub accept : (Option ℕ → Option ℕ × IpAddress) → Socket → Result (Option Socket)
unfolding unconnected
accept sys_accept s = do
  unconnected s
  let reply = sys_accept s.socket
  elim reply.0 [ none ↦ ok none | some fd ↦ (do s' ← adopt (some fd) reply.1; ok (some s')) ]

-- An option that the kernel is told to switch on or off for a descriptor. Its reply goes to the log
-- only.
pub data SocketOption : Type 0 where
  non_block reuse_addr reuse_port tcp_no_delay keep_alive : SocketOption

pub record OptionCall : Type 0 where
  pub fd : Option ℕ
  pub option : SocketOption
  pub on : Bool

unfoldable pub set_non_block : Socket → Result OptionCall
unfolding valid
set_non_block s = do
  guard (valid s) assertion
  ok (record { fd = s.socket; option = non_block; on = true })

unfoldable pub set_reuse_addr : Socket → Bool → Result OptionCall
unfolding unconnected
set_reuse_addr s on = do unconnected s; ok (record { fd = s.socket; option = reuse_addr; on = on })

unfoldable pub set_reuse_port : Socket → Bool → Result OptionCall
unfolding unconnected
set_reuse_port s on = do unconnected s; ok (record { fd = s.socket; option = reuse_port; on = on })

unfoldable pub set_tcp_no_delay : Socket → Bool → Result OptionCall
unfolding valid
set_tcp_no_delay s on = do
  guard (valid s) assertion
  ok (record { fd = s.socket; option = tcp_no_delay; on = on })

unfoldable pub set_keep_alive : Socket → Bool → Result OptionCall
unfolding valid
set_keep_alive s on = do
  guard (valid s) assertion
  ok (record { fd = s.socket; option = keep_alive; on = on })

-- The reply of `read` or `write`: the count, `none` for -1, and whether `errno` is EAGAIN after it.
pub record Reply (A : Type 0) : Type 0 where
  pub ret : Option A
  pub again : Bool

-- A closed socket fails without a system call, and leaves `errno` as it is.
unfoldable pub write : Bool → (Option ℕ → List ℕ → Reply ℕ) → Socket → List ℕ → Reply ℕ
write again sys_write s bytes =
    if s.connected then sys_write s.socket bytes else record { ret = none; again = again }

unfoldable pub read : Bool → (Option ℕ → ℕ → Reply (List ℕ)) → Socket → ℕ → Reply (List ℕ)
read again sys_read s len =
    if s.connected then sys_read s.socket len else record { ret = none; again = again }
