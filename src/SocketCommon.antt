-- ===== src/SocketCommon.antt =====
-- potato/net/SocketCommon.h and SocketCommon.cpp, and the guard of a socket in
-- potato/utils/ScopeGuard.h: the options of sockets on each platform, the pair of connected sockets
-- that Windows lacks, and the wakeup sockets of a loop (potato/net/EventLoop.cpp) made of it.
--
-- `Process` is what the calls of a process leave behind: the descriptors it was given, those it has
-- closed, and what it has told the kernel. A descriptor is `none` where it is INVALID_SOCKET.
pub mod Guards
mod Tests
use libpotato.Base.{
  ℕ, Bool, true, false, not, ◌||◌, Option, none, some, List, [], ◌∷◌, ◌++◌, Result, ok, err,
  aborted, ◌>>=◌, if◌then◌else◌, as_list,
}

pub data Platform : Type 0 where
  linux windows : Platform

-- The constants that name an option.
pub data Level : Type 0 where
  sol_socket ipproto_tcp : Level

pub data Name : Type 0 where
  so_reuseaddr so_reuseport so_keepalive tcp_nodelay so_error : Name

-- What a call tells the kernel about a descriptor: an option's value, or that its calls do not wait.
pub data Told : Type 0 where
  sock_opt : Option ℕ → Level → Name → ℕ → Told
  nonblock : Option ℕ → Told

pub record Process : Type 0 where
  pub gained : List ℕ
  pub closed : List ℕ
  pub told : List Told

abbrev pub tell : Told → Process → Process
tell t p = record p { told = p.told ++ (t ∷ []) }

-- `setSockOpt` with an `int`, and its callers.
unfoldable pub set_sock_opt : Option ℕ → Level → Name → ℕ → Process → Process
set_sock_opt fd level name value p = tell (sock_opt fd level name value) p

abbrev pub option_of : Bool → ℕ
option_of on = if on then 1 else 0

unfoldable pub set_reuse_addr : Option ℕ → Bool → Process → Process
set_reuse_addr fd on p = set_sock_opt fd sol_socket so_reuseaddr (option_of on) p

unfoldable pub set_reuse_port : Platform → Option ℕ → Bool → Process → Process
set_reuse_port linux fd on p = set_sock_opt fd sol_socket so_reuseport (option_of on) p
set_reuse_port windows fd on p = p

unfoldable pub set_keep_alive : Option ℕ → Bool → Process → Process
set_keep_alive fd on p = set_sock_opt fd sol_socket so_keepalive (option_of on) p

unfoldable pub set_tcp_no_delay : Option ℕ → Bool → Process → Process
set_tcp_no_delay fd on p = set_sock_opt fd ipproto_tcp tcp_nodelay (option_of on) p

-- `setNonBlock`, with the reply of `fcntl` or of `ioctlsocket` left aside.
unfoldable pub set_non_block : Option ℕ → Process → Process
set_non_block fd p = tell (nonblock fd) p

-- `getSocketError`, with the error that `getsockopt` gives; it gives none where it fails.
unfoldable pub get_socket_error : (Option ℕ → Level → Name → Option ℕ) → Option ℕ → ℕ
get_socket_error get_sock_opt fd = elim (get_sock_opt fd sol_socket so_error) [
  | none ↦ 0
  | some e ↦ e
]

-- A call that gives a descriptor, and one that closes it.
abbrev pub gain : Option ℕ → Process → Process
gain fd p = record p { gained = p.gained ++ as_list fd }

unfoldable pub close : Option ℕ → Process → Process
close fd p = record p { closed = p.closed ++ as_list fd }

-- `SocketScopeGuard`: its descriptor, `release` and the destructor.
pub record SocketScopeGuard : Type 0 where
  pub socket : Option ℕ

unfoldable pub release : SocketScopeGuard → SocketScopeGuard
release g = record g { socket = none }

unfoldable pub delete_guard : SocketScopeGuard → Process → Process
delete_guard g p = elim g.socket [ none ↦ p | some fd ↦ close (some fd) p ]

-- The kernel's replies to the calls of `socketPair` on Windows: the descriptors given, and whether
-- `bind`, `listen` and `connect` succeed.
pub record PairReplies : Type 0 where
  pub listen_sock : Option ℕ
  pub client_sock : Option ℕ
  pub binds : Bool
  pub listens : Bool
  pub connects : Bool
  pub server_sock : Option ℕ

abbrev pub is_invalid : Option ℕ → Bool
is_invalid none = true
is_invalid (some fd) = false

-- A `return`: the guards are deleted, the second one first.
abbrev pub leave :
    Option (Option ℕ × Option ℕ)
    → SocketScopeGuard
    → SocketScopeGuard
    → Process
    → Option (Option ℕ × Option ℕ) × Process
leave result guard1 guard2 p = (result, delete_guard guard1 (delete_guard guard2 p))

-- `socketPair` on Windows. The result is the pair, or `none` for -1.
unfoldable pub socket_pair : PairReplies → Process → Option (Option ℕ × Option ℕ) × Process
socket_pair r p =
    let p1 = set_reuse_addr r.listen_sock true (gain r.listen_sock p) in
    let guard1 : SocketScopeGuard = record { socket = r.listen_sock } in
    let p2 = gain r.client_sock p1 in
    let guard2 : SocketScopeGuard = record { socket = r.client_sock } in
    if is_invalid r.listen_sock || is_invalid r.client_sock
    then leave none guard1 guard2 p2
    else if not r.binds
    then leave none guard1 guard2 p2
    else if not r.listens
    then leave none guard1 guard2 p2
    else if not r.connects
    then leave none guard1 guard2 p2
    else (let p3 = gain r.server_sock p2 in
        if is_invalid r.server_sock
        then leave none guard1 guard2 p3
        else leave (some (r.client_sock, r.server_sock)) guard1 (release guard2) p3)

-- `createWakeupSocket`, with what `socketPair` gives.
unfoldable pub create_wakeup_socket :
    (Process → Option (Option ℕ × Option ℕ) × Process)
    → Process
    → Result ((Option ℕ × Option ℕ) × Process)
create_wakeup_socket pair p = elim (pair p).0 [
  | none ↦ err aborted
  | some (first, second) ↦
      ok ((first, second), set_non_block second (set_non_block first (pair p).1))
]
