-- ===== src/Acceptor/Life.antt =====
-- An acceptor from its constructor to its destructor.
use libpotato.Base.{
  count, count-append, as_list, ℕ, ◌+◌, ◌≡◌, refl, sym, ap, ◌∙◌, Bool, true, false, Option, none,
  some, List, [], ◌∷◌, ◌++◌, append_assoc, append-nil, Result, ok, err, assertion, ◌>>=◌,
  if◌then◌else◌, arith,
}
use libpotato.IpAddress.{IpAddress, Family, ipv6}
use libpotato.IoWatcher.{Epoll, new_event}
use libpotato.IoWatcher.Registration.{
  expect_reading-IsActive, remove_this_event-gone, remove_this_event-assertion,
}
use libpotato.Socket.{
  Socket, Kind, SockType, SocketOption, OptionCall, reuse_addr, reuse_port, non_block, tcp_socket,
  tcp_socket6, socket_of, new_socket, bind, addr_len, unconnected, valid, close, set_non_block,
  set_reuse_addr, set_reuse_port,
}
use libpotato.Socket
use libpotato.Acceptor.{
  World, Round, new_acceptor, listen, set_new_connection_callback, handle_accept, delete_acceptor,
}
use libpotato.Acceptor.Ledger.{IsBalanced, count-begin, descriptors}
use libpotato.Acceptor.Replies.{Stops, arrivals, delivered}
use libpotato.Acceptor.Loop.{IsListening, handle_accept-IsListening}

-- The replies to the calls of the constructor and of `listen`.
pub record Setup : Type 0 where
  pub blank : IpAddress
  pub sys_socket : Family → Kind → Option ℕ
  pub sys_bind : Option ℕ → IpAddress → ℕ → Bool
  pub sys_listen : Option ℕ → Bool
  pub dev_null : Option ℕ

abbrev type_for : IpAddress → SockType
type_for a = if ipv6 a then tcp_socket6 else tcp_socket

-- The calls succeed, and the socket is `fd`.
pub record Succeeds (c : Setup) (a : IpAddress) (fd : ℕ) : Type 0 where
  pub opened : socket_of (type_for a) c.sys_socket ≡ some fd
  pub bound : c.sys_bind (some fd) a (addr_len a) ≡ true
  pub listens : c.sys_listen (some fd) ≡ true

abbrev pub AllStop : List (List Round) → Type 0
AllStop [] = Unit {0}
AllStop (rs ∷ rss) = Stops rs × AllStop rss

abbrev pub all_arrivals : List (List Round) → List Socket
all_arrivals [] = []
all_arrivals (rs ∷ rss) = arrivals rs ++ all_arrivals rss

module _ (k : Epoll) (et : Bool) where
  abbrev pub begin : Setup → IpAddress → k.Holder → Result (World k et)
  begin c a h = new_acceptor k et c.blank c.sys_socket c.sys_bind c.dev_null a h

  accept_all : List (List Round) → World k et → Result (World k et)
  accept_all [] w = ok w
  accept_all (rs ∷ rss) w = do w' ← handle_accept k et rs w; accept_all rss w'

  -- The whole life: each list has the replies for one call of `handleAccept`.
  pub life : Setup → IpAddress → k.Holder → List (List Round) → Result (World k et)
  life c a h rss = do
    w ← begin c a h
    w1 ← listen k et c.sys_listen w
    w2 ← accept_all rss (set_new_connection_callback k et w1)
    delete_acceptor k et w2

  pub record IsOpened (w : World k et) (fd : ℕ) (h : k.Holder) : Type 0 where
    pub here : w.acceptor.listen_socket.socket ≡ some fd
    pub off : w.acceptor.listen_socket.connected ≡ false
    pub fresh : w.acceptor.io_event ≡ new_event et (some fd)
    pub kernel_same : w.holder ≡ h
    pub empty_handed : w.handed ≡ []
    pub balanced : IsBalanced k et w

  abbrev switched_on : ℕ → SocketOption → OptionCall
  switched_on fd option = record { fd = some fd; option = option; on = true }

  -- The acceptor that the constructor makes.
  abbrev opened_world : Setup → IpAddress → k.Holder → ℕ → World k et
  opened_world c a h fd = record {
    acceptor = record {
      listening = false;
      listen_socket = record { socket = some fd; connected = false; address = a };
      host_address = a;
      io_event = new_event et (some fd);
      idle_fd = c.dev_null;
      callback_set = false;
    };
    holder = h;
    handed = [];
    options = switched_on fd reuse_addr ∷ switched_on fd reuse_port ∷ switched_on fd non_block ∷ [];
    gained = (fd ∷ []) ++ as_list c.dev_null;
    closed = [];
  }

  new_socket-opened :
      (c : Setup) (type : SockType) (fd : ℕ)
      → socket_of type c.sys_socket ≡ some fd
      → new_socket c.blank c.sys_socket type true
        ≡ ok (record { socket = some fd; connected = false; address = c.blank })
  unfolding new_socket
  new_socket-opened c type fd e = rw (new_socket, e)

  pub begin-IsOpened :
      (c : Setup) (a : IpAddress) (h : k.Holder) (fd : ℕ)
      → Succeeds c a fd
      → (w : World k et) × (begin c a h ≡ ok w) × IsOpened w fd h
  unfolding new_acceptor set_reuse_addr set_reuse_port bind set_non_block unconnected valid
  begin-IsOpened c a h fd s = (
    opened_world c a h fd,
    rw (new_socket-opened c (type_for a) fd s.opened, s.bound),
    record {
      here = refl;
      off = refl;
      fresh = refl;
      kernel_same = refl;
      empty_handed = refl;
      balanced = λ i. count-begin i (fd ∷ []) (as_list c.dev_null);
    },
  )

  pub listen-IsListening :
      (c : Setup) (a : IpAddress) (h : k.Holder) (fd : ℕ) (w : World k et)
      → Succeeds c a fd
      → k.interest h fd ≡ none
      → IsOpened w fd h
      → (w' : World k et) × (listen k et c.sys_listen w ≡ ok w')
        × IsListening k et w' fd
        × (w'.handed ≡ [])
        × (w'.acceptor.callback_set ≡ w.acceptor.callback_set)
  unfolding listen Socket.listen unconnected valid
  listen-IsListening c a h fd w s free o =
      let absent : k.interest w.holder fd ≡ none = ap (λ t. k.interest t fd) o.kernel_same ∙ free in
      let (e, h', r, active, others) =
        expect_reading-IsActive k et w.acceptor.io_event w.holder fd
          (record { shape = o.fresh; absent = absent }) in
      (
        record w { acceptor = record (w.acceptor) { io_event = e; listening = true }; holder = h' },
        rw (o.here, o.off, s.listens, r),
        record { here = o.here; off = o.off; watched = active; balanced = o.balanced },
        o.empty_handed,
        refl,
      )

  accept_all-IsListening :
      (rss : List (List Round)) (w : World k et) (fd : ℕ)
      → AllStop rss
      → w.acceptor.callback_set ≡ true
      → IsListening k et w fd
      → (w' : World k et) × (accept_all rss w ≡ ok w')
        × (w'.handed ≡ w.handed ++ all_arrivals rss)
        × IsListening k et w' fd
  unfolding accept_all
  accept_all-IsListening [] w fd stop set i = (w, refl, sym (append-nil w.handed), i)
  accept_all-IsListening (rs ∷ rss) w fd (stop, stops) set i =
      let (w1, e, handed, set1, i1) = handle_accept-IsListening k et rs w fd stop i in
      let (w2, f, rest, i2) = accept_all-IsListening rss w1 fd stops (set1 ∙ set) i1 in
      (
        w2,
        ap (λ m. m >>= accept_all rss) e ∙ f,
        rest
            ∙ ap (λ t. t ++ all_arrivals rss)
                (handed ∙ ap (λ b. w.handed ++ delivered b (arrivals rs)) set)
            ∙ append_assoc w.handed (arrivals rs) (all_arrivals rss),
        i2,
      )

  -- The destructor leaves nothing open but what the callback has got.
  delete_acceptor-closed :
      (w : World k et) (fd : ℕ)
      → IsListening k et w fd
      → (w' : World k et) × (delete_acceptor k et w ≡ ok w')
        × (w'.handed ≡ w.handed)
        × (k.interest w'.holder fd ≡ none)
        × ((i : ℕ) → count i w'.gained ≡ count i (descriptors w'.handed) + count i w'.closed)
  unfolding delete_acceptor close
  delete_acceptor-closed w fd i =
      let (e, h, r, out, bits, gone, others) =
        remove_this_event-gone k et w.acceptor.io_event w.holder fd false i.watched in
      let l = w.acceptor.listen_socket in
      let idle = as_list w.acceptor.idle_fd in
      (
        record w {
          acceptor = record (w.acceptor) {
            io_event = e;
            listen_socket = record l { socket = none; connected = false };
          };
          holder = h;
          closed = (w.closed ++ idle) ++ as_list l.socket;
        },
        rw r,
        refl,
        gone,
        λ j. omega (
          arith,
          i.balanced j,
          count-append j (w.closed ++ idle) (as_list l.socket),
          count-append j w.closed idle,
        ),
      )

  -- Where the calls of the constructor and of `listen` succeed on a descriptor that the kernel does
  -- not watch yet, and in the replies to each call of `handleAccept` some round stops (no connection
  -- waits): the whole life of an acceptor with a callback, from the constructor to the destructor,
  -- ends without a fault. The callback got the connections that the first `accept` of each round gave,
  -- in their order, and not those that the second `accept` of a round took, where the process had no
  -- descriptor left. At the end the kernel does not watch the descriptor, and every descriptor that
  -- the process was given, those of the second `accept` included, is one that the callback got or one
  -- that is closed, each as many times as it was given.
  pub life-closed :
      (c : Setup) (a : IpAddress) (h : k.Holder) (fd : ℕ) (rss : List (List Round))
      → Succeeds c a fd
      → k.interest h fd ≡ none
      → AllStop rss
      → (w : World k et) × (life c a h rss ≡ ok w)
        × (w.handed ≡ all_arrivals rss)
        × (k.interest w.holder fd ≡ none)
        × ((i : ℕ) → count i w.gained ≡ count i (descriptors w.handed) + count i w.closed)
  unfolding life set_new_connection_callback
  life-closed c a h fd rss s free stop =
      let (w, e, o) = begin-IsOpened c a h fd s in
      let (w1, e1, i1, none_yet, callback) = listen-IsListening c a h fd w s free o in
      let ready = set_new_connection_callback k et w1 in
      let (w2, e2, handed, i2) =
        accept_all-IsListening rss ready fd stop refl
          (record { here = i1.here; off = i1.off; watched = i1.watched; balanced = i1.balanced }) in
      let (w3, e3, same, gone, closed) = delete_acceptor-closed w2 fd i2 in
      (
        w3,
        rw (e, e1, e2, e3),
        same ∙ handed ∙ ap (λ t. t ++ all_arrivals rss) none_yet,
        gone,
        closed,
      )

  -- An acceptor that was made and never listened: the assertion of its destructor's
  -- `removeThisEvent` fails.
  pub delete_acceptor-assertion :
      (c : Setup) (a : IpAddress) (h : k.Holder) (fd : ℕ)
      → Succeeds c a fd
      → k.interest h fd ≡ none
      → (begin c a h >>= delete_acceptor k et) ≡ err assertion
  unfolding delete_acceptor
  delete_acceptor-assertion c a h fd s free =
      let (w, e, o) = begin-IsOpened c a h fd s in
      let absent : k.interest w.holder fd ≡ none = ap (λ t. k.interest t fd) o.kernel_same ∙ free in
      ap (λ m. m >>= delete_acceptor k et) e
      ∙ rw (
          remove_this_event-assertion k et w.acceptor.io_event w.holder fd
            (record { shape = o.fresh; absent = absent }))
