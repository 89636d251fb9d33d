-- ===== src/TcpServer/Whole.antt =====
-- A server from its constructor to its destructor.
use mathlib.Core.List.{not-mem-nil}
use libpotato.Base.{
  ℕ, ◌≡◌, refl, ◌∙◌, Bool, true, false, none, some, List, [], ◌∷◌, Result, ok, ◌>>=◌, length, map,
  inl, inr, arith,
}
use libpotato.IpAddress.{IpAddress}
use libpotato.IoWatcher.{Epoll}
use libpotato.Buffer.Contents.{init-IsValid}
use libpotato.Acceptor
use libpotato.Acceptor.{Round, set_new_connection_callback}
use libpotato.Acceptor.Life.{
  Setup, Succeeds, AllStop, all_arrivals, IsOpened, begin-IsOpened, listen-IsListening,
}
use libpotato.EventLoopPool
use libpotato.EventLoopPool.{new_pool}
use libpotato.EventLoopPool.RoundRobin.{IsReady, started, start-append}
use libpotato.TcpConnection
use libpotato.TcpConnection.{Callbacks, new_connection, delete_connection}
use libpotato.TcpServer.{Begin, new_server}
use libpotato.TcpServer.Lending.{new_server-IsPool}
use libpotato.TcpServer.Turnover.{IsFree}
use libpotato.TcpServer.Peers.{IsGood}
use libpotato.TcpServer.Front.{
  Front, set_thread_num, set_message_callback, set_connection_callback, new_front, start, serve_all,
}
use libpotato.TcpServer.Opening.{IsOpen, peers, serve_all-Serves}

started-IsReady : (main : ℕ) (et : Bool) (order : List ℕ) → IsReady (started main et order)
started-IsReady main et [] = inl refl
started-IsReady main et (x ∷ xs) = inr (omega arith)

module _ (k : Epoll) (et : Bool) where
  new_connection-IsFree :
      (h : k.Holder) → ((j : ℕ) → k.interest h j ≡ none) → IsFree k et (new_connection k h)
  unfolding new_connection
  new_connection-IsFree h unknown = record {
    loop_off = refl;
    event_off = refl;
    socket_off = refl;
    reads = init-IsValid;
    writes = init-IsValid;
    unknown = unknown;
  }

  -- The server after `start`, when the constructor made `a` and `listen` made `a'` of it.
  abbrev opened : Bool → Acceptor.World k et → List ℕ → k.Holder → Front k et
  opened told a' order h' = record {
    acceptor = a';
    server = record {
      pool = new_server;
      loop_pool = started 0 et order;
      connections = λ i. new_connection k h';
      message_set = true;
      write_complete_set = false;
      connection_set = told;
    };
    lent = [];
  }

  opened-IsGood :
      (told : Bool) (a' : Acceptor.World k et) (order : List ℕ) (h' : k.Holder)
      → ((j : ℕ) → k.interest h' j ≡ none)
      → IsGood k et (opened told a' order h').server []
  opened-IsGood told a' order h' unknown = record {
    pooled = new_server-IsPool;
    ready = started-IsReady 0 et order;
    served = λ i m. absurd (not-mem-nil m);
    free = λ i m. new_connection-IsFree h' unknown;
  }

  module _ (begin : Begin) (cb : Callbacks k) where
    -- A server with a message callback, with a connection callback if `told`, and as many threads as add their loops: it is made, started,
    -- and its listening socket is ready once for each list of rounds.
    pub run_server :
        Bool
        → Setup
        → IpAddress
        → k.Holder
        → k.Holder
        → List ℕ
        → List (List Round)
        → Result (Front k et)
    run_server told c a h h' order rss = do
      fr ← new_front k et c a h h'
      let srv =
          set_thread_num k (length order)
            (set_connection_callback k told (set_message_callback k true fr.server))
      fr' ← start k et c.sys_listen order (record fr { server = srv })
      serve_all k et begin cb rss fr'

    with_callback :
        (w : Acceptor.World k et) (fd : ℕ) (h : k.Holder)
        → IsOpened k et w fd h
        → IsOpened k et (set_new_connection_callback k et w) fd h
    unfolding set_new_connection_callback
    with_callback w fd h o = record {
      here = o.here;
      off = o.off;
      fresh = o.fresh;
      kernel_same = o.kernel_same;
      empty_handed = o.empty_handed;
      balanced = o.balanced;
    }

    callback_on :
        (w : Acceptor.World k et)
        → (set_new_connection_callback k et w).acceptor.callback_set ≡ true
    unfolding set_new_connection_callback
    callback_on w = refl

    run_server-opened :
        (told : Bool) (c : Setup) (a : IpAddress) (h h' : k.Holder) (order : List ℕ)
        (rss : List (List Round)) (w w' : Acceptor.World k et)
        → Acceptor.new_acceptor k et c.blank c.sys_socket c.sys_bind c.dev_null a h ≡ ok w
        → Acceptor.listen k et c.sys_listen (set_new_connection_callback k et w) ≡ ok w'
        → run_server told c a h h' order rss ≡ serve_all k et begin cb rss (opened told w' order h')
    unfolding run_server new_front start set_thread_num set_message_callback set_connection_callback
        EventLoopPool.set_thread_num new_pool
    run_server-opened told c a h h' order rss w w' e f =
        rw (e, f, start-append order [] 0 (length order) et (omega arith))

    -- Where the calls of the constructor and of `listen` succeed on a descriptor that no loop
    -- watches yet, the kernel's replies to each call of `handleAccept` have a round that stops (no
    -- connection waits), and the connection callback, which may be set or not, leaves its connection
    -- as it is: a new server with as many threads as add their loops starts without a fault, and serves
    -- every peer that the first `accept` of a round brings. At the end the sockets of its connections
    -- in use are those of these peers, each once and in the order of their arrival; it still listens,
    -- and its pool, its loops and its connections are in order. A peer that the second `accept` of a
    -- round takes, where the process has no descriptor left, is not served.
    pub run_server-peers :
        ((w : TcpConnection.World k) → cb.connection w ≡ ok w)
        → (told : Bool) (c : Setup) (a : IpAddress) (h h' : k.Holder) (fd : ℕ) (order : List ℕ)
          (rss : List (List Round))
        → Succeeds c a fd
        → k.interest h fd ≡ none
        → ((j : ℕ) → k.interest h' j ≡ none)
        → AllStop rss
        → (fr : Front k et) × (run_server told c a h h' order rss ≡ ok fr)
          × IsOpen k et fr fd
          × (peers k et fr ≡ map some (all_arrivals rss))
    run_server-peers same_after told c a h h' fd order rss s free unknown stop =
        let (w, e, o) = begin-IsOpened k et c a h fd s in
        let (w', f, i, none_yet, same) =
          listen-IsListening k et c a h fd (set_new_connection_callback k et w) s free
            (with_callback w fd h o) in
        let (fr, g, ready, ps) =
          serve_all-Serves k et begin cb same_after rss (opened told w' order h') fd stop (record {
            listening = i;
            callback = same ∙ callback_on w;
            good = opened-IsGood told w' order h' unknown;
          }) in
        (fr, run_server-opened told c a h h' order rss w w' e f ∙ g, ready, ps)
