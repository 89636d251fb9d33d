-- ===== src/TcpServer/Opening.antt =====
-- The acceptor and the connections of a server together, from its constructor on.
use mathlib.Core.List.{Mem, mem-cons_self, mem-cons_of_mem, map-append}
use libpotato.Base.{
  ℕ, ◌≡◌, refl, sym, ap, ◌∙◌, subst, Bool, true, false, not, Option, none, some, List, [], ◌∷◌,
  ◌++◌, append_assoc, append-nil, Result, ok, ◌>>=◌, length, drop, drop-append_self, map, inl, inr,
  Bool-cases, ==_iff, ◌==◌,
}
use libpotato.IpAddress.{IpAddress}
use libpotato.IoWatcher.{Epoll}
use libpotato.Socket.{Socket}
use libpotato.Acceptor.{Round}
use libpotato.Acceptor.Replies.{brought, sockets_of, stops, Stops, arrivals, delivered}
use libpotato.Acceptor.Rounds.{handle_round-Handled}
use libpotato.Acceptor.Loop.{IsListening, Handled-IsListening, arrivals-stop, arrivals-on}
use libpotato.Acceptor.Life.{AllStop, all_arrivals}
use libpotato.TcpConnection
use libpotato.TcpConnection.{Callbacks}
use libpotato.TcpServer.{Begin}
use libpotato.TcpServer.Service.{Server}
use libpotato.TcpServer.Peers.{IsGood}
use libpotato.TcpServer.Peers.Reception.{take_connection-IsGood}
use libpotato.TcpServer.Front.{Front, take_all, serve_round, serve_accept, serve_all}

module _ (k : Epoll) (et : Bool) where
  -- The sockets of the connections in use, in the order of their arrival.
  abbrev pub sockets : (ℕ → TcpConnection.World k) → List ℕ → List (Option Socket)
  sockets connections [] = []
  sockets connections (i ∷ is) = sockets connections is ++ ((connections i).socket ∷ [])

  abbrev pub peers : Front k et → List (Option Socket)
  peers fr = sockets fr.server.connections fr.lent

  -- The acceptor listens on `fd` for the server, whose connections are in order.
  pub record IsOpen (fr : Front k et) (fd : ℕ) : Type 0 where
    pub listening : IsListening k et fr.acceptor fd
    pub callback : fr.acceptor.acceptor.callback_set ≡ true
    pub good : IsGood k et fr.server fr.lent

  sockets-same :
      (f g : ℕ → TcpConnection.World k) (is : List ℕ)
      → ((j : ℕ) → Mem j is → g j ≡ f j)
      → sockets g is ≡ sockets f is
  sockets-same f g [] same = refl
  sockets-same f g (i ∷ is) same =
      ap (λ t. t ++ ((g i).socket ∷ [])) (sockets-same f g is (λ j m. same j (mem-cons_of_mem i m)))
      ∙ ap (λ w. sockets f is ++ (w.socket ∷ [])) (same i mem-cons_self)

  other_than : (i j : ℕ) (is : List ℕ) → ¬ Mem i is → Mem j is → (j == i) ≡ false
  other_than i j is fresh m = elim (Bool-cases (j == i)) [
    | inl same ↦ absurd (fresh (subst (λ t. Mem t is) ((==_iff j i).0 same) m))
    | inr other ↦ other
  ]

  module _ (begin : Begin) (cb : Callbacks k)
      (told : (w : TcpConnection.World k) → cb.connection w ≡ ok w) where
    -- What the call that brought `xs` reaches.
    abbrev pub Serves : List (Option Socket) → ℕ → List Socket → Result (Front k et) → Type 0
    Serves before fd xs r =
        (fr' : Front k et) × (r ≡ ok fr') × IsOpen fr' fd × (peers fr' ≡ before ++ map some xs)

    take_all-brought :
        (srv : Server k) (lent : List ℕ) (o : Option ℕ) (peer : IpAddress)
        → IsGood k et srv lent
        → (srv' : Server k) × (lent' : List ℕ) × (take_all k et begin cb (brought o peer) srv lent
            ≡ ok (srv', lent'))
          × IsGood k et srv' lent'
          × (sockets srv'.connections lent'
              ≡ sockets srv.connections lent ++ map some (brought o peer))
    unfolding take_all
    take_all-brought srv lent none peer g = (srv, lent, refl, g, sym (append-nil _))
    take_all-brought srv lent (some fd) peer g =
        let (srv', i, e, g', fresh, on, others) =
          take_connection-IsGood k et begin cb told srv lent fd peer g in
        (
          srv',
          i ∷ lent,
          ap (λ m. m >>= λ t. ok (t.0, t.1)) e,
          g',
          ap (λ t. t ++ ((srv'.connections i).socket ∷ []))
                (sockets-same srv.connections srv'.connections lent
                  (λ j m. others j (other_than i j lent fresh m)))
              ∙ ap (λ t. sockets srv.connections lent ++ (t ∷ [])) on,
        )

    serve_round-IsOpen :
        (r : Round) (fr : Front k et) (fd : ℕ)
        → IsOpen fr fd
        → (fr' : Front k et) × (serve_round k et begin cb r fr ≡ ok (not (stops r), fr'))
          × IsOpen fr' fd
          × (peers fr' ≡ peers fr ++ map some (sockets_of r.first))
    unfolding serve_round
    serve_round-IsOpen r fr fd o =
        let (more, a, e, d) =
          handle_round-Handled k et r fr.acceptor fd o.listening.here o.listening.off in
        let (srv, lent, f, g, ps) =
          take_all-brought fr.server fr.lent r.first.fd r.first.peer o.good in
        let new : drop (length fr.acceptor.handed) a.handed ≡ sockets_of r.first =
          ap (drop (length fr.acceptor.handed)) (
            d.handed_on
            ∙ ap (λ b. fr.acceptor.handed ++ delivered b (sockets_of r.first)) o.callback)
          ∙ drop-append_self fr.acceptor.handed (sockets_of r.first) in
        (
          record { acceptor = a; server = srv; lent = lent },
          rw (e, new, f, d.goes),
          record {
            listening = Handled-IsListening k et r fr.acceptor more a fd d o.listening;
            callback = d.keeps.callback_same ∙ o.callback;
            good = g;
          },
          ps,
        )

    serve_accept-stop :
        (r : Round) (rs : List Round) (fr fr' : Front k et)
        → serve_round k et begin cb r fr ≡ ok (not (stops r), fr')
        → stops r ≡ true
        → serve_accept k et begin cb (r ∷ rs) fr ≡ ok fr'
    unfolding serve_accept
    serve_accept-stop r rs fr fr' e last = rw (e, last)

    serve_accept-on :
        (r : Round) (rs : List Round) (fr fr' : Front k et)
        → serve_round k et begin cb r fr ≡ ok (not (stops r), fr')
        → stops r ≡ false
        → serve_accept k et begin cb (r ∷ rs) fr ≡ serve_accept k et begin cb rs fr'
    unfolding serve_accept
    serve_accept-on r rs fr fr' e on = rw (e, on)

    map-both :
        (before mid : List (Option Socket)) (xs ys : List Socket)
        → mid ≡ before ++ map some xs
        → mid ++ map some ys ≡ before ++ map some (xs ++ ys)
    map-both before mid xs ys e =
        ap (λ t. t ++ map some ys) e
        ∙ append_assoc before (map some xs) (map some ys)
        ∙ ap (λ t. before ++ t) (sym (map-append some xs ys))

    -- On a server whose acceptor listens and whose connections are in order, for a connection
    -- callback that leaves the connection as it is and replies of the kernel among which a round
    -- stops (no connection waits): `handleAccept` ends without a fault, `newConnection` being its
    -- callback. Every connection that the kernel brought is bound to a connection of the server that
    -- was free, those of before keep their sockets, and the server stays in order.
    pub serve_accept-Serves :
        (rs : List Round) (fr : Front k et) (fd : ℕ)
        → Stops rs
        → IsOpen fr fd
        → Serves (peers fr) fd (arrivals rs) (serve_accept k et begin cb rs fr)
    serve_accept-Serves [] fr fd stop o = absurd stop
    serve_accept-Serves (r ∷ rs) fr fd stop o =
        let (fr1, e, o1, p1) = serve_round-IsOpen r fr fd o in
        elim (Bool-cases (stops r)) [
          | inl last ↦ (
            fr1,
            serve_accept-stop r rs fr fr1 e last,
            o1,
            p1 ∙ ap (λ t. peers fr ++ map some t) (sym (arrivals-stop k et r rs last)),
          )
          | inr on ↦
              let later : Stops rs = elim stop [ inl h ↦ absurd (cc (h, on)) | inr s ↦ s ] in
              let (fr2, f, o2, p2) = serve_accept-Serves rs fr1 fd later o1 in
              (
                fr2,
                serve_accept-on r rs fr fr1 e on ∙ f,
                o2,
                p2
                    ∙ map-both (peers fr) (peers fr1) (sockets_of r.first) (arrivals rs) p1
                    ∙ ap (λ t. peers fr ++ map some t) (sym (arrivals-on k et r rs on)),
              )
        ]

    pub serve_all-Serves :
        (rss : List (List Round)) (fr : Front k et) (fd : ℕ)
        → AllStop rss
        → IsOpen fr fd
        → Serves (peers fr) fd (all_arrivals rss) (serve_all k et begin cb rss fr)
    unfolding serve_all
    serve_all-Serves [] fr fd stop o = (fr, refl, o, sym (append-nil (peers fr)))
    serve_all-Serves (rs ∷ rss) fr fd (stop, stops) o =
        let (fr1, e, o1, p1) = serve_accept-Serves rs fr fd stop o in
        let (fr2, f, o2, p2) = serve_all-Serves rss fr1 fd stops o1 in
        (
          fr2,
          rw (e, f),
          o2,
          p2 ∙ map-both (peers fr) (peers fr1) (arrivals rs) (all_arrivals rss) p1,
        )
