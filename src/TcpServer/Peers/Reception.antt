-- ===== src/TcpServer/Peers/Reception.antt =====
-- A server keeps its connections in order, whatever its peers do.
use mathlib.Core.List.Perm
use mathlib.Core.List.{
  Mem, Nodup, erase, mem_of_ne_of_mem, mem-cons_self, mem-cons_of_mem, mem_of_mem-erase,
  mem-erase_of_ne, mem-append_right, perm_cons_erase, perm_middle, Nodup-cons,
}
use libpotato.Base.{
  ℕ, ◌≡◌, ◌≢◌, refl, sym, ap, ◌∙◌, subst, Bool, true, false, ◌&&◌, Option, none, some, List, [],
  ◌∷◌, ◌++◌, Result, ok, ◌>>=◌, if◌then◌else◌, ◌==◌, ==_iff, get_elem?, ℕ_discrete,
}
use libpotato.IoWatcher.{Epoll}
use libpotato.IpAddress.{IpAddress}
use libpotato.EventLoopPool.{EventLoopPool, get_next_loop}
use libpotato.EventLoopPool.RoundRobin.{get_next_loop-IsReady}
use libpotato.TcpConnection.{
  World, Callbacks, is_connected, reset, handle_close_event, bind_socket, bind_in_loop,
}
use libpotato.TcpConnection.Live.{open_socket}
use libpotato.TcpServer.{TcpServer, Begin, borrow_connection, return_connection}
use libpotato.TcpServer.Pool.{numbered-Nodup}
use libpotato.TcpServer.Lending.{borrow_connection-IsPool, erase-IsPool, get_elem?-Mem}
use libpotato.TcpServer.Service.{
  Server, update, set_callbacks, new_connection, start_connection, take_connection,
  destroy_connection, close_connection,
}
use libpotato.TcpServer.Turnover.{
  IsFree, IsServed, bind_socket-IsFree, bind_in_loop-IsServed, handle_close_event-IsServed,
  bound_to,
}
use libpotato.TcpServer.Peers.{
  Request, arrive, leave, work, IsGood, leave_at, work_at, attend, attend_all, update_self,
  update_other, destroy_connection-reset, set_callbacks-IsFree, set_callbacks-set, IsServed-but,
  IsFree-but,
}

ne_of : (j i : ℕ) → (j == i) ≡ false → j ≢ i
ne_of j i n e = cc ((==_iff j i).1 e)

-- A connection that is given back is not among those still lent.
gone :
    (avail lent : List ℕ) (i : ℕ)
    → Mem i lent
    → Nodup (avail ++ lent)
    → ¬ Mem i (erase ℕ_discrete lent i)
gone avail lent i m d h =
    (Nodup-cons.0 (
        Perm.nodup
          (Perm.trans (Perm.append_left avail (perm_cons_erase ℕ_discrete m))
            (perm_middle avail (erase ℕ_discrete lent i)))
          d)).0
      (mem-append_right avail h)

module _ (k : Epoll) (et : Bool) (begin : Begin) (cb : Callbacks k)
    (told : (w : World k) → cb.connection w ≡ ok w) where
  -- The state after an arrival: `w` is the connection once its loop has taken it up.
  abbrev arrived : Server k → ℕ → TcpServer → EventLoopPool → World k → World k → Server k
  arrived srv i pool loop_pool b w = record srv {
    pool = pool;
    loop_pool = loop_pool;
    connections = update (update srv.connections i b) i w;
  }

  take_connection-arrived :
      (srv : Server k) (lent : List ℕ) (fd i l : ℕ) (peer : IpAddress) (pool : TcpServer)
      (loop_pool : EventLoopPool) (b w : World k)
      → borrow_connection begin srv.pool ≡ ok (i, pool)
      → get_next_loop srv.loop_pool ≡ ok (l, loop_pool)
      → bind_socket k et cb
          (open_socket fd peer)
          l
          (set_callbacks k et begin cb srv (srv.connections i))
        ≡ ok b
      → bind_in_loop k et cb b ≡ ok w
      → take_connection k et begin cb (open_socket fd peer) srv lent
        ≡ ok (arrived srv i pool loop_pool b w, i ∷ lent)
  unfolding take_connection new_connection start_connection
  take_connection-arrived srv lent fd i l peer pool loop_pool b w e1 e2 e3 e4 =
      rw (e1, e2, e3, update_self srv.connections i b, e4)

  -- The connection of a new peer was not lent before, and no other connection changes.
  pub take_connection-IsGood :
      (srv : Server k) (lent : List ℕ) (fd : ℕ) (peer : IpAddress)
      → IsGood k et srv lent
      → (srv' : Server k) × (i : ℕ) × (take_connection k et begin cb (open_socket fd peer) srv lent
          ≡ ok (srv', i ∷ lent))
        × IsGood k et srv' (i ∷ lent)
        × ¬ Mem i lent
        × ((srv'.connections i).socket ≡ some (open_socket fd peer))
        × ((j : ℕ) → (j == i) ≡ false → srv'.connections j ≡ srv.connections j)
  take_connection-IsGood srv lent fd peer g =
      let (i, pool, e1, fresh, p) = borrow_connection-IsPool begin srv.pool lent g.pooled in
      let (l, loop_pool, e2, r) = get_next_loop-IsReady srv.loop_pool g.ready in
      let w0 : World k = set_callbacks k et begin cb srv (srv.connections i) in
      let f = set_callbacks-IsFree k et begin cb told srv (srv.connections i) (g.free i fresh) in
      let b : World k = bound_to k et cb told w0 fd peer l in
      let (w, e4, v, on) =
        bind_in_loop-IsServed k et cb told w0 fd peer l f
          (set_callbacks-set k et begin cb told srv (srv.connections i)) in
      (
        arrived srv i pool loop_pool b w,
        i,
        take_connection-arrived srv lent fd i l peer pool loop_pool b w e1 e2
            (bind_socket-IsFree k et cb told w0 fd peer l f) e4,
        record {
          pooled = p;
          ready = r;
          served =
              IsServed-but k et begin cb told (update srv.connections i b) i w (i ∷ lent)
                (λ j m n.
                  subst (IsServed k et) (sym (update_other srv.connections i b j n))
                    (g.served j (mem_of_ne_of_mem (ne_of j i n) m)))
                (λ m. v);
          free =
              IsFree-but k et begin cb told (update srv.connections i b) i w (i ∷ lent)
                (λ j m n.
                  subst (IsFree k et) (sym (update_other srv.connections i b j n))
                    (g.free j (λ h. m (mem-cons_of_mem i h))))
                (λ m. absurd (m mem-cons_self));
        },
        fresh,
        ap (λ c. c.socket) (update_self (update srv.connections i b) i w) ∙ on,
        λ j n.
            update_other (update srv.connections i b) i w j n
            ∙ update_other srv.connections i b j n,
      )

  -- The state after a peer has left.
  abbrev left : Server k → ℕ → World k → World k → Server k
  left srv i w1 w2 = record srv {
    pool = return_connection i srv.pool;
    connections = update (update srv.connections i w1) i w2;
  }

  close_connection-left :
      (srv : Server k) (i l : ℕ) (w1 w2 : World k)
      → handle_close_event k et (record cb { destroy = λ w. ok w }) (srv.connections i) ≡ ok w1
      → (is_connected k (srv.connections i) && (srv.connections i).destroy_set) ≡ true
      → w1.loop ≡ some l
      → reset k et cb w1 ≡ ok w2
      → close_connection k et begin cb i srv ≡ ok (left srv i w1 w2)
  unfolding close_connection
  close_connection-left srv i l w1 w2 e1 there on e2 =
      ap
        (λ m. m >>= λ w.
          if is_connected k (srv.connections i) && (srv.connections i).destroy_set
          then destroy_connection k et begin cb i (closed w)
          else ok (closed w))
        e1
      ∙ ap (λ t. if t then destroy_connection k et begin cb i (closed w1) else ok (closed w1)) there
      ∙ destroy_connection-reset k et begin cb i l (closed w1) w1 w2
          (update_self srv.connections i w1) on e2
    where
      closed : World k → Server k
      closed w = record srv { connections = update srv.connections i w }

  is_connected-IsServed :
      (w : World k) → IsServed k et w → (is_connected k w && w.destroy_set) ≡ true
  unfolding is_connected
  is_connected-IsServed w v = rw (v.bound.socket_on, v.destroyable)

  leave_at-IsGood :
      (srv : Server k) (lent : List ℕ) (o : Option ℕ)
      → ((i : ℕ) → o ≡ some i → Mem i lent)
      → IsGood k et srv lent
      → (srv' : Server k) × (lent' : List ℕ) × (leave_at k et begin cb srv lent o
          ≡ ok (srv', lent'))
        × IsGood k et srv' lent'
  unfolding leave_at
  leave_at-IsGood srv lent none there g = (srv, lent, refl, g)
  leave_at-IsGood srv lent (some i) there g =
      let m : Mem i lent = there i refl in
      let v = g.served i m in
      let (w1, w2, e1, l, on, e2, f) =
        handle_close_event-IsServed k et cb told (srv.connections i) v in
      let e = close_connection-left srv i l w1 w2 e1 (is_connected-IsServed _ v) on e2 in
      let rest : List ℕ = erase ℕ_discrete lent i in
      let not_lent : ¬ Mem i rest =
        gone srv.pool.avail_index lent i m (numbered-Nodup srv.pool lent g.pooled) in
      (
        left srv i w1 w2,
        rest,
        ap (λ r. r >>= λ s. ok (s, rest)) e,
        record {
          pooled = erase-IsPool srv.pool lent i m g.pooled;
          ready = g.ready;
          served =
              IsServed-but k et begin cb told (update srv.connections i w1) i w2 rest
                (λ j m n.
                  subst (IsServed k et) (sym (update_other srv.connections i w1 j n))
                    (g.served j (mem_of_mem-erase ℕ_discrete i m)))
                (λ m. absurd (not_lent m));
          free =
              IsFree-but k et begin cb told (update srv.connections i w1) i w2 rest
                (λ j m n.
                  subst (IsFree k et) (sym (update_other srv.connections i w1 j n))
                    (g.free j (λ h. m ((mem-erase_of_ne ℕ_discrete (ne_of j i n)).1 h))))
                (λ m. f);
        },
      )

  work_at-IsGood :
      (f : World k → Result (World k))
      → ((w : World k) → IsServed k et w → (w' : World k) × (f w ≡ ok w') × IsServed k et w')
      → (srv : Server k) (lent : List ℕ) (o : Option ℕ) → ((i : ℕ) → o ≡ some i → Mem i lent)
      → IsGood k et srv lent
      → (srv' : Server k) × (lent' : List ℕ) × (work_at k et begin cb f srv lent o
          ≡ ok (srv', lent'))
        × IsGood k et srv' lent'
  unfolding work_at
  work_at-IsGood f keeps srv lent none there g = (srv, lent, refl, g)
  work_at-IsGood f keeps srv lent (some i) there g =
      let (w, e, v) = keeps (srv.connections i) (g.served i (there i refl)) in
      (
        record srv { connections = update srv.connections i w },
        lent,
        rw e,
        record {
          pooled = g.pooled;
          ready = g.ready;
          served =
              IsServed-but k et begin cb told srv.connections i w lent (λ j m n. g.served j m)
                (λ m. v);
          free =
              IsFree-but k et begin cb told srv.connections i w lent (λ j m n. g.free j m)
                (λ m. absurd (m (there i refl)));
        },
      )

  module _ (act : ℕ → World k → Result (World k))
      (keeps : (m : ℕ) (w : World k)
        → IsServed k et w
        → (w' : World k) × (act m w ≡ ok w') × IsServed k et w') where
    attend-IsGood :
        (r : Request k et) (srv : Server k) (lent : List ℕ)
        → IsGood k et srv lent
        → (srv' : Server k) × (lent' : List ℕ) × (attend k et begin cb act r srv lent
            ≡ ok (srv', lent'))
          × IsGood k et srv' lent'
    attend-IsGood (arrive fd peer) srv lent g =
        unfold attend in
        let (srv', i, e, g', fresh, on, others) = take_connection-IsGood srv lent fd peer g in
        (srv', i ∷ lent, e, g')
    attend-IsGood (leave n) srv lent g =
        unfold attend in
        leave_at-IsGood srv lent (get_elem? lent n) (λ i e. get_elem?-Mem lent n i e) g
    attend-IsGood (work n m) srv lent g =
        unfold attend in
        work_at-IsGood (act m) (keeps m) srv lent (get_elem? lent n)
          (λ i e. get_elem?-Mem lent n i e) g

    -- For a connection callback that leaves the connection as it is, and work that succeeds on a
    -- served connection and leaves it served: from a server in good order, whatever peers arrive,
    -- leave and have work done, in whatever order, no call fails. At the end the pool is the one of
    -- the connections lent, those are served (bound to an open socket that alone is registered), and
    -- all others are free (bound to nothing, with nothing registered).
    pub attend_all-IsGood :
        (rs : List (Request k et)) (srv : Server k) (lent : List ℕ)
        → IsGood k et srv lent
        → (srv' : Server k) × (lent' : List ℕ) × (attend_all k et begin cb act rs srv lent
            ≡ ok (srv', lent'))
          × IsGood k et srv' lent'
    unfolding attend_all
    attend_all-IsGood [] srv lent g = (srv, lent, refl, g)
    attend_all-IsGood (r ∷ rs) srv lent g =
        let (srv1, lent1, e1, g1) = attend-IsGood r srv lent g in
        let (srv2, lent2, e2, g2) = attend_all-IsGood rs srv1 lent1 g1 in
        (srv2, lent2, rw (e1, e2), g2)
