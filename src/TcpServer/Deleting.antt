-- ===== src/TcpServer/Deleting.antt =====
-- The destructor of a server deletes its connections, and each of them checks that it is unbound.
use mathlib.Core.List.Perm
use mathlib.Core.List.{Mem, mem-cons_self, mem-append_right, not-mem-nil, mem_of_ne_of_mem}
use libpotato.Base.{
  ℕ, ◌≡◌, ◌⊎◌, refl, sym, ap, ◌∙◌, Bool, true, false, Option, none, some, List, [], ◌∷◌, Result, ok,
  err, assertion, ◌>>◌, inl, inr, guard, ℕ_discrete,
}
use libpotato.IoWatcher.{Epoll, IoEvent}
use libpotato.Socket.{Socket}
use libpotato.TcpConnection
use libpotato.TcpConnection.{delete_connection}
use libpotato.TcpServer.Service.{Server}
use libpotato.TcpServer.Turnover.{IsFree, IsServed}
use libpotato.TcpServer.Peers.{IsGood}
use libpotato.TcpServer.Front.{delete_connections}

module _ (k : Epoll) (et : Bool) where
  delete_connection-IsFree :
      (w : TcpConnection.World k) → IsFree k et w → delete_connection k w ≡ ok tt
  unfolding delete_connection
  delete_connection-IsFree w f = rw (f.event_off, f.socket_off)

  delete_connection-IsServed :
      (w : TcpConnection.World k) → IsServed k et w → delete_connection k w ≡ err assertion
  unfolding delete_connection
  delete_connection-IsServed w v = rw v.bound.event_on

  -- The checks pass, or one of them fails.
  delete_connection-cases :
      (w : TcpConnection.World k)
      → (delete_connection k w ≡ ok tt) ⊎ (delete_connection k w ≡ err assertion)
  unfolding delete_connection
  delete_connection-cases w = by_pointers w.io_event w.socket
    where
      checks : Option IoEvent → Option Socket → Result (Unit {0})
      checks e s =
          guard (elim e [ none ↦ true | some x ↦ false ]) assertion
          >> guard (elim s [ none ↦ true | some x ↦ false ]) assertion

      by_pointers :
          (e : Option IoEvent) (s : Option Socket)
          → (checks e s ≡ ok tt) ⊎ (checks e s ≡ err assertion)
      by_pointers none none = inl refl
      by_pointers none (some s) = inr refl
      by_pointers (some e) s = inr refl

  module _ (f : ℕ → TcpConnection.World k) where
    delete_connections-step :
        (i : ℕ) (is : List ℕ)
        → delete_connections k et f (i ∷ is)
          ≡ (delete_connection k (f i) >> delete_connections k et f is)
    unfolding delete_connections
    delete_connections-step i is = refl

    delete_connections-free :
        (is : List ℕ) → ((i : ℕ) → IsFree k et (f i)) → delete_connections k et f is ≡ ok tt
    delete_connections-free [] free = unfold delete_connections in refl
    delete_connections-free (i ∷ is) free =
        delete_connections-step i is
        ∙ ap (λ m. m >> delete_connections k et f is) (delete_connection-IsFree (f i) (free i))
        ∙ delete_connections-free is free

    delete_connections-served :
        (is : List ℕ) (i : ℕ)
        → Mem i is
        → IsServed k et (f i)
        → delete_connections k et f is ≡ err assertion
    delete_connections-served [] i m v = absurd (not-mem-nil m)
    delete_connections-served (j ∷ js) i m v =
        delete_connections-step j js ∙ elim (ℕ_discrete i j) [
          | yes here ↦
              ap (λ m. m >> delete_connections k et f js)
                (ap (λ t. delete_connection k (f t)) (sym here)
                  ∙ delete_connection-IsServed (f i) v)
          | no other ↦ elim (delete_connection-cases (f j)) [
            | inr fails ↦ ap (λ m. m >> delete_connections k et f js) fails
            | inl passes ↦
                ap (λ m. m >> delete_connections k et f js) passes
                ∙ delete_connections-served js i (mem_of_ne_of_mem other m) v
          ]
        ]

  -- What the checks of the server's destructor should come to.
  abbrev pub unless_lent : List ℕ → Result (Unit {0})
  unless_lent [] = ok tt
  unless_lent (i ∷ is) = err assertion

  -- For a server in order, the checks of its connections' destructors pass if no connection is in
  -- use; if one is, an assertion of the first of those fails.
  pub delete_connections-unless_lent :
      (srv : Server k) (lent : List ℕ)
      → IsGood k et srv lent
      → delete_connections k et srv.connections srv.pool.connection_pool ≡ unless_lent lent
  delete_connections-unless_lent srv [] g =
      delete_connections-free srv.connections srv.pool.connection_pool
        (λ i. g.free i (λ m. not-mem-nil m))
  delete_connections-unless_lent srv (i ∷ is) g =
      delete_connections-served srv.connections srv.pool.connection_pool i
        ((Perm.mem_iff g.pooled.shared).0 (mem-append_right srv.pool.avail_index mem-cons_self))
        (g.served i mem-cons_self)
