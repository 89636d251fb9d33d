-- ===== src/TcpServer/Peers.antt =====
-- A whole server: peers arrive, are served and leave.
pub mod Reception
use mathlib.Core.List.Perm
use mathlib.Core.List.{
  Mem, Perm, Nodup, erase, mem_of_ne_of_mem, mem-cons_self, mem-cons_of_mem, mem_of_mem-erase,
  mem-erase_of_ne, mem-append_right, perm_cons_erase, perm_middle, Nodup-cons,
}
use libpotato.Base.{
  ℕ, ◌≡◌, ◌≢◌, refl, sym, ap, ◌∙◌, subst, Bool, true, false, Option, none, some, List, [], ◌∷◌,
  ◌++◌, Result, ok, ◌>>=◌, if◌then◌else◌, ◌==◌, inl, inr, Bool-cases, Option-cases, ==_iff,
  get_elem?, ℕ_discrete,
}
use libpotato.IoWatcher.{Epoll}
use libpotato.IpAddress.{IpAddress}
use libpotato.EventLoopPool.RoundRobin.{IsReady, get_next_loop-IsReady}
use libpotato.TcpConnection.{World, Callbacks, assert_set, is_connected, reset}
use libpotato.TcpConnection.Live.{open_socket}
use libpotato.TcpServer.{TcpServer, Begin, return_connection}
use libpotato.TcpServer.Pool.{IsPool, numbered-Nodup}
use libpotato.TcpServer.Lending.{borrow_connection-IsPool, return_connection-IsPool, get_elem?-Mem}
use libpotato.TcpServer.Service.{
  Server, update, set_callbacks, new_connection, take_connection, destroy_connection,
  close_connection,
}
use libpotato.TcpServer.Turnover.{
  IsFree, IsServed, bind_socket-IsFree, bind_in_loop-IsServed, handle_close_event-IsServed,
  bound_to,
}

module _ (k : Epoll) (et : Bool) where
  -- A peer arrives on a descriptor; the peer at a place of the list of those served leaves; or the
  -- connection at a place does some work.
  pub data Request : Type 0 where
    arrive : ℕ → IpAddress → Request
    leave : ℕ → Request
    work : ℕ → ℕ → Request

  -- The connections of the list are those of the peers, and all others are free.
  pub record IsGood (srv : Server k) (lent : List ℕ) : Type 0 where
    pub pooled : IsPool srv.pool lent
    pub ready : IsReady srv.loop_pool
    pub served : (i : ℕ) → Mem i lent → IsServed k et (srv.connections i)
    pub free : (i : ℕ) → ¬ Mem i lent → IsFree k et (srv.connections i)

  module _ (begin : Begin) (cb : Callbacks k) where
    pub leave_at : Server k → List ℕ → Option ℕ → Result (Server k × List ℕ)
    leave_at srv lent none = ok (srv, lent)
    leave_at srv lent (some i) = do
      srv' ← close_connection k et begin cb i srv
      ok (srv', erase ℕ_discrete lent i)

    pub work_at :
        (World k → Result (World k)) → Server k → List ℕ → Option ℕ → Result (Server k × List ℕ)
    work_at f srv lent none = ok (srv, lent)
    work_at f srv lent (some i) = do
      w ← f (srv.connections i)
      ok (record srv { connections = update srv.connections i w }, lent)

    -- `act` says what each piece of work does.
    module _ (act : ℕ → World k → Result (World k)) where
      pub attend : Request → Server k → List ℕ → Result (Server k × List ℕ)
      attend (arrive fd peer) srv lent =
          take_connection k et begin cb (open_socket fd peer) srv lent
      attend (leave n) srv lent = leave_at srv lent (get_elem? lent n)
      attend (work n m) srv lent = work_at (act m) srv lent (get_elem? lent n)

      pub attend_all : List Request → Server k → List ℕ → Result (Server k × List ℕ)
      attend_all [] srv lent = ok (srv, lent)
      attend_all (r ∷ rs) srv lent = do (srv', lent') ← attend r srv lent; attend_all rs srv' lent'

self : (i : ℕ) → (i == i) ≡ true
self i = (==_iff i i).1 refl

pub update_self {ℓ} : {A : Type ℓ} (f : ℕ → A) (i : ℕ) (a : A) → update f i a i ≡ a
update_self f i a = ap (λ t. if t then a else f i) (self i)

pub update_other {ℓ} :
    {A : Type ℓ} (f : ℕ → A) (i : ℕ) (a : A) (j : ℕ) → (j == i) ≡ false → update f i a j ≡ f j
update_other f i a j n = ap (λ t. if t then a else f j) n

module _ (k : Epoll) (et : Bool) (begin : Begin) (cb : Callbacks k) where
  pub destroy_connection-reset :
      (i l : ℕ) (srv : Server k) (w1 w2 : World k)
      → srv.connections i ≡ w1
      → w1.loop ≡ some l
      → reset k et cb w1 ≡ ok w2
      → destroy_connection k et begin cb i srv
        ≡ ok (record srv {
          pool = return_connection i srv.pool;
          connections = update srv.connections i w2;
        })
  unfolding destroy_connection
  destroy_connection-reset i l srv w1 w2 c on e =
      ap (λ w. assert_set k w.loop >>= λ _. reset k et cb w >>= finish) c
      ∙ ap (λ o. assert_set k o >>= λ _. reset k et cb w1 >>= finish) on
      ∙ ap (λ m. m >>= finish) e
    where
      finish : World k → Result (Server k)
      finish w = ok (record srv {
        pool = return_connection i srv.pool;
        connections = update srv.connections i w;
      })

  -- The callbacks of a server stay what they are, and the connection's callback leaves it as it is.
  module _ (told : (w : World k) → cb.connection w ≡ ok w) where
    pub set_callbacks-IsFree :
        (srv : Server k) (w : World k)
        → IsFree k et w
        → IsFree k et (set_callbacks k et begin cb srv w)
    unfolding set_callbacks
    set_callbacks-IsFree srv w f = record {
      loop_off = f.loop_off;
      event_off = f.event_off;
      socket_off = f.socket_off;
      reads = f.reads;
      writes = f.writes;
      unknown = f.unknown;
    }

    pub set_callbacks-set :
        (srv : Server k) (w : World k) → (set_callbacks k et begin cb srv w).destroy_set ≡ true
    unfolding set_callbacks
    set_callbacks-set srv w = refl

    -- The invariant moves to a server in which the connection `i` has changed.
    pub IsServed-but :
        (f : ℕ → World k) (i : ℕ) (w : World k) (lent : List ℕ)
        → ((j : ℕ) → Mem j lent → (j == i) ≡ false → IsServed k et (f j))
        → (Mem i lent → IsServed k et w)
        → (j : ℕ) → Mem j lent
        → IsServed k et (update f i w j)
    IsServed-but f i w lent others this j m = elim (Bool-cases (j == i)) [
      | inl same ↦
          let e : j ≡ i = (==_iff j i).0 same in
          subst (IsServed k et) (sym (ap (λ t. if t then w else f j) same))
            (this (subst (λ t. Mem t lent) e m))
      | inr n ↦ subst (IsServed k et) (sym (update_other f i w j n)) (others j m n)
    ]

    pub IsFree-but :
        (f : ℕ → World k) (i : ℕ) (w : World k) (lent : List ℕ)
        → ((j : ℕ) → ¬ Mem j lent → (j == i) ≡ false → IsFree k et (f j))
        → (¬ Mem i lent → IsFree k et w)
        → (j : ℕ) → ¬ Mem j lent
        → IsFree k et (update f i w j)
    IsFree-but f i w lent others this j m = elim (Bool-cases (j == i)) [
      | inl same ↦
          let e : j ≡ i = (==_iff j i).0 same in
          subst (IsFree k et) (sym (ap (λ t. if t then w else f j) same))
            (this (subst (λ t. ¬ Mem t lent) e m))
      | inr n ↦ subst (IsFree k et) (sym (update_other f i w j n)) (others j m n)
    ]
