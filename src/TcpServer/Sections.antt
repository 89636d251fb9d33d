-- ===== src/TcpServer/Sections.antt =====
-- The pool of a server whose threads take the spin lock: the sections of `borrowConnection` and
-- `returnConnection` that run under it. `borrowConnection` tests for an empty set without the lock
-- before its first section. Other threads may change the set meanwhile, so that what it reads is left
-- open: it runs the section, in which the set is tested again, or it does not.
use mathlib.Core.List.{Nodup, Perm, erase}
use libpotato.Base.{
  ℕ, ◌≡◌, ◌≢◌, ◌⊎◌, inl, inr, refl, sym, ap, ◌∙◌, List, [], ◌∷◌, ◌++◌, Result, ok, err,
  out_of_range, ◌>>=◌, get_elem?, ℕ_discrete,
}
use libpotato.SpinLock.{Shared, Reach, idle}
use libpotato.SpinLock.Serial.{replay, replay_none, replay_step, idle-Reach-replay}
use libpotato.TcpServer.{TcpServer, Begin, connection_at, refilled, new_server, borrow_connection}
use libpotato.TcpServer.Pool.{IsPool, numbered-Nodup}
use libpotato.TcpServer.Lending.{
  leave_by, leave_by-IsPool, refilled-IsPool, get_elem?-Mem, borrow_connection-IsPool,
  new_server-IsPool,
}

-- `borrowConnection` may fill the set where it is empty, and takes an index; `returnConnection` puts in
-- the index of the connection at a place of the list of those lent.
pub data Section : Type 0 where
  refill take : Section
  give : ℕ → Section

-- The pool and the indices that are lent.
abbrev pub Held : Type 0
Held = Result (TcpServer × List ℕ)

module _ (begin : Begin) where
  -- The second section of `borrowConnection`. `begin()` of an empty set must not be read.
  unfoldable pub take_index : TcpServer → Result (ℕ × TcpServer)
  take_index s = elim s.avail_index [
    | [] ↦ err out_of_range
    | i ∷ is ↦ (do
      c ← connection_at s.connection_pool (begin.first s.avail_index)
      ok (c, record s { avail_index = erase ℕ_discrete s.avail_index (begin.first s.avail_index) }))
  ]

  unfoldable pub run_section : Section → Held → Held
  run_section refill m = do (s, lent) ← m; ok (refilled s, lent)
  run_section take m = do (s, lent) ← m; (i, s') ← take_index s; ok (s', i ∷ lent)
  run_section (give n) m = do (s, lent) ← m; ok (leave_by s lent (get_elem? lent n))

refilled-same : (s : TcpServer) → s.avail_index ≢ [] → refilled s ≡ s
unfolding refilled
refilled-same s h = by_free s.avail_index refl
  where
    by_free : (xs : List ℕ) → s.avail_index ≡ xs → refilled s ≡ s
    by_free [] e = absurd (h e)
    by_free (x ∷ xs) e = rw e

is_empty : (xs : List ℕ) → (xs ≡ []) ⊎ (xs ≢ [])
is_empty [] = inl refl
is_empty (x ∷ xs) = inr (λ e. absurd (cc e))

module _ (begin : Begin) where
  -- What a call does with a set that is not empty.
  taken : TcpServer → Result (ℕ × TcpServer)
  taken t = do
    c ← connection_at t.connection_pool (begin.first t.avail_index)
    ok (c, record t { avail_index = erase ℕ_discrete t.avail_index (begin.first t.avail_index) })

  take_index-taken :
      (s : TcpServer) (xs : List ℕ) → s.avail_index ≡ xs → xs ≢ [] → taken s ≡ take_index begin s
  unfolding take_index taken
  take_index-taken s [] e h = absurd (h refl)
  take_index-taken s (x ∷ xs) e h =
      ap (λ l. elim l as (λ _. Result (ℕ × TcpServer)) [ [] ↦ err out_of_range | i ∷ is ↦ taken s ])
        (sym e)

  borrow-take_index :
      (s : TcpServer) → s.avail_index ≢ [] → borrow_connection begin s ≡ take_index begin s
  unfolding borrow_connection taken
  borrow-take_index s h = ap taken (refilled-same s h) ∙ take_index-taken s s.avail_index refl h

  -- A `take` among the sections comes when the set is empty.
  abbrev pub Starved : Held → List Section → Type 0
  Starved start ops =
      (before after : List Section) × (ops ≡ before ++ (take ∷ after))
      × (s : TcpServer) × (lent : List ℕ) × (replay Section Held (run_section begin) before start
          ≡ ok (s, lent))
      × (s.avail_index ≡ [])

  -- The pool after all sections, in order.
  abbrev Sound : Held → List Section → Type 0
  Sound start ops =
      (s : TcpServer) × (lent : List ℕ) × (replay Section Held (run_section begin) ops start
        ≡ ok (s, lent))
      × IsPool s lent

  -- What the sections come to after a first one that gives `next`.
  after_section :
      (op : Section) (ops : List Section) (start next : Held)
      → run_section begin op start ≡ next
      → Sound next ops ⊎ Starved next ops
      → Sound start (op ∷ ops) ⊎ Starved start (op ∷ ops)
  after_section op ops start next e (inl (s, lent, f, p)) = inl (
    s,
    lent,
    replay_step Section Held (run_section begin) op ops start
        ∙ ap (replay Section Held (run_section begin) ops) e
        ∙ f,
    p,
  )
  after_section op ops start next e (inr (before, after, f, s, lent, g, none_free)) = inr (
    op ∷ before,
    after,
    ap (λ t. op ∷ t) f,
    s,
    lent,
    replay_step Section Held (run_section begin) op before start
        ∙ ap (replay Section Held (run_section begin) before) e
        ∙ g,
    none_free,
  )

  run_all-Sound :
      (ops : List Section) (s : TcpServer) (lent : List ℕ)
      → IsPool s lent
      → Sound (ok (s, lent)) ops ⊎ Starved (ok (s, lent)) ops
  unfolding run_section
  run_all-Sound [] s lent p =
      inl (s, lent, replay_none Section Held (run_section begin) (ok (s, lent)), p)
  run_all-Sound (refill ∷ ops) s lent p =
      after_section refill ops (ok (s, lent)) (ok (refilled s, lent)) refl
        (run_all-Sound ops (refilled s) lent (refilled-IsPool s lent p))
  run_all-Sound (take ∷ ops) s lent p = elim (is_empty s.avail_index) [
    | inl none_free ↦ inr (
      [],
      ops,
      refl,
      s,
      lent,
      replay_none Section Held (run_section begin) (ok (s, lent)),
      none_free,
    )
    | inr some_free ↦
        let (i, s1, b, fresh, p1) = borrow_connection-IsPool begin s lent p in
        let t : take_index begin s ≡ ok (i, s1) = sym (borrow-take_index s some_free) ∙ b in
        after_section take ops (ok (s, lent)) (ok (s1, i ∷ lent))
          (ap (λ m. m >>= λ r. ok (r.1, r.0 ∷ lent)) t) (run_all-Sound ops s1 (i ∷ lent) p1)
  ]
  run_all-Sound (give n ∷ ops) s lent p =
      let after = leave_by s lent (get_elem? lent n) in
      after_section (give n) ops (ok (s, lent)) (ok after) refl (
        run_all-Sound ops after.0 after.1
          (leave_by-IsPool s lent (get_elem? lent n) (λ i e. get_elem?-Mem lent n i e) p))

  -- Threads run the sections of `borrowConnection` and `returnConnection` on a new server under the
  -- spin lock, and their steps interleave in any way; whether a thread that borrows runs the section
  -- that fills the set is left open, whatever its test without the lock has read. In every state that
  -- is reached: no section has failed, no connection is lent twice, none is both free and lent, and
  -- those free and those lent are together all of the pool; or some section took an index where, in
  -- the order of the sections, no connection was free.
  pub Reach-Nodup :
      (w : Shared Section Held)
      → Reach Section Held (run_section begin) (idle Section Held (ok (new_server, []))) w
      → ((s : TcpServer) × (lent : List ℕ) × (w.value ≡ ok (s, lent))
          × Nodup (s.avail_index ++ lent)
          × Perm (s.avail_index ++ lent) s.connection_pool)
        ⊎ Starved (ok (new_server, [])) w.done
  Reach-Nodup w r = elim (run_all-Sound w.done new_server [] new_server-IsPool) [
    | inl (s, lent, e, p) ↦ inl (
      s,
      lent,
      idle-Reach-replay Section Held (run_section begin) (ok (new_server, [])) w r ∙ e,
      numbered-Nodup s lent p,
      p.shared,
    )
    | inr starved ↦ inr starved
  ]
