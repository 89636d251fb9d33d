-- ===== src/TcpServer/Lending.antt =====
-- `borrowConnection` and `returnConnection`: no connection is lent to two peers at once.
use mathlib.Core.List.Perm
use mathlib.Core.List.{
  Mem, Perm, Nodup, insert, erase, insert_of_not-mem, mem-append_right, mem-append_left,
  mem-cons_self, mem-cons_of_mem, Nodup-cons, perm_middle, perm_cons_erase, cons≢nil, dec_mem,
  ne-nil_of_mem, insert_of_mem,
}
use libpotato.Base.{
  ℕ, zero, suc, ◌⊎◌, length, ◌≡◌, ◌≢◌, refl, sym, ap, ◌∙◌, subst, inl, inr, Option, none, some,
  List, [], ◌∷◌, ◌++◌, Result, ok, ◌>>=◌, get_elem?, ℕ_discrete, arith,
}
use libpotato.TcpServer.{
  TcpServer, Begin, add_connections, new_server, connection_at, refilled, borrow_connection,
  return_connection,
}
use libpotato.TcpServer.Pool.{
  indices, IsPool, numbered-Nodup, Mem-avail, add_connections-IsPool, get_elem?-indices,
}

pub new_server-IsPool : IsPool new_server []
unfolding new_server
new_server-IsPool =
    add_connections-IsPool 200 (record { connection_pool = []; avail_index = [] }) []
      (record { count = 0; numbered = refl; shared = Perm.refl [] })

insert-ne-nil : (a : ℕ) (l : List ℕ) → insert ℕ_discrete a l ≢ []
insert-ne-nil a l e = elim (dec_mem ℕ_discrete a l) [
  | yes m ↦ ne-nil_of_mem m (sym (insert_of_mem ℕ_discrete m) ∙ e)
  | no n ↦ cons≢nil (sym (insert_of_not-mem ℕ_discrete n) ∙ e)
]

free_after_add : (n : ℕ) (s : TcpServer) → (add_connections (suc n) s).avail_index ≢ []
unfolding add_connections
free_after_add zero s = insert-ne-nil (length s.connection_pool) s.avail_index
free_after_add (suc n) s = free_after_add n _

refilled-cases :
    (s : TcpServer)
    → (refilled s ≡ add_connections 200 s) ⊎ ((s.avail_index ≢ []) × (refilled s ≡ s))
unfolding refilled
refilled-cases s = by_free s.avail_index refl
  where
    by_free :
        (xs : List ℕ)
        → s.avail_index ≡ xs
        → (refilled s ≡ add_connections 200 s) ⊎ ((s.avail_index ≢ []) × (refilled s ≡ s))
    by_free [] e = inl (rw e)
    by_free (x ∷ xs) e = inr (λ none_free. cons≢nil (sym e ∙ none_free), rw e)

pub refilled-free : (s : TcpServer) → (refilled s).avail_index ≢ []
refilled-free s = elim (refilled-cases s) [
  | inl grown ↦ λ e. free_after_add 199 s (sym (ap (λ t. t.avail_index) grown) ∙ e)
  | inr (free, same) ↦ λ e. free (sym (ap (λ t. t.avail_index) same) ∙ e)
]

pub refilled-IsPool : (s : TcpServer) (lent : List ℕ) → IsPool s lent → IsPool (refilled s) lent
refilled-IsPool s lent p = elim (refilled-cases s) [
  | inl grown ↦ subst (λ t. IsPool t lent) (sym grown) (add_connections-IsPool 200 s lent p)
  | inr (free, same) ↦ subst (λ t. IsPool t lent) (sym same) p
]

module _ (begin : Begin) where
  borrow_at :
      (s : TcpServer) (lent : List ℕ) (p : IsPool s lent) (i : ℕ)
      → begin.first s.avail_index ≡ i
      → Mem i s.avail_index
      → connection_at s.connection_pool (begin.first s.avail_index) ≡ ok i
  borrow_at s lent p i e m =
      ap (λ t. connection_at t (begin.first s.avail_index)) p.numbered
      ∙ ap (connection_at (indices p.count)) e
      ∙ found (get_elem?-indices p.count i (Mem-avail s lent i p (mem-append_left lent m)))
    where
      found : get_elem? (indices p.count) i ≡ some i → connection_at (indices p.count) i ≡ ok i
      found h = rw (connection_at, h)

  -- Where the free connections and those lent are together all of the pool, once each, a call
  -- succeeds even when no connection is free. The connection that it lends was lent to nobody, and
  -- then the same holds with it among those lent.
  pub borrow_connection-IsPool :
      (s : TcpServer) (lent : List ℕ)
      → IsPool s lent
      → (i : ℕ) × (s' : TcpServer) × (borrow_connection begin s ≡ ok (i, s'))
        × (¬ Mem i lent)
        × IsPool s' (i ∷ lent)
  unfolding borrow_connection
  borrow_connection-IsPool s lent p =
      let s1 : TcpServer = refilled s in
      let p1 = refilled-IsPool s lent p in
      let i : ℕ = begin.first s1.avail_index in
      let m : Mem i s1.avail_index = begin.first-Mem s1.avail_index (refilled-free s) in
      let rest : List ℕ = erase ℕ_discrete s1.avail_index i in
      let taken : Perm (i ∷ (rest ++ lent)) (s1.avail_index ++ lent) =
        Perm.append_right lent (Perm.symm (perm_cons_erase ℕ_discrete m)) in
      (
        i,
        record s1 { avail_index = rest },
        rw (borrow_at s1 lent p1 i refl m),
        λ there.
            (Nodup-cons.0 (Perm.nodup (Perm.symm taken) (numbered-Nodup s1 lent p1))).0
              (mem-append_right rest there),
        record {
          count = p1.count;
          numbered = p1.numbered;
          shared = Perm.trans (perm_middle rest lent) (Perm.trans taken p1.shared);
        },
      )

-- A connection that is given back is free again.
pub return_connection-IsPool :
    (i : ℕ) (s : TcpServer) (lent : List ℕ)
    → IsPool s (i ∷ lent)
    → IsPool (return_connection i s) lent
unfolding return_connection
return_connection-IsPool i s lent p = record {
  count = p.count;
  numbered = p.numbered;
  shared =
      subst (λ t. Perm (t ++ lent) s.connection_pool) (sym (insert_of_not-mem ℕ_discrete lent_out))
        (Perm.trans (Perm.symm (perm_middle s.avail_index lent)) p.shared);
}
  where
    lent_out : ¬ Mem i s.avail_index
    lent_out m =
        (Nodup-cons.0
            (Perm.nodup (perm_middle s.avail_index lent) (numbered-Nodup s (i ∷ lent) p))).0
          (mem-append_left lent m)

-- What a server does with its pool: a peer arrives, or the peer that is at a place of the list of
-- those served leaves.
pub data Request : Type 0 where
  arrive : Request
  leave : ℕ → Request

pub leave_by : TcpServer → List ℕ → Option ℕ → TcpServer × List ℕ
leave_by s lent none = (s, lent)
leave_by s lent (some i) = (return_connection i s, erase ℕ_discrete lent i)

pub serve : Begin → List Request → TcpServer → List ℕ → Result (TcpServer × List ℕ)
serve begin [] s lent = ok (s, lent)
serve begin (arrive ∷ rs) s lent = do
  (i, s') ← borrow_connection begin s
  serve begin rs s' (i ∷ lent)
serve begin (leave k ∷ rs) s lent =
    let after = leave_by s lent (get_elem? lent k) in serve begin rs after.0 after.1

pub get_elem?-Mem : (xs : List ℕ) (k x : ℕ) → get_elem? xs k ≡ some x → Mem x xs
get_elem?-Mem [] k x e = cc
get_elem?-Mem (a ∷ xs) zero x e = let same : a ≡ x = ground arith in rw same mem-cons_self
get_elem?-Mem (a ∷ xs) (suc k) x e = mem-cons_of_mem a (get_elem?-Mem xs k x e)

pub erase-IsPool :
    (s : TcpServer) (lent : List ℕ) (i : ℕ)
    → Mem i lent
    → IsPool s lent
    → IsPool (return_connection i s) (erase ℕ_discrete lent i)
erase-IsPool s lent i m p = return_connection-IsPool i s (erase ℕ_discrete lent i) (record {
  count = p.count;
  numbered = p.numbered;
  shared =
      Perm.trans (Perm.append_left s.avail_index (Perm.symm (perm_cons_erase ℕ_discrete m)))
        p.shared;
})

pub leave_by-IsPool :
    (s : TcpServer) (lent : List ℕ) (o : Option ℕ)
    → ((i : ℕ) → o ≡ some i → Mem i lent)
    → IsPool s lent
    → IsPool (leave_by s lent o).0 (leave_by s lent o).1
unfolding leave_by
leave_by-IsPool s lent none h p = p
leave_by-IsPool s lent (some i) h p = erase-IsPool s lent i (h i refl) p

-- A set that is not empty stays so.
pub leave_by-free :
    (s : TcpServer) (lent : List ℕ) (o : Option ℕ)
    → s.avail_index ≢ []
    → (leave_by s lent o).0.avail_index ≢ []
unfolding leave_by return_connection
leave_by-free s lent none h = h
leave_by-free s lent (some i) h = insert-ne-nil i s.avail_index

serve-IsPool :
    (begin : Begin) (rs : List Request) (s : TcpServer) (lent : List ℕ)
    → IsPool s lent
    → (s' : TcpServer) × (lent' : List ℕ) × (serve begin rs s lent ≡ ok (s', lent'))
      × IsPool s' lent'
unfolding serve
serve-IsPool begin [] s lent p = (s, lent, refl, p)
serve-IsPool begin (arrive ∷ rs) s lent p =
    let (i, s1, e, fresh, p1) = borrow_connection-IsPool begin s lent p in
    let (s2, lent2, e2, p2) = serve-IsPool begin rs s1 (i ∷ lent) p1 in (s2, lent2, rw (e, e2), p2)
serve-IsPool begin (leave k ∷ rs) s lent p =
    serve-IsPool begin rs _ _
      (leave_by-IsPool s lent (get_elem? lent k) (λ i e. get_elem?-Mem lent k i e) p)

-- From the server's start, whatever peers arrive and leave in whatever order, no call fails,
-- whichever index the set of free indices begins with. At the end no connection is lent twice, none
-- is both free and lent, and those free and those lent are together all of the pool.
pub serve-Nodup :
    (begin : Begin) (rs : List Request)
    → (s : TcpServer) × (lent : List ℕ) × (serve begin rs new_server [] ≡ ok (s, lent))
      × Nodup (s.avail_index ++ lent)
      × Perm (s.avail_index ++ lent) s.connection_pool
serve-Nodup begin rs =
    let (s, lent, e, p) = serve-IsPool begin rs new_server [] new_server-IsPool in
    (s, lent, e, numbered-Nodup s lent p, p.shared)
