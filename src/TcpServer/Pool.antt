-- ===== src/TcpServer/Pool.antt =====
-- Every connection of the pool is free or lent to one peer, never both.
use mathlib.Core.List.{
  Mem, Perm, Nodup, insert_of_not-mem, mem-append_left, mem_of_ne_of_mem, Nodup-cons, Nodup-nil,
  not-mem-nil, perm_append_singleton,
}
use mathlib.Core.List.Perm
use libpotato.Base.{
  ℕ, zero, suc, ◌<◌, ◌≤◌, ◌≡◌, refl, sym, ap, ◌∙◌, subst, some, List, [], ◌∷◌, ◌++◌, length,
  get_elem?, length-append, ℕ_discrete, dec_lt, arith,
}
use libpotato.TcpServer.{TcpServer, add_connections}

-- The numbers below `n`, in order.
abbrev pub indices : ℕ → List ℕ
indices zero = []
indices (suc n) = indices n ++ (n ∷ [])

length-indices : (n : ℕ) → length (indices n) ≡ n
length-indices zero = refl
length-indices (suc n) = omega (arith, length-append (indices n) (n ∷ []), length-indices n)

get_elem?-append_left :
    (xs ys : List ℕ) (i x : ℕ) → get_elem? xs i ≡ some x → get_elem? (xs ++ ys) i ≡ some x
get_elem?-append_left [] ys i x h = cc
get_elem?-append_left (a ∷ xs) ys zero x h = h
get_elem?-append_left (a ∷ xs) ys (suc i) x h = get_elem?-append_left xs ys i x h

get_elem?-append_self : (xs : List ℕ) (x : ℕ) → get_elem? (xs ++ (x ∷ [])) (length xs) ≡ some x
get_elem?-append_self [] x = refl
get_elem?-append_self (a ∷ xs) x = get_elem?-append_self xs x

pub get_elem?-indices : (n i : ℕ) → i < n → get_elem? (indices n) i ≡ some i
get_elem?-indices zero i h = absurd (omega arith)
get_elem?-indices (suc n) i h = elim (dec_lt i n) [
  | yes lt ↦ get_elem?-append_left (indices n) (n ∷ []) i i (get_elem?-indices n i lt)
  | no ge ↦
      let last : i ≡ n = omega arith in
      ap (get_elem? (indices n ++ (n ∷ []))) (last ∙ sym (length-indices n))
      ∙ get_elem?-append_self (indices n) n
      ∙ ap some (sym last)
]

not-Mem-indices : (n i : ℕ) → n ≤ i → ¬ Mem i (indices n)
not-Mem-indices zero i h m = not-mem-nil m
not-Mem-indices (suc n) i h m = not-Mem-indices n i (omega arith) (
    mem_of_ne_of_mem (λ e. absurd (omega (arith, e)))
      ((Perm.mem_iff (perm_append_singleton n (indices n))).0 m))

Mem-indices : (n i : ℕ) → Mem i (indices n) → i < n
Mem-indices n i m = elim (dec_lt i n) [
  | yes lt ↦ lt
  | no ge ↦ absurd (not-Mem-indices n i (omega arith) m)
]

indices-Nodup : (n : ℕ) → Nodup (indices n)
indices-Nodup zero = Nodup-nil
indices-Nodup (suc n) =
    Perm.nodup (Perm.symm (perm_append_singleton n (indices n)))
      (Nodup-cons.1 (not-Mem-indices n n (omega arith), indices-Nodup n))

-- The connections are numbered by their places, and those free with those lent are all of them.
pub record IsPool (s : TcpServer) (lent : List ℕ) : Type 0 where
  pub count : ℕ
  pub numbered : s.connection_pool ≡ indices count
  pub shared : Perm (s.avail_index ++ lent) s.connection_pool

pub numbered-Nodup : (s : TcpServer) (lent : List ℕ) → IsPool s lent → Nodup (s.avail_index ++ lent)
numbered-Nodup s lent p =
    Perm.nodup (Perm.symm p.shared) (subst Nodup (sym p.numbered) (indices-Nodup p.count))

pub Mem-avail :
    (s : TcpServer) (lent : List ℕ) (i : ℕ) (p : IsPool s lent)
    → Mem i (s.avail_index ++ lent)
    → i < p.count
Mem-avail s lent i p m =
    Mem-indices p.count i (subst (Mem i) p.numbered ((Perm.mem_iff p.shared).0 m))

pub add_connections-IsPool :
    (n : ℕ) (s : TcpServer) (lent : List ℕ) → IsPool s lent → IsPool (add_connections n s) lent
unfolding add_connections
add_connections-IsPool zero s lent p = p
add_connections-IsPool (suc n) s lent p = add_connections-IsPool n _ lent (record {
  count = suc p.count;
  numbered =
      ap (λ t. t ++ (length t ∷ [])) p.numbered
      ∙ ap (λ t. indices p.count ++ (t ∷ [])) (length-indices p.count);
  shared =
      subst (λ t. Perm (t ++ lent) (s.connection_pool ++ (length s.connection_pool ∷ [])))
        (sym (insert_of_not-mem ℕ_discrete fresh))
        (Perm.trans (Perm.cons (length s.connection_pool) p.shared)
          (Perm.symm (perm_append_singleton (length s.connection_pool) s.connection_pool)));
})
  where
    fresh : ¬ Mem (length s.connection_pool) s.avail_index
    fresh m = absurd (
        omega (
          arith,
          Mem-avail s lent (length s.connection_pool) p (mem-append_left lent m),
          ap length p.numbered,
          length-indices p.count,
        ))
