-- ===== src/EventLoopPool/RoundRobin.antt =====
-- `getNextLoop` hands the loops out in turn.
use libpotato.Base.{
  ℕ, zero, suc, ◌+◌, ◌-◌, ◌≤◌, ◌<◌, ◌≡◌, ◌⊎◌, inl, inr, refl, sym, ap, ◌∙◌, Bool, true, some, List,
  [], ◌∷◌, ◌++◌, append_assoc, append-nil, ok, if◌then◌else◌, leb, length, get_elem?, take, drop,
  length-append, take_all, >>=-eq-ok, length-drop, arith,
}
use libpotato.EventLoopPool.{
  EventLoopPool, new_pool, set_thread_num, start, get_next_loop, get_next_loops,
}

-- The index of the next loop is in the vector, unless there is none.
pub record IsTurning (p : EventLoopPool) : Type 0 where
  pub next_in : p.next < length p.loops

-- The pool after `start`, when the threads took the lock in the order of `loops`.
abbrev pub started : ℕ → Bool → List ℕ → EventLoopPool
started main et loops = record {
  main_loop = main;
  et_mode = et;
  starting = true;
  thread_nums = length loops;
  next = 0;
  loops = loops;
}

pub start-append :
    (arrivals there : List ℕ) (main n : ℕ) (et : Bool)
    → length there + length arrivals ≡ n
    → start arrivals (record (set_thread_num n (new_pool main et)) { loops = there })
      ≡ some (started main et (there ++ arrivals))
unfolding start set_thread_num new_pool
start-append [] there main n et h =
    let e : length there ≡ n = omega (arith, h) in ground (arith, append-nil there)
start-append (x ∷ rest) there main n et h =
    start-append rest (there ++ (x ∷ [])) main n et (omega (arith, h, length-append there (x ∷ [])))
    ∙ ap (λ t. some (started main et t)) (append_assoc there (x ∷ []) rest)

drop-get : (xs : List ℕ) (i x : ℕ) → get_elem? xs i ≡ some x → drop i xs ≡ x ∷ drop (suc i) xs
drop-get [] i x e = cc
drop-get (y ∷ xs) zero x e = ground arith
drop-get (y ∷ xs) (suc i) x e = drop-get xs i x e

get_elem?-in : (xs : List ℕ) (i : ℕ) → i < length xs → (x : ℕ) × (get_elem? xs i ≡ some x)
get_elem?-in [] i h = absurd (omega arith)
get_elem?-in (x ∷ xs) zero h = (x, refl)
get_elem?-in (x ∷ xs) (suc i) h = get_elem?-in xs i (omega arith)

abbrev at : EventLoopPool → ℕ → EventLoopPool
at p i = record p { next = i }

-- The index after one more call.
abbrev wrap : EventLoopPool → ℕ → ℕ
wrap p i = if leb (length p.loops) i then 0 else i

get_next_loop-at :
    (p : EventLoopPool) (i x : ℕ)
    → get_elem? p.loops i ≡ some x
    → get_next_loop (at p i) ≡ ok (x, at p (wrap p (i + 1)))
unfolding get_next_loop
get_next_loop-at p i x e = ground (arith, e)

step :
    (n : ℕ) (p q r : EventLoopPool) (x : ℕ) (xs : List ℕ)
    → get_next_loop p ≡ ok (x, q)
    → get_next_loops n q ≡ ok (xs, r)
    → get_next_loops (suc n) p ≡ ok (x ∷ xs, r)
unfolding get_next_loops
step n p q r x xs e f = rw (e, f)

-- Calls that do not pass the end of the vector give its loops in order.
get_next_loops-run :
    (n : ℕ) (p : EventLoopPool) (i : ℕ)
    → i < length p.loops
    → i + n ≤ length p.loops
    → get_next_loops n (at p i) ≡ ok (take n (drop i p.loops), at p (wrap p (i + n)))
unfolding get_next_loops
get_next_loops-run zero p i h k = ap (λ t. ok ([], at p t)) (ground arith)
get_next_loops-run (suc zero) p i h k =
    let (x, e) = get_elem?-in p.loops i h in rw (get_next_loop-at p i x e, drop-get p.loops i x e)
get_next_loops-run (suc (suc n)) p i h k =
    let (x, e) = get_elem?-in p.loops i h in
    let stays : wrap p (i + 1) ≡ suc i = ground arith in
    let total : suc i + suc n ≡ i + suc (suc n) = omega arith in
    step (suc n) (at p i) (at p (suc i)) (at p (wrap p (suc i + suc n))) x
      (take (suc n) (drop (suc i) p.loops))
      (get_next_loop-at p i x e ∙ ap (λ t. ok (x, at p t)) stays)
      (get_next_loops-run (suc n) p (suc i) (omega arith) (omega arith))
    ∙ ap (λ t. ok (take (suc (suc n)) t, at p (wrap p (suc i + suc n))))
        (sym (drop-get p.loops i x e))
    ∙ ap (λ t. ok (take (suc (suc n)) (drop i p.loops), at p (wrap p t))) total

get_next_loops-append :
    (m n : ℕ) (p q r : EventLoopPool) (xs ys : List ℕ)
    → get_next_loops m p ≡ ok (xs, q)
    → get_next_loops n q ≡ ok (ys, r)
    → get_next_loops (m + n) p ≡ ok (xs ++ ys, r)
unfolding get_next_loops
get_next_loops-append zero n p q r xs ys e f =
    ap (λ t. get_next_loops t p) {y = n} (omega arith) ∙ nothing (ground arith) (ground arith)
  where
    nothing : p ≡ q → xs ≡ [] → get_next_loops n p ≡ ok (xs ++ ys, r)
    nothing same empty = ap (get_next_loops n) same ∙ f ∙ ap (λ t. ok (t ++ ys, r)) (sym empty)
get_next_loops-append (suc m) n p q r xs ys e f =
    let (a, e1, e2) = >>=-eq-ok (get_next_loop p) _ e in
    let (b, e3, e4) = >>=-eq-ok (get_next_loops m a.1) _ e2 in
    let same : b.1 ≡ q = ground arith in
    let front : a.0 ∷ b.0 ≡ xs = ground arith in
    ap (λ t. get_next_loops t p) {y = suc (m + n)} (omega arith)
    ∙ step (m + n) p a.1 r a.0 (b.0 ++ ys) e1
        (get_next_loops-append m n a.1 b.1 r b.0 ys e3 (ap (get_next_loops n) same ∙ f))
    ∙ ap (λ t. ok (t ++ ys, r)) front

-- If the next index is in the vector, as many calls as there are loops give every loop once, from
-- the next one on round the end of the vector, and leave the pool as it was.
pub get_next_loops-cycle :
    (p : EventLoopPool)
    → IsTurning p
    → get_next_loops (length p.loops) p ≡ ok (drop p.next p.loops ++ take p.next p.loops, p)
get_next_loops-cycle p t =
    let a : ℕ = length p.loops - p.next in
    let turned : wrap p (p.next + a) ≡ 0 = ground (arith, t.next_in) in
    let back : wrap p (0 + p.next) ≡ p.next = ground (arith, t.next_in) in
    let first : get_next_loops a p ≡ ok (drop p.next p.loops, at p 0) =
      get_next_loops-run a p p.next t.next_in (omega (arith, t.next_in))
      ∙ ap (λ s. ok (take a (drop p.next p.loops), at p s)) turned
      ∙ ap (λ s. ok (s, at p 0))
          (take_all a (drop p.next p.loops) (omega (arith, length-drop p.next p.loops))) in
    let second : get_next_loops p.next (at p 0) ≡ ok (take p.next p.loops, p) =
      get_next_loops-run p.next p 0 (omega (arith, t.next_in)) (omega (arith, t.next_in))
      ∙ ap (λ s. ok (take p.next p.loops, at p s)) back in
    ap (λ s. get_next_loops s p) {y = a + p.next} (omega (arith, t.next_in))
    ∙ get_next_loops-append a p.next p (at p 0) p (drop p.next p.loops) (take p.next p.loops) first
        second

-- With at least one thread, `start` ends when all the threads have added their loops, and then as
-- many calls as there are threads give each thread's loop once, in the order in which the threads
-- added them, and leave the pool as it was.
pub start-cycle :
    (arrivals : List ℕ) (main : ℕ) (et : Bool)
    → 0 < length arrivals
    → (p : EventLoopPool) × (start arrivals (set_thread_num (length arrivals) (new_pool main et))
        ≡ some p)
      × IsTurning p
      × (get_next_loops (length arrivals) p ≡ ok (arrivals, p))
unfolding set_thread_num new_pool
start-cycle arrivals main et h = (
  started main et arrivals,
  start-append arrivals [] main (length arrivals) et (omega arith),
  record { next_in = h },
  get_next_loops-cycle (started main et arrivals) (record { next_in = h })
      ∙ ap (λ t. ok (t, started main et arrivals)) (append-nil arrivals),
)

-- With no threads the main loop is given.
pub get_next_loop-main : (p : EventLoopPool) → p.loops ≡ [] → get_next_loop p ≡ ok (p.main_loop, p)
unfolding get_next_loop
get_next_loop-main p e = rw e

-- A call succeeds if there are no loops or the next index is in the vector, and so it stays.
abbrev pub IsReady : EventLoopPool → Type 0
IsReady p = (p.loops ≡ []) ⊎ (p.next < length p.loops)

pub get_next_loop-IsReady :
    (p : EventLoopPool)
    → IsReady p
    → (l : ℕ) × (p' : EventLoopPool) × (get_next_loop p ≡ ok (l, p')) × IsReady p'
get_next_loop-IsReady p (inl none_there) =
    (p.main_loop, p, get_next_loop-main p none_there, inl none_there)
get_next_loop-IsReady p (inr h) =
    let (x, e) = get_elem?-in p.loops p.next h in
    (x, at p (wrap p (p.next + 1)), get_next_loop-at p p.next x e, inr (ground arith))
