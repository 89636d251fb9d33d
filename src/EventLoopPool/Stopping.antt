-- ===== src/EventLoopPool/Stopping.antt =====
-- `EventLoopPool::~EventLoopPool`: the loops are stopped, and their threads are waited for.
use libpotato.Base.{
  ◌≡◌, ◌⊎◌, refl, ap, ◌∙◌, Bool, true, false, ◌&&◌, List, [], ◌∷◌, Result, ok, err, assertion,
  ◌>>=◌, if◌then◌else◌, drop, inl, inr, Bool-cases, map,
}
use libpotato.EventLoop.{EventLoop, call_each, stop_loop, wakeup}
use libpotato.IoWatcher.{Epoll}
use libpotato.EventLoop.Running.{Round, run_rounds, call_pending_functors_while}

-- Where a thread is when its loop is stopped: at the test of its `while`; before its queue is taken, in
-- `epoll_wait` or in a callback, with what is still to happen in the round; or in its queue, with the
-- functions that are still to run.
pub data Place (F W : Type 0) : Type 0 where
  at_test : Place F W
  before_queue : Round F W → Place F W
  in_queue : List F → Place F W

module _ {F W : Type 0} (body : F → EventLoop F W → EventLoop F W) where
  -- The loops are stopped in the order in which their threads added them.
  unfoldable pub stop_loops : List (EventLoop F W) → Result (List (EventLoop F W))
  stop_loops [] = ok []
  stop_loops (l ∷ ls) = do l' ← stop_loop body false l; ls' ← stop_loops ls; ok (l' ∷ ls')

  module _ (k : Epoll) (et : Bool) where
    -- The rest of the round in which a thread is when its loop is stopped.
    unfoldable pub finish_round : Place F W → EventLoop F W → Result (EventLoop F W)
    finish_round at_test l = ok l
    finish_round (before_queue r) l = do
      l' ← r.before l
      call_pending_functors_while k et body r.during l'
    finish_round (in_queue fs) l = ok (call_each body fs l)

    -- The threads are waited for, each of which finishes its round and goes on with `rounds` if its
    -- loop is looping.
    unfoldable pub join_threads :
        List (Round F W) → List (Place F W) → List (EventLoop F W) → Result (List (EventLoop F W))
    join_threads rounds [] ls = ok []
    join_threads rounds (p ∷ ps) [] = ok []
    join_threads rounds (p ∷ ps) (l ∷ ls) = do
      l1 ← finish_round p l
      l2 ← run_rounds k et body rounds l1
      ls' ← join_threads rounds ps ls
      ok (l2 ∷ ls')

    -- The destructor. `ps` are the places of the threads whose loops are `ls`.
    unfoldable pub delete_pool :
        List (Round F W) → List (Place F W) → List (EventLoop F W) → Result (List (EventLoop F W))
    delete_pool rounds ps ls = do stopped ← stop_loops ls; join_threads rounds ps stopped

  -- A loop that another thread has stopped.
  abbrev pub stopped : EventLoop F W → EventLoop F W
  stopped l = record l { looping = false; at_first = drop 4 l.at_first }

  abbrev pub all_looping : List (EventLoop F W) → Bool
  all_looping [] = true
  all_looping (l ∷ ls) = l.looping && all_looping ls

  -- What the destructor should come to.
  abbrev pub if_looping : Bool → List (EventLoop F W) → Result (List (EventLoop F W))
  if_looping b ls = if b then ok (map stopped ls) else err assertion

  stop_loop-if :
      (l : EventLoop F W)
      → stop_loop body false l ≡ (if l.looping then ok (stopped l) else err assertion)
  unfolding stop_loop wakeup
  stop_loop-if l = elim (Bool-cases l.looping) [ inl on ↦ rw on | inr off ↦ rw off ]

  stop_loops-if_looping :
      (ls : List (EventLoop F W)) → stop_loops ls ≡ if_looping (all_looping ls) ls
  unfolding stop_loops
  stop_loops-if_looping [] = refl
  stop_loops-if_looping (l ∷ ls) =
      ap (λ m. m >>= λ l'. stop_loops ls >>= λ ls'. ok (l' ∷ ls')) (stop_loop-if l)
      ∙ ap
          (λ m. (if l.looping then ok (stopped l) else err assertion) >>= λ l'.
            m >>= λ ls'. ok (l' ∷ ls'))
          (stop_loops-if_looping ls)
      ∙ elim (Bool-cases l.looping) [
        | inr off ↦ rw off
        | inl on ↦ elim (Bool-cases (all_looping ls)) [
          | inl all ↦ rw (on, all)
          | inr some_off ↦ rw (on, some_off)
        ]
      ]

  -- What is left of the rounds and what the functions do ends, and leaves a stopped loop stopped.
  abbrev pub StaysOff : (EventLoop F W → Result (EventLoop F W)) → Type 0
  StaysOff g =
      (l : EventLoop F W)
      → l.looping ≡ false
      → (l' : EventLoop F W) × (g l ≡ ok l') × (l'.looping ≡ false)

  abbrev pub PlaceEnds : Place F W → Type 0
  PlaceEnds at_test = Unit
  PlaceEnds (before_queue r) = StaysOff r.before × StaysOff r.during
  PlaceEnds (in_queue fs) = Unit

  -- A place for each loop, where the thread's round ends.
  abbrev pub AllEnd : List (Place F W) → List (EventLoop F W) → Type 0
  AllEnd [] [] = Unit
  AllEnd [] (l ∷ ls) = ⊥
  AllEnd (p ∷ ps) [] = ⊥
  AllEnd (p ∷ ps) (l ∷ ls) = PlaceEnds p × AllEnd ps ls

  module _ (off : (f : F) (l : EventLoop F W) → l.looping ≡ false → (body f l).looping ≡ false)
      (k : Epoll) (et : Bool) where
    -- What is left of each loop, once its thread has finished its round.
    abbrev pub Ended : List (Place F W) → List (EventLoop F W) → List (EventLoop F W) → Type 0
    Ended [] ls ls' = ls' ≡ []
    Ended (p ∷ ps) [] ls' = ⊥
    Ended (p ∷ ps) (l ∷ ls) [] = ⊥
    Ended (p ∷ ps) (l ∷ ls) (l' ∷ ls') =
        (finish_round k et p (stopped l) ≡ ok l') × (l'.looping ≡ false) × Ended ps ls ls'

    call_each-off :
        (fs : List F) (l : EventLoop F W)
        → l.looping ≡ false
        → (call_each body fs l).looping ≡ false
    unfolding call_each
    call_each-off [] l h = h
    call_each-off (f ∷ fs) l h = call_each-off fs (body f l) (off f l h)

    finish_round-off :
        (p : Place F W) (l : EventLoop F W)
        → PlaceEnds p
        → l.looping ≡ false
        → (l' : EventLoop F W) × (finish_round k et p l ≡ ok l') × (l'.looping ≡ false)
    unfolding finish_round call_pending_functors_while
    finish_round-off at_test l q h = (l, refl, h)
    finish_round-off (before_queue r) l (q, q') h =
        let (l1, e, h1) = q l h in
        let (l2, f, h2) = q' (record l1 { pending_functors = [] }) h1 in
        (
          call_each body l1.pending_functors l2,
          ap (λ m. m >>= call_pending_functors_while k et body r.during) e
              ∙ ap (λ m. m >>= λ t. ok (call_each body l1.pending_functors t)) f,
          call_each-off l1.pending_functors l2 h2,
        )
    finish_round-off (in_queue fs) l q h = (call_each body fs l, refl, call_each-off fs l h)

    run_rounds-off :
        (rs : List (Round F W)) (l : EventLoop F W)
        → l.looping ≡ false
        → run_rounds k et body rs l ≡ ok l
    unfolding run_rounds
    run_rounds-off [] l h = rw h
    run_rounds-off (r ∷ rs) l h = rw h

    join_threads-Ended :
        (rounds : List (Round F W)) (ps : List (Place F W)) (ls : List (EventLoop F W))
        → AllEnd ps ls
        → (ls' : List (EventLoop F W)) × (join_threads k et rounds ps (map stopped ls) ≡ ok ls')
          × Ended ps ls ls'
    unfolding join_threads
    join_threads-Ended rounds [] [] q = ([], refl, refl)
    join_threads-Ended rounds [] (l ∷ ls) q = absurd q
    join_threads-Ended rounds (p ∷ ps) [] q = absurd q
    join_threads-Ended rounds (p ∷ ps) (l ∷ ls) (q, qs) =
        let (l', e, h) = finish_round-off p (stopped l) q refl in
        let (ls', f, d) = join_threads-Ended rounds ps ls qs in
        (l' ∷ ls', rw (e, run_rounds-off rounds l' h, f), (e, h, d))

    -- Wherever the thread of each loop is, where what is left of its round ends and neither that nor
    -- a function sets the loop looping again: if every loop of the pool is looping, the destructor
    -- stops them all and every thread ends; it finishes its round, the functions that are in the queue
    -- when it takes it included, and its loop is not looping. If some loop is not looping (its thread has
    -- added it, but not called `startLoop` yet), an assertion fails.
    pub delete_pool-if_looping :
        (rounds : List (Round F W)) (ps : List (Place F W)) (ls : List (EventLoop F W))
        → AllEnd ps ls
        → ((all_looping ls ≡ true)
            × (ls' : List (EventLoop F W)) × (delete_pool k et rounds ps ls ≡ ok ls')
            × Ended ps ls ls')
          ⊎ ((all_looping ls ≡ false) × (delete_pool k et rounds ps ls ≡ err assertion))
    unfolding delete_pool
    delete_pool-if_looping rounds ps ls q = elim (Bool-cases (all_looping ls)) [
      | inl all ↦
          let (ls', e, d) = join_threads-Ended rounds ps ls q in
          inl (
            all,
            ls',
            ap (λ m. m >>= join_threads k et rounds ps)
                  (stop_loops-if_looping ls ∙ ap (λ b. if_looping b ls) all)
                ∙ e,
            d,
          )
      | inr some_off ↦ inr (
        some_off,
        ap (λ m. m >>= join_threads k et rounds ps)
            (stop_loops-if_looping ls ∙ ap (λ b. if_looping b ls) some_off),
      )
    ]
