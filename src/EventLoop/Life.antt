-- ===== src/EventLoop/Life.antt =====
-- A loop from its constructor to its destructor, while other threads hand in functions.
use libpotato.Base.{
  ℕ, ◌≡◌, ◌⊎◌, refl, sym, ap, ◌∙◌, subst, Bool, true, false, inl, inr, List, [], ◌∷◌, ◌++◌,
  append_assoc, append-nil, Result, ok, err, assertion, ◌>>=◌, if◌then◌else◌, none,
}
use libpotato.IoWatcher.{Epoll}
use libpotato.IoWatcher.Registration.{
  expect_reading-IsActive, remove_this_event-gone, remove_this_event-assertion,
}
use libpotato.EventLoop.{EventLoop}
use libpotato.EventLoop.Running.{
  Running, Round, new_loop, run_rounds, start_loop, delete_loop, call_pending_functors_while,
}
use libpotato.EventLoop.Order.{note_down}
use libpotato.EventLoop.Rounds.{
  Visit, round, rounds, Stopped, until_swap, too_late, is_on, Has, round-Has,
}

module _ (k : Epoll) (et : Bool) where
  run_rounds-step :
      (r : Round ℕ (List ℕ)) (rs : List (Round ℕ (List ℕ))) (l l1 l2 : EventLoop ℕ (List ℕ))
      → l.looping ≡ true
      → r.before l ≡ ok l1
      → call_pending_functors_while k et note_down r.during l1 ≡ ok l2
      → run_rounds k et note_down (r ∷ rs) l ≡ run_rounds k et note_down rs l2
  unfolding run_rounds
  run_rounds-step r rs l l1 l2 on e f =
      ap
        (λ b.
          if b
          then (r.before l >>= λ t.
              call_pending_functors_while k et note_down r.during t
              >>= run_rounds k et note_down rs)
          else ok l)
        on
      ∙ ap
          (λ m. m >>= λ t.
            call_pending_functors_while k et note_down r.during t >>= run_rounds k et note_down rs)
          e
      ∙ ap (λ m. m >>= run_rounds k et note_down rs) f

  run_rounds-off :
      (rs : List (Round ℕ (List ℕ))) (l : EventLoop ℕ (List ℕ))
      → l.looping ≡ false
      → run_rounds k et note_down rs l ≡ ok l
  unfolding run_rounds
  run_rounds-off [] l off = rw off
  run_rounds-off (r ∷ rs) l off = rw off

  -- What becomes of the loop in the rounds that are left.
  abbrev Ends : List Visit → EventLoop ℕ (List ℕ) → List ℕ → List ℕ → Type 0
  Ends vs l noted left =
      (l' : EventLoop ℕ (List ℕ)) × (run_rounds k et note_down (rounds et vs) l ≡ ok l')
      × Has l' false noted left

  -- After a round: the other rounds follow, or the loop is stopped.
  after_round :
      (on : Bool) (vs : List Visit) (l : EventLoop ℕ (List ℕ)) (done fs late : List ℕ)
      → (on ≡ false) ⊎ Stopped vs
      → Has l on (done ++ fs) late
      → (Stopped vs
          → Has l true (done ++ fs) late
          → Ends vs l ((done ++ fs) ++ until_swap late vs) (too_late vs))
      → Ends vs l
          (done ++ (fs ++ (if on then until_swap late vs else [])))
          (if on then too_late vs else late)
  after_round false vs l done fs late stopped h go = (
    l,
    run_rounds-off (rounds et vs) l h.looping,
    subst (λ d. Has l false d late) (ap (λ t. done ++ t) (sym (append-nil fs))) h,
  )
  after_round true vs l done fs late stopped h go =
      subst (λ d. Ends vs l d (too_late vs)) (append_assoc done fs (until_swap late vs))
        (go (elim stopped [ inl n ↦ absurd (cc n) | inr s ↦ s ]) h)

  run_rounds-Ends :
      (vs : List Visit) (l : EventLoop ℕ (List ℕ)) (done waiting : List ℕ)
      → Stopped vs
      → Has l true done waiting
      → Ends vs l (done ++ until_swap waiting vs) (too_late vs)
  run_rounds-Ends [] l done waiting stop h = absurd stop
  run_rounds-Ends (v ∷ vs) l done waiting stop h =
      let (l1, l2, e, f, w2) = round-Has k et v l done waiting h in
      let (l', g, w) =
        after_round (is_on v.stop) vs l2 done (waiting ++ v.functions) v.late stop w2
          (λ s w3. run_rounds-Ends vs l2 (done ++ (waiting ++ v.functions)) v.late s w3) in
      (l', run_rounds-step (round et v) (rounds et vs) l l1 l2 h.looping e f ∙ g, w)

  -- The whole life of a loop whose wakeup socket is `second`.
  pub life : ℕ → k.Holder → List Visit → Result (Running k ℕ (List ℕ))
  life second h vs = do
    r ← start_loop k et note_down (rounds et vs) (new_loop k et note_down second h [])
    delete_loop k et note_down r

  -- Where the kernel does not watch the wakeup socket yet, and some thread stops the loop in one of
  -- the rounds, before its queue is taken or after: for functions that only note down that they ran,
  -- the life of a loop (its constructor, `startLoop` and its destructor) ends without a fault. At the
  -- end the functions that have run are those that were handed in before the queue was taken for the
  -- last time, once each and in their order. Those handed in after that never run: they are what the
  -- queue still has, even where they were handed in before the stop. The loop is not looping, and the
  -- kernel does not watch the socket.
  pub life-until_swap :
      (second : ℕ) (h : k.Holder) (vs : List Visit)
      → k.interest h second ≡ none
      → Stopped vs
      → (r : Running k ℕ (List ℕ)) × (life second h vs ≡ ok r)
        × (r.loop.rest ≡ until_swap [] vs)
        × (r.loop.pending_functors ≡ too_late vs)
        × (r.loop.looping ≡ false)
        × (k.interest r.holder second ≡ none)
  unfolding life start_loop new_loop delete_loop
  life-until_swap second h vs free stop =
      let start = new_loop k et note_down second h [] in
      let (e, h1, f, active, others) =
        expect_reading-IsActive k et start.wakeup_event h second
          (record { shape = refl; absent = free }) in
      let (l, g, w) =
        run_rounds-Ends vs (record (start.loop) { looping = true }) [] [] stop
          (record { looping = refl; noted = refl; queue = refl }) in
      let (e2, h2, f2, out, bits, gone, rest) =
        remove_this_event-gone k et e h1 second false active in
      (
        record { loop = l; wakeup_event = e2; holder = h2 },
        rw (f, g, f2, w.looping),
        w.noted,
        w.queue,
        w.looping,
        gone,
      )

  -- A loop that was made and never started: the assertion of its destructor's `removeThisEvent` fails.
  delete_loop-assertion :
      (second : ℕ) (h : k.Holder)
      → k.interest h second ≡ none
      → delete_loop k et note_down (new_loop k et note_down second h []) ≡ err assertion
  unfolding delete_loop new_loop
  delete_loop-assertion second h free =
      let start = new_loop k et note_down second h [] in
      rw (
        remove_this_event-assertion k et start.wakeup_event h second
          (record { shape = refl; absent = free }))
