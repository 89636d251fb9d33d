-- ===== src/EventLoop/Rounds.antt =====
-- One round of `startLoop`, in which other threads hand in functions and may stop the loop.
use libpotato.Base.{
  ℕ, zero, suc, ◌<◌, ◌≡◌, ◌⊎◌, refl, sym, ap, ◌∙◌, subst, Bool, true, false, not, ◌&&◌, inl, inr,
  List, [], ◌∷◌, ◌++◌, append_assoc, append-nil, Result, ok, assertion, guard, ◌>>=◌, if◌then◌else◌,
  leb, ltb, length, drop, length-drop, Bool-cases, arith,
}
use libpotato.IoWatcher.{Epoll}
use libpotato.EventLoop.{EventLoop, run_in_loop, call_each, stop_loop, wakeup}
use libpotato.EventLoop.Running.{Round, read_wakeup, on_wakeup, call_pending_functors_while}
use libpotato.EventLoop.Order.{note_down, call_each-notes}

-- When a thread calls `stopLoop`, if one does in this round: before the queue is taken, or after.
pub data Stop : Type 0 where
  goes_on stops_early stops_late : Stop

-- What other threads do in a round: the functions that they hand in before the queue is taken, and
-- those that they hand in after, while the functions run. One of them may then stop the loop.
pub record Visit : Type 0 where
  pub functions : List ℕ
  pub late : List ℕ
  pub stop : Stop

abbrev is_early : Stop → Bool
is_early goes_on = false
is_early stops_early = true
is_early stops_late = false

abbrev is_late : Stop → Bool
is_late goes_on = false
is_late stops_early = false
is_late stops_late = true

abbrev pub is_on : Stop → Bool
is_on goes_on = true
is_on stops_early = false
is_on stops_late = false

abbrev pub hand_in_all : List ℕ → EventLoop ℕ (List ℕ) → EventLoop ℕ (List ℕ)
hand_in_all [] l = l
hand_in_all (f ∷ fs) l = hand_in_all fs (run_in_loop note_down false f l)

-- The wakeup event is ready where bytes wait at the second end.
abbrev pub if_ready : Bool → EventLoop ℕ (List ℕ) → Result (EventLoop ℕ (List ℕ))
if_ready et l = if ltb 0 (length l.at_second) then on_wakeup et l else ok l

abbrev maybe_stop : Bool → EventLoop ℕ (List ℕ) → Result (EventLoop ℕ (List ℕ))
maybe_stop stop l = if stop then stop_loop note_down false l else ok l

abbrev before_swap : Bool → Visit → EventLoop ℕ (List ℕ) → Result (EventLoop ℕ (List ℕ))
before_swap et v l = if_ready et (hand_in_all v.functions l) >>= maybe_stop (is_early v.stop)

abbrev after_swap : Visit → EventLoop ℕ (List ℕ) → Result (EventLoop ℕ (List ℕ))
after_swap v l = maybe_stop (is_late v.stop) (hand_in_all v.late l)

abbrev pub round : Bool → Visit → Round ℕ (List ℕ)
round et v = record { before = before_swap et v; during = after_swap v }

abbrev pub rounds : Bool → List Visit → List (Round ℕ (List ℕ))
rounds et [] = []
rounds et (v ∷ vs) = round et v ∷ rounds et vs

-- Some thread stops the loop in one of the visits.
abbrev pub Stopped : List Visit → Type 0
Stopped [] = ⊥
Stopped (v ∷ vs) = (is_on v.stop ≡ false) ⊎ Stopped vs

-- The functions that are handed in before the last swap, in a loop in whose queue `waiting` are; and
-- those that are handed in after it.
abbrev pub until_swap : List ℕ → List Visit → List ℕ
until_swap waiting [] = []
until_swap waiting (v ∷ vs) =
    (waiting ++ v.functions) ++ (if is_on v.stop then until_swap v.late vs else [])

abbrev pub too_late : List Visit → List ℕ
too_late [] = []
too_late (v ∷ vs) = if is_on v.stop then too_late vs else v.late

read_wakeup-ends :
    (fuel : ℕ) (et : Bool) (l : EventLoop ℕ (List ℕ))
    → length l.at_second < fuel
    → (xs : List ℕ) × (read_wakeup fuel et l ≡ ok (record l { at_second = xs }))
unfolding read_wakeup
read_wakeup-ends zero et l h = absurd (omega arith)
read_wakeup-ends (suc fuel) et l h = elim (Bool-cases (leb 4 (length l.at_second) && et)) [
  | inl more ↦
      let (xs, e) =
        read_wakeup-ends fuel et (record l { at_second = drop 4 l.at_second })
          (ground (arith, length-drop 4 l.at_second, more)) in
      (xs, rw more e)
  | inr less ↦ (drop 4 l.at_second, rw less)
]

on_wakeup-ends :
    (et : Bool) (l : EventLoop ℕ (List ℕ))
    → (xs : List ℕ) × (on_wakeup et l ≡ ok (record l { at_second = xs }))
unfolding on_wakeup
on_wakeup-ends et l = read_wakeup-ends (suc (length l.at_second)) et l (omega arith)

if_ready-ends :
    (et : Bool) (l : EventLoop ℕ (List ℕ))
    → (xs : List ℕ) × (if_ready et l ≡ ok (record l { at_second = xs }))
if_ready-ends et l = elim (Bool-cases (ltb 0 (length l.at_second))) [
  | inl ready ↦
      let (xs, e) = on_wakeup-ends et l in
      (xs, ap (λ b. if b then on_wakeup et l else ok l) ready ∙ e)
  | inr quiet ↦ (l.at_second, ap (λ b. if b then on_wakeup et l else ok l) quiet)
]

-- A loop that has run `done`, and in whose queue `waiting` are.
pub record Has (l : EventLoop ℕ (List ℕ)) (on : Bool) (done waiting : List ℕ) : Type 0 where
  pub looping : l.looping ≡ on
  pub noted : l.rest ≡ done
  pub queue : l.pending_functors ≡ waiting

hand_in_all-Has :
    (fs : List ℕ) (l : EventLoop ℕ (List ℕ)) (on : Bool) (done waiting : List ℕ)
    → Has l on done waiting
    → Has (hand_in_all fs l) on done (waiting ++ fs)
unfolding run_in_loop wakeup
hand_in_all-Has [] l on done waiting h = record {
  looping = h.looping;
  noted = h.noted;
  queue = h.queue ∙ sym (append-nil waiting);
}
hand_in_all-Has (f ∷ fs) l on done waiting h =
    subst (λ q. Has (hand_in_all fs (run_in_loop note_down false f l)) on done q)
      (append_assoc waiting (f ∷ []) fs)
      (hand_in_all-Has fs (run_in_loop note_down false f l) on done (waiting ++ (f ∷ []))
        (record { looping = h.looping; noted = h.noted; queue = ap (λ q. q ++ (f ∷ [])) h.queue }))

maybe_stop-Has :
    (stop : Bool) (l : EventLoop ℕ (List ℕ)) (done waiting : List ℕ)
    → Has l true done waiting
    → (l' : EventLoop ℕ (List ℕ)) × (maybe_stop stop l ≡ ok l') × Has l' (not stop) done waiting
unfolding stop_loop wakeup
maybe_stop-Has true l done waiting h = (
  record l { looping = false; at_first = drop 4 l.at_first },
  ap
      (λ b.
        guard b assertion >>= λ t. ok (record l { looping = false; at_first = drop 4 l.at_first }))
      h.looping,
  record { looping = refl; noted = h.noted; queue = h.queue },
)
maybe_stop-Has false l done waiting h = (l, refl, h)

before_swap-Has :
    (et : Bool) (v : Visit) (l : EventLoop ℕ (List ℕ)) (done waiting : List ℕ)
    → Has l true done waiting
    → (l' : EventLoop ℕ (List ℕ)) × (before_swap et v l ≡ ok l')
      × Has l' (not (is_early v.stop)) done (waiting ++ v.functions)
before_swap-Has et v l done waiting h =
    let handed = hand_in_all-Has v.functions l true done waiting h in
    let (xs, e) = if_ready-ends et (hand_in_all v.functions l) in
    let read : EventLoop ℕ (List ℕ) = record (hand_in_all v.functions l) { at_second = xs } in
    let (l', f, w) =
      maybe_stop-Has (is_early v.stop) read done (waiting ++ v.functions)
        (record { looping = handed.looping; noted = handed.noted; queue = handed.queue }) in
    (l', ap (λ m. m >>= maybe_stop (is_early v.stop)) e ∙ f, w)

late_stop-Has :
    (s : Stop) (l : EventLoop ℕ (List ℕ)) (done waiting : List ℕ)
    → Has l (not (is_early s)) done waiting
    → (l' : EventLoop ℕ (List ℕ)) × (maybe_stop (is_late s) l ≡ ok l')
      × Has l' (is_on s) done waiting
late_stop-Has goes_on l done waiting h = (l, refl, h)
late_stop-Has stops_early l done waiting h = (l, refl, h)
late_stop-Has stops_late l done waiting h = maybe_stop-Has true l done waiting h

module _ (k : Epoll) (et : Bool) where
  drain-Has :
      (v : Visit) (l : EventLoop ℕ (List ℕ)) (done waiting : List ℕ)
      → Has l (not (is_early v.stop)) done waiting
      → (l' : EventLoop ℕ (List ℕ)) × (call_pending_functors_while k et note_down (after_swap v) l
          ≡ ok l')
        × Has l' (is_on v.stop) (done ++ waiting) v.late
  unfolding call_pending_functors_while
  drain-Has v l done waiting h =
      let swapped : EventLoop ℕ (List ℕ) = record l { pending_functors = [] } in
      let handed =
        hand_in_all-Has v.late swapped (not (is_early v.stop)) done []
          (record { looping = h.looping; noted = h.noted; queue = refl }) in
      let (l1, e, w) = late_stop-Has v.stop (hand_in_all v.late swapped) done v.late handed in
      let ran = call_each-notes l.pending_functors l1 in
      (
        call_each note_down l.pending_functors l1,
        ap (λ m. m >>= λ t. ok (call_each note_down l.pending_functors t)) e,
        record {
          looping = ap (λ t. t.looping) ran ∙ w.looping;
          noted =
              ap (λ t. t.rest) ran
              ∙ ap (λ r. r ++ l.pending_functors) w.noted
              ∙ ap (λ q. done ++ q) h.queue;
          queue = ap (λ t. t.pending_functors) ran ∙ w.queue;
        },
      )

  pub round-Has :
      (v : Visit) (l : EventLoop ℕ (List ℕ)) (done waiting : List ℕ)
      → Has l true done waiting
      → (l1 l2 : EventLoop ℕ (List ℕ)) × ((round et v).before l ≡ ok l1)
        × (call_pending_functors_while k et note_down (round et v).during l1 ≡ ok l2)
        × Has l2 (is_on v.stop) (done ++ (waiting ++ v.functions)) v.late
  round-Has v l done waiting h =
      let (l1, e, w1) = before_swap-Has et v l done waiting h in
      let (l2, f, w2) = drain-Has v l1 done (waiting ++ v.functions) w1 in (l1, l2, e, f, w2)
