-- ===== src/EventLoop/Order.antt =====
-- The functions run once each, in the order in which they were handed in.
use libpotato.Base.{
  ℕ, ◌≡◌, refl, sym, ap, ◌∙◌, false, List, [], ◌∷◌, ◌++◌, append_assoc, append-nil,
}
use libpotato.EventLoop.{EventLoop, run_in_loop, call_each, call_pending_functors, wakeup}

-- What happens to a loop: another thread hands in a function, or the loop comes to its queue.
pub data Happening : Type 0 where
  hand_in : ℕ → Happening
  drain : Happening

-- The functions that are handed in, in order.
abbrev pub handed_in : List Happening → List ℕ
handed_in [] = []
handed_in (hand_in f ∷ hs) = f ∷ handed_in hs
handed_in (drain ∷ hs) = handed_in hs

-- Each function notes its number down at the end of a list.
abbrev pub note_down : ℕ → EventLoop ℕ (List ℕ) → EventLoop ℕ (List ℕ)
note_down f l = record l { rest = l.rest ++ (f ∷ []) }

pub happen : List Happening → EventLoop ℕ (List ℕ) → EventLoop ℕ (List ℕ)
happen [] l = l
happen (hand_in f ∷ hs) l = happen hs (run_in_loop note_down false f l)
happen (drain ∷ hs) l = happen hs (call_pending_functors note_down l)

pub call_each-notes :
    (fs : List ℕ) (l : EventLoop ℕ (List ℕ))
    → call_each note_down fs l ≡ record l { rest = l.rest ++ fs }
unfolding call_each
call_each-notes [] l = ap (λ t. record l { rest = t }) (sym (append-nil l.rest))
call_each-notes (f ∷ fs) l =
    call_each-notes fs (note_down f l)
    ∙ ap (λ t. record l { rest = t }) (append_assoc l.rest (f ∷ []) fs)

-- All that has run and all that waits, in order.
abbrev pub in_all : EventLoop ℕ (List ℕ) → List ℕ
in_all l = l.rest ++ l.pending_functors

in_all-drain : (l : EventLoop ℕ (List ℕ)) → in_all (call_pending_functors note_down l) ≡ in_all l
unfolding call_pending_functors
in_all-drain l =
    ap in_all (call_each-notes l.pending_functors (record l { pending_functors = [] }))
    ∙ append-nil (l.rest ++ l.pending_functors)

-- For functions that only note down that they ran, whenever the loop comes to its queue: the
-- functions that other threads hand in run in the order in which they were handed in, and none is
-- lost or run twice. Those that ran, followed by those that still wait, are those before followed
-- by those handed in.
pub in_all-happen :
    (hs : List Happening) (l : EventLoop ℕ (List ℕ))
    → in_all (happen hs l) ≡ in_all l ++ handed_in hs
unfolding happen run_in_loop wakeup
in_all-happen [] l = sym (append-nil (in_all l))
in_all-happen (hand_in f ∷ hs) l =
    in_all-happen hs (run_in_loop note_down false f l)
    ∙ ap (λ t. t ++ handed_in hs) (sym (append_assoc l.rest l.pending_functors (f ∷ [])))
    ∙ append_assoc (in_all l) (f ∷ []) (handed_in hs)
in_all-happen (drain ∷ hs) l =
    in_all-happen hs (call_pending_functors note_down l)
    ∙ ap (λ t. t ++ handed_in hs) (in_all-drain l)

at_second-call_each :
    (fs : List ℕ) (l : EventLoop ℕ (List ℕ)) → (call_each note_down fs l).at_second ≡ l.at_second
at_second-call_each fs l = ap (λ t. t.at_second) (call_each-notes fs l)

-- For functions that only note down that they ran, whatever other threads hand in and whenever the
-- loop comes to its queue, nothing becomes readable at the end of the wakeup sockets that the loop
-- waits on.
pub at_second-happen :
    (hs : List Happening) (l : EventLoop ℕ (List ℕ)) → (happen hs l).at_second ≡ l.at_second
unfolding happen run_in_loop wakeup call_pending_functors
at_second-happen [] l = refl
at_second-happen (hand_in f ∷ hs) l = at_second-happen hs (run_in_loop note_down false f l)
at_second-happen (drain ∷ hs) l =
    at_second-happen hs (call_pending_functors note_down l)
    ∙ at_second-call_each l.pending_functors (record l { pending_functors = [] })
