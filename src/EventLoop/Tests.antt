-- ===== src/EventLoop/Tests.antt =====
-- A loop with one function waiting.
use libpotato.Base.{ok, refl, inl, inr, none, false, ℕ, ◌≡◌, true, List, [], ◌∷◌}
use libpotato.IoWatcher.Kernel.{kernel, nothing_registered}
use libpotato.EventLoop.{EventLoop}
use libpotato.EventLoop.Running.{Running}
use libpotato.EventLoop.Rounds.{Visit, goes_on, stops_late}
use libpotato.EventLoop.Life.{life, life-until_swap}
use libpotato.EventLoop.Order.{hand_in, drain, happen, at_second-happen}

abbrev waiting : EventLoop ℕ (List ℕ)
waiting = record {
  looping = true;
  pending_functors = 7 ∷ [];
  at_first = [];
  at_second = [];
  rest = [];
}

at_second-happen_example : (happen (hand_in 8 ∷ drain ∷ []) waiting).at_second ≡ []
at_second-happen_example = at_second-happen (hand_in 8 ∷ drain ∷ []) waiting

-- Two rounds. In the first one a function is handed in while the others run; in the second one a
-- thread hands one in, another comes after the queue is taken, and then the loop is stopped.
abbrev visits : List Visit
visits =
    record { functions = 7 ∷ []; late = 8 ∷ []; stop = goes_on }
    ∷ record { functions = 9 ∷ []; late = 10 ∷ []; stop = stops_late }
    ∷ []

life-until_swap_example :
    (r : Running kernel ℕ (List ℕ)) × (life kernel true 5 nothing_registered visits ≡ ok r)
    × (r.loop.rest ≡ 7 ∷ 8 ∷ 9 ∷ [])
    × (r.loop.pending_functors ≡ 10 ∷ [])
    × (r.loop.looping ≡ false)
    × (kernel.interest r.holder 5 ≡ none)
life-until_swap_example =
    life-until_swap kernel true 5 nothing_registered visits refl (inr (inl refl))
