-- ===== src/IoWatcher/Tests.antt =====
-- A kernel with nothing registered: the theorems on events at concrete inputs.
use libpotato.Base.{
  ℕ, ◌*◌, ◌<◌, ◌≤◌, ◌≡◌, refl, ◌⊎◌, Bool, true, false, Option, none, some, List, [], ◌∷◌, Result,
  ok, length, arith,
}
use libpotato.IoWatcher.{Events, no_events, IoEvent, new_event}
use libpotato.IoWatcher.Kernel.{kernel, nothing_registered}
use libpotato.IoWatcher.Registration.{Elsewhere, expect, ignore, life, life-safe}
use libpotato.IoWatcher.Dispatch.{
  Callback, read_callback, write_callback, close_callback, chosen, handle_ready, run_all,
  handle_ready-Asked, Asked, handle_io_event, size-handle_io_event, call_back,
}

life-safe_example :
    (e' : IoEvent) × (h' : ℕ → Option Events) × (life kernel true
        (expect ∷ expect ∷ ignore ∷ expect ∷ [])
        (new_event true (some 3))
        nothing_registered
      ≡ ok (e', h'))
    × (e'.in_epoll ≡ false)
    × (h' 3 ≡ none)
    × Elsewhere kernel true 3 nothing_registered h'
life-safe_example =
    life-safe kernel true (expect ∷ expect ∷ ignore ∷ expect ∷ []) (new_event true (some 3))
      nothing_registered 3 (record { shape = refl; absent = refl })

abbrev both_ways : Events
both_ways = record no_events { epollin = true; epollout = true }

abbrev hung_up : Events
hung_up = record no_events { epollin = true; epollrdhup = true }

-- Every callback is set but that for closing; a call is noted down.
abbrev is_set : ℕ → Callback → Bool
is_set e read_callback = true
is_set e write_callback = true
is_set e close_callback = false

abbrev note_down : ℕ → Callback → List (ℕ × Callback) → Result (List (ℕ × Callback))
note_down e c done = ok ((e, c) ∷ done)

abbrev ready : List (ℕ × Events)
ready = (1, both_ways) ∷ (2, hung_up) ∷ (3, record no_events { epollout = true }) ∷ []

handle_ready-Asked_example :
    (cs : List (ℕ × Callback)) × Asked is_set note_down ready cs
    × ((done : List (ℕ × Callback))
        → handle_ready is_set note_down ready done ≡ run_all is_set note_down cs done)
handle_ready-Asked_example = handle_ready-Asked is_set note_down ready

size-handle_io_event_example :
    (length ready < 6) × (3 ≤ 6) × (◌≡◌ {A = ℕ} 6 3 ⊎ ◌≡◌ {A = ℕ} 6 (2 * 3))
unfolding handle_io_event handle_ready chosen call_back
size-handle_io_event_example =
    size-handle_io_event is_set note_down 3 6 ready []
      ((3, write_callback) ∷ (1, read_callback) ∷ []) (omega arith) (omega arith) (omega arith) refl
