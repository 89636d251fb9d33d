-- ===== src/IoWatcher/Dispatch.antt =====
-- `IOWatcher::handleIOEvent`: one round of `epoll_wait` and the callbacks that it leads to.
use libpotato.Base.{
  ℕ, ◌*◌, ◌%◌, ◌^◌, ◌≤◌, ◌<◌, ◌≡◌, ◌≢◌, refl, ap, ◌∙◌, ◌⊎◌, inl, inr, Bool, true, false, ◌||◌,
  Option, none, some, List, [], ◌∷◌, Result, ok, ◌>>=◌, if◌then◌else◌, ◌==◌, length, Bool-cases,
  Option-cases, fun_ext, >>=-eq-ok, ◌↔◌, arith,
}
use libpotato.IoWatcher.{Events}

pub data Callback : Type 0 where
  read_callback write_callback close_callback : Callback

-- The branches on one event's bits.
unfoldable pub chosen : Events → Option Callback
chosen ev =
    if ev.epollhup || ev.epollrdhup
    then some close_callback
    else if ev.epollin || ev.epollpri
    then some read_callback
    else if ev.epollout
    then some write_callback
    else none

-- The events of the watcher's loop are numbered. `is_set` says whether an event has a callback, and
-- `run` runs it on the world `W`.
module _ {W : Type 0} (is_set : ℕ → Callback → Bool) (run : ℕ → Callback → W → Result W) where
  unfoldable pub call_back : ℕ → Option Callback → W → Result W
  call_back e none w = ok w
  call_back e (some c) w = if is_set e c then run e c w else ok w

  unfoldable pub handle_ready : List (ℕ × Events) → W → Result W
  handle_ready [] w = ok w
  handle_ready ((e, ev) ∷ ready) w = do w' ← call_back e (chosen ev) w; handle_ready ready w'

  -- `size` is `events_.size()`. The reply of `epoll_wait` is `none` for a negative result.
  unfoldable pub handle_io_event : ℕ → Option (List (ℕ × Events)) → W → Result (ℕ × W)
  handle_io_event size none w = ok (size, w)
  handle_io_event size (some ready) w = do
    w' ← handle_ready ready w
    ok (if length ready == size then length ready * 2 % 2 ^ 64 else size, w')

-- What one ready event asks for, if its callback is set: closing comes before reading, and reading
-- before writing.
pub data Asks (ev : Events) : Callback → Type 0 where
  close : ◌≡◌ {A = Bool} (ev.epollhup || ev.epollrdhup) true → Asks ev close_callback
  read :
      (ev.epollhup ≡ false)
      → (ev.epollrdhup ≡ false)
      → ◌≡◌ {A = Bool} (ev.epollin || ev.epollpri) true
      → Asks ev read_callback
  write :
      (ev.epollhup ≡ false)
      → (ev.epollrdhup ≡ false)
      → (ev.epollin ≡ false)
      → (ev.epollpri ≡ false)
      → ev.epollout ≡ true
      → Asks ev write_callback

pub chosen-Asks : (ev : Events) (c : Callback) → chosen ev ≡ some c → Asks ev c
unfolding chosen
chosen-Asks ev read_callback h = read (ground arith) (ground arith) (ground arith)
chosen-Asks ev write_callback h =
    write (ground arith) (ground arith) (ground arith) (ground arith) (ground arith)
chosen-Asks ev close_callback h = close (ground arith)

pub Asks-chosen : (ev : Events) (c : Callback) → Asks ev c → chosen ev ≡ some c
unfolding chosen
Asks-chosen ev read_callback (read a b c) = ground arith
Asks-chosen ev write_callback (write a b c d e) = ground arith
Asks-chosen ev close_callback (close a) = ground arith

-- A callback runs for a ready event exactly when the event asks for it, closing before reading and
-- reading before writing.
pub chosen-iff-Asks : (ev : Events) (c : Callback) → (chosen ev ≡ some c) ↔ Asks ev c
chosen-iff-Asks ev c = (chosen-Asks ev c, Asks-chosen ev c)

-- An event that is ready for reading and for writing at once does not get its write callback.
chosen-ne-write :
    (ev : Events) → ev.epollin ≡ true → ev.epollout ≡ true → chosen ev ≢ some write_callback
unfolding chosen
chosen-ne-write ev i o e = ground arith

module _ {W : Type 0} (is_set : ℕ → Callback → Bool) (run : ℕ → Callback → W → Result W) where
  -- The callbacks that a list of ready events asks for, in the kernel's order: at most one for each
  -- event, and none that is not set.
  pub data Asked : List (ℕ × Events) → List (ℕ × Callback) → Type 0 where
    none_left : Asked [] []
    asks :
        (e : ℕ) (ev : Events) (c : Callback) (ready : List (ℕ × Events)) (cs : List (ℕ × Callback))
        → Asks ev c
        → is_set e c ≡ true
        → Asked ready cs
        → Asked ((e, ev) ∷ ready) ((e, c) ∷ cs)
    asks_none :
        (e : ℕ) (ev : Events) (ready : List (ℕ × Events)) (cs : List (ℕ × Callback))
        → ((c : Callback) → Asks ev c → is_set e c ≡ false)
        → Asked ready cs
        → Asked ((e, ev) ∷ ready) cs

  -- The callbacks of a list run one after another, up to one that fails.
  abbrev pub run_all : List (ℕ × Callback) → W → Result W
  run_all [] w = ok w
  run_all ((e, c) ∷ cs) w = do w' ← run e c w; run_all cs w'

  -- A round runs exactly the callbacks that the ready events ask for and that are set, in order,
  -- each on the state that those before it left, and stops at the first that fails. An event asks
  -- for closing on a hang-up of either side; else for reading on data, urgent data included; else
  -- for writing where there is room.
  pub handle_ready-Asked :
      (ready : List (ℕ × Events))
      → (cs : List (ℕ × Callback)) × Asked ready cs
        × ((w : W) → handle_ready is_set run ready w ≡ run_all cs w)
  unfolding handle_ready call_back
  handle_ready-Asked [] = ([], none_left, λ w. refl)
  handle_ready-Asked ((e, ev) ∷ ready) =
      let (cs, asked, same) = handle_ready-Asked ready in
      elim (Option-cases (chosen ev)) [
        | inl n ↦ (
          cs,
          asks_none e ev ready cs (λ c a. absurd (cc (n, Asks-chosen ev c a))) asked,
          λ w. rw (n, call_back) (same w),
        )
        | inr (c, s) ↦ elim (Bool-cases (is_set e c)) [
          | inl set_up ↦ (
            (e, c) ∷ cs,
            asks e ev c ready cs (chosen-Asks ev c s) set_up asked,
            λ w. rw (s, call_back, set_up) (ap (◌>>=◌ (run e c w)) (fun_ext same)),
          )
          | inr unset ↦ (
            cs,
            asks_none e ev ready cs (λ c' a. only c c' (Asks-chosen ev c' a) s unset) asked,
            λ w. rw (s, call_back, unset) (same w),
          )
        ]
      ]
    where
      only :
          (c c' : Callback)
          → chosen ev ≡ some c'
          → chosen ev ≡ some c
          → is_set e c ≡ false
          → is_set e c' ≡ false
      only c c' a b unset = let same : c' ≡ c = cc (a, b) in ap (is_set e) same ∙ unset

-- A round that succeeds, with room for 1 to 2 ^ 31 - 1 events and no more ready events than room:
-- the next round has the same room or twice as much, and more than the events just seen.
pub size-handle_io_event :
    {W : Type 0} (is_set : ℕ → Callback → Bool) (run : ℕ → Callback → W → Result W) (size size' : ℕ)
    (ready : List (ℕ × Events)) (w w' : W)
    → 0 < size
    → size < 2 ^ 31
    → length ready ≤ size
    → handle_io_event is_set run size (some ready) w ≡ ok (size', w')
    → (length ready < size') × (size ≤ size') × ((size' ≡ size) ⊎ (size' ≡ 2 * size))
unfolding handle_io_event
size-handle_io_event is_set run size size' ready w w' h k l e =
    let (w'', e', f) = >>=-eq-ok (handle_ready is_set run ready w) _ e in ground arith
