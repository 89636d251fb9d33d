-- ===== src/IoWatcher/Registration.antt =====
-- An `IOEvent` and its entry in the kernel's interest list stay in step.
use libpotato.Base.{
  ℕ, ◌≡◌, ◌≢◌, refl, ap, ◌∙◌, Bool, true, false, Option, none, some, Result, ok, err, assertion,
  List, [], ◌∷◌, ◌>>=◌, ◌==◌, if◌then◌else◌, ==_iff,
}
use libpotato.IoWatcher.{
  Events, no_events, IoEvent, Epoll, is_zero, mask, new_event, expect_reading, expect_writing,
  ignore_writing, remove_this_event,
}

-- An event that is registered for reading, and for writing if `writing`.
abbrev pub active : Bool → ℕ → Bool → IoEvent
active et fd writing = record {
  socket = some fd;
  is_writing = writing;
  et_mode = et;
  in_epoll = true;
  events = record no_events { epollin = true; epollpri = true; epollout = writing };
}

-- What the kernel is told of it.
abbrev pub registered : Bool → Bool → Events
registered et writing = record no_events {
  epollin = true;
  epollpri = true;
  epollout = writing;
  epollet = et;
}

mask-active :
    (et : Bool) (fd : ℕ) (writing : Bool) → mask et (active et fd writing) ≡ registered et writing
unfolding mask
mask-active true fd writing = refl
mask-active false fd writing = refl

module _ (k : Epoll) (et : Bool) where
  open k use {Holder, interest}

  -- Before `expectReading`: a new event, and a descriptor that is not registered.
  pub record IsIdle (e : IoEvent) (h : Holder) (fd : ℕ) : Type 0 where
    pub shape : e ≡ new_event et (some fd)
    pub absent : interest h fd ≡ none

  -- After it. The kernel has exactly the event's bits, for writing if and only if the event says so.
  pub record IsActive (writing : Bool) (e : IoEvent) (h : Holder) (fd : ℕ) : Type 0 where
    pub shape : e ≡ active et fd writing
    pub known : interest h fd ≡ some (registered et writing)

  -- What a call leaves alone: every other descriptor.
  abbrev pub Elsewhere : ℕ → Holder → Holder → Type 0
  Elsewhere fd h h' = (j : ℕ) → (j == fd) ≡ false → interest h' j ≡ interest h j

  entry :
      (h h' : Holder) (fd : ℕ) (o : Option Events)
      → ((j : ℕ) → interest h' j ≡ (if j == fd then o else interest h j))
      → (interest h' fd ≡ o) × Elsewhere fd h h'
  entry h h' fd o u = (u fd ∙ here, λ j n. u j ∙ ap (λ t. if t then o else interest h j) n)
    where
      here : (if fd == fd then o else interest h fd) ≡ o
      here = ap (λ t. if t then o else interest h fd) ((==_iff fd fd).1 refl)

  registered_is_there :
      (w : Bool) (h : Holder) (fd : ℕ)
      → interest h fd ≡ some (registered et w)
      → interest h fd ≢ none
  registered_is_there w h fd known gone = cc

  -- A call that changes the bits of an active event to those for `writing`.
  modified :
      (w writing : Bool) (h : Holder) (fd : ℕ)
      → interest h fd ≡ some (registered et w)
      → (h' : Holder) × (k.ctl_mod h fd (mask et (active et fd writing)) ≡ some h')
        × (interest h' fd ≡ some (registered et writing))
        × Elsewhere fd h h'
  modified w writing h fd known =
      let (h', s, u) =
        k.ctl_mod-interest h fd (mask et (active et fd writing))
          (registered_is_there w h fd known) in
      let (there, others) = entry h h' fd (some (mask et (active et fd writing))) u in
      (h', s, there ∙ ap some (mask-active et fd writing), others)

  module _ (e : IoEvent) (h : Holder) (fd : ℕ) where
    -- `expectReading` on a new event succeeds, and registers it for reading.
    pub expect_reading-IsActive :
        IsIdle e h fd
        → (e' : IoEvent) × (h' : Holder) × (expect_reading k et e h ≡ ok (e', h'))
          × IsActive false e' h' fd
          × Elsewhere fd h h'
    unfolding expect_reading new_event is_zero
    expect_reading-IsActive i =
        let (h', s, u) = k.ctl_add-interest h fd (mask et (active et fd false)) i.absent in
        let (there, others) = entry h h' fd (some (mask et (active et fd false))) u in
        (
          active et fd false,
          h',
          rw (i.shape, s),
          record { shape = refl; known = there ∙ ap some (mask-active et fd false) },
          others,
        )

    -- `expectWriting` on an active event succeeds, whether it was writing or not.
    pub expect_writing-IsActive :
        (w : Bool)
        → IsActive w e h fd
        → (e' : IoEvent) × (h' : Holder) × (expect_writing k et e h ≡ ok (e', h'))
          × IsActive true e' h' fd
          × Elsewhere fd h h'
    unfolding expect_writing
    expect_writing-IsActive true a = (e, h, rw a.shape, a, λ j n. refl)
    expect_writing-IsActive false a =
        let (h', s, there, others) = modified false true h fd a.known in
        (active et fd true, h', rw (a.shape, s), record { shape = refl; known = there }, others)

    -- So does `ignoreWriting`.
    pub ignore_writing-IsActive :
        (w : Bool)
        → IsActive w e h fd
        → (e' : IoEvent) × (h' : Holder) × (ignore_writing k et e h ≡ ok (e', h'))
          × IsActive false e' h' fd
          × Elsewhere fd h h'
    unfolding ignore_writing
    ignore_writing-IsActive false a = (e, h, rw a.shape, a, λ j n. refl)
    ignore_writing-IsActive true a =
        let (h', s, there, others) = modified true false h fd a.known in
        (active et fd false, h', rw (a.shape, s), record { shape = refl; known = there }, others)

    -- `removeThisEvent` on an active event succeeds, and the kernel forgets the descriptor.
    pub remove_this_event-gone :
        (w : Bool)
        → IsActive w e h fd
        → (e' : IoEvent) × (h' : Holder) × (remove_this_event k et e h ≡ ok (e', h'))
          × (e'.in_epoll ≡ false)
          × (e'.events ≡ no_events)
          × (interest h' fd ≡ none)
          × Elsewhere fd h h'
    unfolding remove_this_event
    remove_this_event-gone w a =
        let (h', s, u) = k.ctl_del-interest h fd (registered_is_there w h fd a.known) in
        let (there, others) = entry h h' fd none u in
        (
          record (active et fd w) { in_epoll = false; events = no_events },
          h',
          rw (a.shape, s),
          refl,
          refl,
          there,
          others,
        )

    -- On an event that is not registered its assertion fails.
    pub remove_this_event-assertion : IsIdle e h fd → remove_this_event k et e h ≡ err assertion
    unfolding remove_this_event new_event
    remove_this_event-assertion i = rw i.shape

-- The calls on an event in its life between `expectReading` and `removeThisEvent`.
pub data Toggle : Type 0 where
  expect ignore : Toggle

module _ (k : Epoll) (et : Bool) where
  open k use {Holder, interest}

  pub toggle : Toggle → IoEvent → Holder → Result (IoEvent × Holder)
  toggle expect e h = expect_writing k et e h
  toggle ignore e h = ignore_writing k et e h

  pub toggles : List Toggle → IoEvent → Holder → Result (IoEvent × Holder)
  toggles [] e h = ok (e, h)
  toggles (t ∷ ts) e h = do (e', h') ← toggle t e h; toggles ts e' h'

  -- A whole life of an event.
  pub life : List Toggle → IoEvent → Holder → Result (IoEvent × Holder)
  life ts e h = do
    (e1, h1) ← expect_reading k et e h
    (e2, h2) ← toggles ts e1 h1
    remove_this_event k et e2 h2

  toggles-IsActive :
      (ts : List Toggle) (w : Bool) (e : IoEvent) (h : Holder) (fd : ℕ)
      → IsActive k et w e h fd
      → (w' : Bool) × (e' : IoEvent) × (h' : Holder) × (toggles ts e h ≡ ok (e', h'))
        × IsActive k et w' e' h' fd
        × Elsewhere k et fd h h'
  unfolding toggles toggle
  toggles-IsActive [] w e h fd a = (w, e, h, refl, a, λ j n. refl)
  toggles-IsActive (expect ∷ ts) w e h fd a =
      let (e1, h1, s, a1, o1) = expect_writing-IsActive k et e h fd w a in
      let (w', e2, h2, t, a2, o2) = toggles-IsActive ts true e1 h1 fd a1 in
      (w', e2, h2, rw (s, t), a2, λ j n. o2 j n ∙ o1 j n)
  toggles-IsActive (ignore ∷ ts) w e h fd a =
      let (e1, h1, s, a1, o1) = ignore_writing-IsActive k et e h fd w a in
      let (w', e2, h2, t, a2, o2) = toggles-IsActive ts false e1 h1 fd a1 in
      (w', e2, h2, rw (s, t), a2, λ j n. o2 j n ∙ o1 j n)

  -- From `expectReading` on a new event, whose descriptor is not registered, through any calls of
  -- `expectWriting` and `ignoreWriting` to `removeThisEvent`, no assertion fails and nothing
  -- aborts; at the end the event and its descriptor are no more registered, and what the kernel has
  -- of every other descriptor is as it was.
  pub life-safe :
      (ts : List Toggle) (e : IoEvent) (h : Holder) (fd : ℕ)
      → IsIdle k et e h fd
      → (e' : IoEvent) × (h' : Holder) × (life ts e h ≡ ok (e', h'))
        × (e'.in_epoll ≡ false)
        × (interest h' fd ≡ none)
        × Elsewhere k et fd h h'
  unfolding life
  life-safe ts e h fd i =
      let (e1, h1, s1, a1, o1) = expect_reading-IsActive k et e h fd i in
      let (w, e2, h2, s2, a2, o2) = toggles-IsActive ts false e1 h1 fd a1 in
      let (e3, h3, s3, out, zero_bits, gone, o3) = remove_this_event-gone k et e2 h2 fd w a2 in
      (e3, h3, rw (s1, s2, s3), out, gone, λ j n. o3 j n ∙ o2 j n ∙ o1 j n)
