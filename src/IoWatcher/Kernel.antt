-- ===== src/IoWatcher/Kernel.antt =====
-- A kernel that meets the laws of `Epoll`: its interest list is a function of the descriptor.
use libpotato.Base.{
  ℕ, ◌≡◌, ◌≢◌, refl, Option, none, some, if◌then◌else◌, ◌==◌, inl, inr, Option-cases,
}
use libpotato.IoWatcher.{Events, Epoll}

abbrev Interest : Type 0
Interest = ℕ → Option Events

abbrev update : Interest → ℕ → Option Events → Interest
update h fd o j = if j == fd then o else h j

abbrev add_to : Interest → ℕ → Events → Option Events → Option Interest
add_to h fd ev none = some (update h fd (some ev))
add_to h fd ev (some old) = none

abbrev change : Interest → ℕ → Option Events → Option Events → Option Interest
change h fd o none = none
change h fd o (some old) = some (update h fd o)

pub add_to-update :
    (h : Interest) (fd : ℕ) (ev : Events)
    → h fd ≡ none
    → (h' : Interest) × (add_to h fd ev (h fd) ≡ some h')
      × ((j : ℕ) → h' j ≡ (if j == fd then some ev else h j))
add_to-update h fd ev e = (update h fd (some ev), rw (e, add_to), λ j. refl)

pub change-update :
    (h : Interest) (fd : ℕ) (o : Option Events)
    → h fd ≢ none
    → (h' : Interest) × (change h fd o (h fd) ≡ some h')
      × ((j : ℕ) → h' j ≡ (if j == fd then o else h j))
change-update h fd o n = elim (Option-cases (h fd)) [
  | inl e ↦ absurd (n e)
  | inr (old, e) ↦ (update h fd o, rw (e, change), λ j. refl)
]

abbrev pub kernel : Epoll
kernel = record {
  Holder = Interest;
  interest = λ h fd. h fd;
  ctl_add = λ h fd ev. add_to h fd ev (h fd);
  ctl_mod = λ h fd ev. change h fd (some ev) (h fd);
  ctl_del = λ h fd. change h fd none (h fd);
  ctl_add-interest = add_to-update;
  ctl_mod-interest = λ h fd ev. change-update h fd (some ev);
  ctl_del-interest = λ h fd. change-update h fd none;
}

abbrev pub nothing_registered : ℕ → Option Events
nothing_registered fd = none
