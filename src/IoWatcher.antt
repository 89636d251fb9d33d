-- ===== src/IoWatcher.antt =====
-- potato/net/IOWatcher.h and IOWatcher.cpp: the epoll wrapper and its events, on Linux.
--
-- An `IOEvent` calls its watcher with itself, so the assertions that `event->watcher_ == this` hold
-- by construction and the pointer is left out. A descriptor is `none` where it is INVALID_SOCKET.
pub mod Registration
pub mod Dispatch
pub mod Kernel
mod Tests
use libpotato.Base.{
  ℕ, ◌≡◌, ◌≢◌, Bool, true, false, not, ◌&&◌, Option, none, some, Result, ok, err, assertion,
  aborted, guard, ◌>>=◌, ◌>>◌, if◌then◌else◌, ◌==◌,
}

-- The bits of `struct epoll_event::events` that the code uses.
pub record Events : Type 0 where
  pub epollin : Bool
  pub epollpri : Bool
  pub epollout : Bool
  pub epollhup : Bool
  pub epollrdhup : Bool
  pub epollet : Bool

abbrev pub no_events : Events
no_events = record {
  epollin = false;
  epollpri = false;
  epollout = false;
  epollhup = false;
  epollrdhup = false;
  epollet = false;
}

-- The test `events_ == 0`.
unfoldable pub is_zero : Events → Bool
is_zero e =
    not e.epollin
    && not e.epollpri
    && not e.epollout
    && not e.epollhup
    && not e.epollrdhup
    && not e.epollet

pub record IoEvent : Type 0 where
  pub socket : Option ℕ
  pub is_writing : Bool
  pub et_mode : Bool
  pub in_epoll : Bool
  pub events : Events

-- The constructor of `IOEvent`: the mode is the watcher's.
unfoldable pub new_event : Bool → Option ℕ → IoEvent
new_event et socket = record {
  socket = socket;
  is_writing = false;
  et_mode = et;
  in_epoll = false;
  events = no_events;
}

-- The kernel's side of `epoll_ctl`. `interest` is what is registered for a descriptor. A call that
-- fails returns `none`. The laws are the documented ones: while the kernel has room, ADD succeeds on
-- a descriptor that is not registered, MOD and DEL on one that is; each changes that entry only.
pub record Epoll : Type 1 where
  pub Holder : Type 0
  pub interest : Holder → ℕ → Option Events
  pub ctl_add : Holder → ℕ → Events → Option Holder
  pub ctl_mod : Holder → ℕ → Events → Option Holder
  pub ctl_del : Holder → ℕ → Option Holder
  pub ctl_add-interest :
      (h : Holder) (fd : ℕ) (ev : Events)
      → interest h fd ≡ none
      → (h' : Holder) × (ctl_add h fd ev ≡ some h')
        × ((j : ℕ) → interest h' j ≡ (if j == fd then some ev else interest h j))
  pub ctl_mod-interest :
      (h : Holder) (fd : ℕ) (ev : Events)
      → interest h fd ≢ none
      → (h' : Holder) × (ctl_mod h fd ev ≡ some h')
        × ((j : ℕ) → interest h' j ≡ (if j == fd then some ev else interest h j))
  pub ctl_del-interest :
      (h : Holder) (fd : ℕ)
      → interest h fd ≢ none
      → (h' : Holder) × (ctl_del h fd ≡ some h')
        × ((j : ℕ) → interest h' j ≡ (if j == fd then none else interest h j))

-- A failed system call ends in `abort()`.
abbrev pub or_abort {ℓ} : {A : Type ℓ} → Option A → Result A
or_abort none = err aborted
or_abort (some a) = ok a

-- A call on an invalid descriptor fails.
abbrev pub on_valid {ℓ} : {A : Type ℓ} → Option ℕ → (ℕ → Option A) → Option A
on_valid none f = none
on_valid (some fd) f = f fd

-- What `addNewIOEvent` and `modifyIOEvent` register: the event's bits, and EPOLLET in that mode.
unfoldable pub mask : Bool → IoEvent → Events
mask et e = if et then record (e.events) { epollet = true } else e.events

module _ (k : Epoll) (et : Bool) where
  open k use {Holder, ctl_add, ctl_mod, ctl_del}

  unfoldable pub add_new_io_event : IoEvent → Holder → Result (IoEvent × Holder)
  unfolding mask
  add_new_io_event e h = do
    guard (not e.in_epoll) assertion
    h' ← or_abort (on_valid e.socket (λ fd. ctl_add h fd (mask et e)))
    ok (record e { in_epoll = true }, h')

  unfoldable pub modify_io_event : IoEvent → Holder → Result (IoEvent × Holder)
  unfolding mask
  modify_io_event e h = do
    guard e.in_epoll assertion
    h' ← or_abort (on_valid e.socket (λ fd. ctl_mod h fd (mask et e)))
    ok (e, h')

  is_valid_descriptor : Option ℕ → Bool
  is_valid_descriptor none = false
  is_valid_descriptor (some fd) = true

  unfoldable pub delete_io_event : IoEvent → Holder → Result (IoEvent × Holder)
  unfolding is_valid_descriptor
  delete_io_event e h = do
    guard (is_valid_descriptor e.socket) assertion
    guard e.in_epoll assertion
    h' ← or_abort (on_valid e.socket (λ fd. ctl_del h fd))
    ok (record e { in_epoll = false }, h')

  unfoldable pub enable_io_reading : IoEvent → Holder → Result (IoEvent × Holder)
  unfolding is_zero add_new_io_event
  enable_io_reading e h = do
    guard (is_zero e.events) assertion
    guard (not e.in_epoll) assertion
    add_new_io_event (record e { events = record (e.events) { epollin = true; epollpri = true } }) h

  unfoldable pub enable_io_writing : IoEvent → Holder → Result (IoEvent × Holder)
  unfolding modify_io_event
  enable_io_writing e h = do
    guard (not e.is_writing) assertion
    guard e.in_epoll assertion
    guard e.events.epollin assertion
    modify_io_event (record e { events = record (e.events) { epollout = true } }) h

  unfoldable pub disable_io_writing : IoEvent → Holder → Result (IoEvent × Holder)
  unfolding modify_io_event
  disable_io_writing e h = do
    guard e.is_writing assertion
    guard e.in_epoll assertion
    guard e.events.epollin assertion
    modify_io_event (record e { events = record (e.events) { epollout = false } }) h

  unfoldable pub remove_io_event : IoEvent → Holder → Result (IoEvent × Holder)
  unfolding delete_io_event
  remove_io_event e h = do
    guard e.in_epoll assertion
    (e', h') ← delete_io_event e h
    ok (record e' { events = no_events }, h')

  -- The methods of `IOEvent`.
  unfoldable pub expect_reading : IoEvent → Holder → Result (IoEvent × Holder)
  unfolding enable_io_reading
  expect_reading e h = enable_io_reading e h

  unfoldable pub expect_writing : IoEvent → Holder → Result (IoEvent × Holder)
  unfolding enable_io_writing
  expect_writing e h =
      if e.is_writing
      then ok (e, h)
      else (do (e', h') ← enable_io_writing e h; ok (record e' { is_writing = true }, h'))

  unfoldable pub ignore_writing : IoEvent → Holder → Result (IoEvent × Holder)
  unfolding disable_io_writing
  ignore_writing e h =
      if e.is_writing
      then (do (e', h') ← disable_io_writing e h; ok (record e' { is_writing = false }, h'))
      else ok (e, h)

  unfoldable pub remove_this_event : IoEvent → Holder → Result (IoEvent × Holder)
  unfolding remove_io_event
  remove_this_event e h = remove_io_event e h
