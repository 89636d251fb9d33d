-- ===== src/TcpConnection/Outbox.antt =====
-- What a connection owes its peer when several threads write to it, against a specification: an
-- outbox of the bytes that are owed in order, and of those that still wait in the loop's queue.
use libpotato.Base.{
  ℕ, ◌≤◌, ◌<◌, ◌≡◌, refl, sym, ap, ◌∙◌, Bool, true, false, Option, none, List, [], ◌∷◌, ◌++◌,
  append_assoc, length,
}
use libpotato.Socket.{Reply}
use libpotato.TcpConnection.{took}
use libpotato.TcpConnection.Calls.{Functor, bind_functor, close_functor, write_functor}

-- What happens to a connection: a thread writes to it, its loop's or another; the loop comes to its
-- queue; or the kernel has room for more bytes. The kernel's reply is the one to the write that the
-- event leads to.
pub data Happening : Type 0 where
  write_msg : Bool → (Option ℕ → List ℕ → Reply ℕ) → List ℕ → Happening
  come_to_queue : Happening
  room : (Option ℕ → List ℕ → Reply ℕ) → Happening

-- The kernel takes no more than it is given; a call that fails does so with EAGAIN, and so does one
-- that takes none of some bytes.
pub record IsSound (sys_write : Option ℕ → List ℕ → Reply ℕ) : Type 0 where
  pub at_most : (fd : Option ℕ) (bytes : List ℕ) → took (sys_write fd bytes) ≤ length bytes
  pub again :
      (fd : Option ℕ) (bytes : List ℕ)
      → (sys_write fd bytes).ret ≡ none
      → (sys_write fd bytes).again ≡ true
  pub again_later :
      (fd : Option ℕ) (bytes : List ℕ)
      → 0 < length bytes
      → took (sys_write fd bytes) ≡ 0
      → (sys_write fd bytes).again ≡ true

abbrev pub AllSound : List Happening → Type 0
AllSound [] = Unit
AllSound (write_msg here f msg ∷ hs) = IsSound f × AllSound hs
AllSound (come_to_queue ∷ hs) = AllSound hs
AllSound (room f ∷ hs) = IsSound f × AllSound hs

-- The bytes of all messages.
abbrev pub all_written : List Happening → List ℕ
all_written [] = []
all_written (write_msg here f msg ∷ hs) = msg ++ all_written hs
all_written (come_to_queue ∷ hs) = all_written hs
all_written (room f ∷ hs) = all_written hs

-- The specification. A message of the loop's thread is owed at once; one of another thread waits
-- until the loop comes to its queue.
pub record Outbox : Type 0 where
  pub owed : List ℕ
  pub queued : List ℕ

abbrev pub put : Bool → List ℕ → Outbox → Outbox
put true msg o = record o { owed = o.owed ++ msg }
put false msg o = record o { queued = o.queued ++ msg }

abbrev pub outbox : List Happening → Outbox → Outbox
outbox [] o = o
outbox (write_msg here f msg ∷ hs) o = outbox hs (put here msg o)
outbox (come_to_queue ∷ hs) o = outbox hs (record { owed = o.owed ++ o.queued; queued = [] })
outbox (room f ∷ hs) o = outbox hs o

-- The bytes that wait in a queue.
abbrev pub waiting : List Functor → List ℕ
waiting [] = []
waiting (bind_functor ∷ fs) = waiting fs
waiting (close_functor ∷ fs) = waiting fs
waiting (write_functor f msg ∷ fs) = msg ++ waiting fs

-- A queue of writes whose replies are sound.
abbrev pub OnlyWrites : List Functor → Type 0
OnlyWrites [] = Unit
OnlyWrites (bind_functor ∷ fs) = ⊥
OnlyWrites (close_functor ∷ fs) = ⊥
OnlyWrites (write_functor f msg ∷ fs) = IsSound f × OnlyWrites fs

pub waiting-append : (fs gs : List Functor) → waiting (fs ++ gs) ≡ waiting fs ++ waiting gs
waiting-append [] gs = refl
waiting-append (bind_functor ∷ fs) gs = waiting-append fs gs
waiting-append (close_functor ∷ fs) gs = waiting-append fs gs
waiting-append (write_functor f msg ∷ fs) gs =
    ap (λ t. msg ++ t) (waiting-append fs gs) ∙ sym (append_assoc msg (waiting fs) (waiting gs))

pub OnlyWrites-append :
    (fs : List Functor) (f : Option ℕ → List ℕ → Reply ℕ) (msg : List ℕ)
    → OnlyWrites fs
    → IsSound f
    → OnlyWrites (fs ++ (write_functor f msg ∷ []))
OnlyWrites-append [] f msg o s = (s, tt)
OnlyWrites-append (bind_functor ∷ fs) f msg o s = o
OnlyWrites-append (close_functor ∷ fs) f msg o s = o
OnlyWrites-append (write_functor g m ∷ fs) f msg (t, o) s = (t, OnlyWrites-append fs f msg o s)
