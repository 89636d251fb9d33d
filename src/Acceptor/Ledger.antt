-- ===== src/Acceptor/Ledger.antt =====
-- Every descriptor that the process is given is handed on, closed, or kept, and once only.
use libpotato.Base.{
  as_list, ℕ, ◌+◌, ◌≡◌, refl, ap, Bool, true, inl, inr, Option, none, some, List, [], ◌∷◌, ◌++◌,
  Bool-cases, arith, count, count-append,
}
use libpotato.IoWatcher.{Epoll}
use libpotato.Socket.{Socket}
use libpotato.Acceptor.{
  World, Round, AcceptReply, Errno, emfile, eagain, other, is_eagain, errno_after,
  errno_after_close, use_reserve, handle_refusal,
}

pub descriptors : List Socket → List ℕ
descriptors [] = []
descriptors (s ∷ ss) = as_list s.socket ++ descriptors ss

pub count-descriptors :
    (fd : ℕ) (ss : List Socket) (s : Socket)
    → count fd (descriptors (ss ++ (s ∷ [])))
      ≡ count fd (descriptors ss) + count fd (as_list s.socket)
unfolding descriptors
count-descriptors fd [] s = omega (arith, count-append fd (as_list s.socket) [])
count-descriptors fd (x ∷ ss) s = omega (
  arith,
  count-append fd (as_list x.socket) (descriptors (ss ++ (s ∷ []))),
  count-append fd (as_list x.socket) (descriptors ss),
  count-descriptors fd ss s,
)

-- At the beginning nothing is handed on or closed.
pub count-begin :
    (i : ℕ) (xs ys : List ℕ)
    → count i (xs ++ ys) ≡ count i (descriptors []) + count i [] + count i xs + count i ys
unfolding descriptors
count-begin i xs ys = omega (arith, count-append i xs ys)

-- A second `accept` that gave a descriptor does not look like one that would block.
not_again :
    (idle : Option ℕ) (s : AcceptReply)
    → is_eagain (errno_after (errno_after_close idle) s) ≡ true
    → s.fd ≡ none
not_again idle s h = by_fd s.fd idle h
  where
    by_fd :
        (fd idle : Option ℕ)
        → is_eagain (elim fd [ none ↦ s.errno | some x ↦ errno_after_close idle ]) ≡ true
        → fd ≡ none
    by_fd none idle h = refl
    by_fd (some x) none h = absurd (cc h)
    by_fd (some x) (some y) h = absurd (cc h)

module _ (k : Epoll) (et : Bool) where
  -- What was given is what the callback got, what is closed, the listening socket and the reserve.
  abbrev pub IsBalanced : World k et → Type 0
  IsBalanced w =
      (fd : ℕ)
      → count fd w.gained
        ≡ count fd (descriptors w.handed)
          + count fd w.closed
          + count fd (as_list w.acceptor.listen_socket.socket)
          + count fd (as_list w.acceptor.idle_fd)

  use_reserve-IsBalanced :
      (r : Round) (w : World k et) → IsBalanced w → IsBalanced (use_reserve k et r w).1
  unfolding use_reserve
  use_reserve-IsBalanced r w q =
      elim (Bool-cases (is_eagain (errno_after (errno_after_close w.acceptor.idle_fd) r.second))) [
        | inl again ↦ rw again (λ fd.
            let nothing : count fd (as_list r.second.fd) ≡ 0 =
              ap (λ o. count fd (as_list o)) (not_again w.acceptor.idle_fd r.second again) in
            omega (
              arith,
              q fd,
              nothing,
              count-append fd (w.gained ++ as_list r.second.fd) (as_list r.dev_null),
              count-append fd w.gained (as_list r.second.fd),
              count-append fd w.closed (as_list w.acceptor.idle_fd),
            ))
        | inr failed ↦ rw failed (λ fd. omega (
          arith,
          q fd,
          count-append fd (w.gained ++ as_list r.second.fd) (as_list r.dev_null),
          count-append fd w.gained (as_list r.second.fd),
          count-append fd (w.closed ++ as_list w.acceptor.idle_fd) (as_list r.second.fd),
          count-append fd w.closed (as_list w.acceptor.idle_fd),
        ))
      ]

  pub handle_refusal-IsBalanced :
      (e : Errno) (r : Round) (w : World k et)
      → IsBalanced w
      → IsBalanced (handle_refusal k et e r w).1
  unfolding handle_refusal
  handle_refusal-IsBalanced emfile r w q = use_reserve-IsBalanced r w q
  handle_refusal-IsBalanced other r w q = q
  handle_refusal-IsBalanced eagain r w q = q
