-- ===== src/SocketCommon/Guards.antt =====
-- No branch of `socketPair` loses a descriptor.
use libpotato.Base.{
  ℕ, ◌+◌, ◌≡◌, refl, Bool, true, false, not, ◌&&◌, Option, none, some, List, [], ◌∷◌, ◌++◌,
  if◌then◌else◌, as_list, count, count-append, arith,
}
use libpotato.SocketCommon.{
  Process, release, delete_guard, close, PairReplies, is_invalid, socket_pair, set_reuse_addr,
  set_sock_opt,
}

-- The descriptors of a result.
abbrev pub of_pair : Option (Option ℕ × Option ℕ) → List ℕ
of_pair none = []
of_pair (some (a, b)) = as_list a ++ as_list b

-- All calls succeed.
abbrev pub all_succeed : PairReplies → Bool
all_succeed r =
    not (is_invalid r.listen_sock)
    && not (is_invalid r.client_sock)
    && r.binds
    && r.listens
    && r.connects
    && not (is_invalid r.server_sock)

-- What `socketPair` gives if all calls succeed.
abbrev pub pair_of : PairReplies → Option (Option ℕ × Option ℕ)
pair_of r = if all_succeed r then some (r.client_sock, r.server_sock) else none

-- The descriptors that are gained are those of the result and those that are closed besides.
abbrev pub Settles : Process → Option (Option ℕ × Option ℕ) × Process → Type 0
Settles p q =
    (i : ℕ)
    → count i q.1.gained + count i p.closed
      ≡ count i p.gained + count i q.1.closed + count i (of_pair q.0)

abbrev replies : Option ℕ → Option ℕ → Bool → Bool → Bool → Option ℕ → PairReplies
replies l c b li co s = record {
  listen_sock = l;
  client_sock = c;
  binds = b;
  listens = li;
  connects = co;
  server_sock = s;
}

module _ (p : Process) where
  -- The two ledgers after a `return` that closes both sockets.
  Settles-both :
      (i l c : ℕ)
      → count i ((p.gained ++ (l ∷ [])) ++ (c ∷ [])) + count i p.closed
        ≡ count i p.gained + count i ((p.closed ++ (c ∷ [])) ++ (l ∷ [])) + 0
  Settles-both i l c = omega (
    arith,
    count-append i (p.gained ++ (l ∷ [])) (c ∷ []),
    count-append i p.gained (l ∷ []),
    count-append i (p.closed ++ (c ∷ [])) (l ∷ []),
    count-append i p.closed (c ∷ []),
  )

  Settles-replies :
      (l c : Option ℕ) (b li co : Bool) (s : Option ℕ)
      → Settles p (socket_pair (replies l c b li co s) p)
        × ((socket_pair (replies l c b li co s) p).0 ≡ pair_of (replies l c b li co s))
  unfolding socket_pair delete_guard close release set_reuse_addr set_sock_opt
  Settles-replies none none b li co s =
      (λ i. omega (arith, count-append i (p.gained ++ []) [], count-append i p.gained []), refl)
  Settles-replies none (some c) b li co s = (
    λ i. omega (
      arith,
      count-append i (p.gained ++ []) (c ∷ []),
      count-append i p.gained [],
      count-append i p.closed (c ∷ []),
    ),
    refl,
  )
  Settles-replies (some l) none b li co s = (
    λ i. omega (
      arith,
      count-append i (p.gained ++ (l ∷ [])) [],
      count-append i p.gained (l ∷ []),
      count-append i p.closed (l ∷ []),
    ),
    refl,
  )
  Settles-replies (some l) (some c) false li co s = (λ i. Settles-both i l c, refl)
  Settles-replies (some l) (some c) true false co s = (λ i. Settles-both i l c, refl)
  Settles-replies (some l) (some c) true true false s = (λ i. Settles-both i l c, refl)
  Settles-replies (some l) (some c) true true true none = (
    λ i. omega (arith, Settles-both i l c, count-append i ((p.gained ++ (l ∷ [])) ++ (c ∷ [])) []),
    refl,
  )
  Settles-replies (some l) (some c) true true true (some s) = (
    λ i. omega (
      arith,
      count-append i ((p.gained ++ (l ∷ [])) ++ (c ∷ [])) (s ∷ []),
      count-append i (p.gained ++ (l ∷ [])) (c ∷ []),
      count-append i p.gained (l ∷ []),
      count-append i p.closed (l ∷ []),
    ),
    refl,
  )

-- On Windows, whatever the kernel replies, `socketPair` gives the connected sockets if every call
-- succeeds and fails otherwise; and every descriptor that it gained is one of those it gives or is
-- closed when it returns, each as many times as it was gained.
pub socket_pair-Settles :
    (r : PairReplies) (p : Process)
    → Settles p (socket_pair r p) × ((socket_pair r p).0 ≡ pair_of r)
socket_pair-Settles r p =
    Settles-replies p r.listen_sock r.client_sock r.binds r.listens r.connects r.server_sock
