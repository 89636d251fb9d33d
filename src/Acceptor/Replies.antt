-- ===== src/Acceptor/Replies.antt =====
-- What the kernel's replies say of the rounds of `handleAccept`: the connections that they bring, and
-- the round that is the last.
use libpotato.Base.{
  ℕ, ◌≡◌, ◌⊎◌, refl, Bool, true, false, Option, none, some, List, [], ◌∷◌, ◌++◌, if◌then◌else◌,
}
use libpotato.IpAddress.{IpAddress}
use libpotato.Socket.{Socket}
use libpotato.Acceptor.{
  Round, AcceptReply, Errno, emfile, eagain, other, is_eagain, errno_after, errno_after_close,
}

-- The connection that a reply brings.
abbrev pub peer_socket : ℕ → IpAddress → Socket
peer_socket fd peer = record { socket = some fd; connected = true; address = peer }

abbrev pub brought : Option ℕ → IpAddress → List Socket
brought none peer = []
brought (some fd) peer = peer_socket fd peer ∷ []

abbrev pub sockets_of : AcceptReply → List Socket
sockets_of s = brought s.fd s.peer

abbrev pub none_waits : AcceptReply → Bool
none_waits s = elim s.fd [ none ↦ is_eagain s.errno | some fd ↦ false ]

-- A round is the last where no connection waits for the first `accept`, or where the process has no
-- descriptor left for it and none waits for the second.
abbrev pub stops_at : Errno → Round → Bool
stops_at eagain r = true
stops_at emfile r = none_waits r.second
stops_at other r = false

abbrev pub stops : Round → Bool
stops r = elim r.first.fd [ none ↦ stops_at r.first.errno r | some fd ↦ false ]

abbrev pub Stops : List Round → Type 0
Stops [] = ⊥
Stops (r ∷ rs) = (stops r ≡ true) ⊎ Stops rs

-- The connections that the first `accept` of each round gives, up to the last round.
abbrev pub arrivals : List Round → List Socket
arrivals [] = []
arrivals (r ∷ rs) = sockets_of r.first ++ (if stops r then [] else arrivals rs)

pub none_waits-again :
    (idle : Option ℕ) (s : AcceptReply)
    → is_eagain (errno_after (errno_after_close idle) s) ≡ none_waits s
none_waits-again idle s = by_fd s.fd idle
  where
    by_fd :
        (fd idle : Option ℕ)
        → is_eagain (elim fd [ none ↦ s.errno | some x ↦ errno_after_close idle ])
          ≡ (elim fd [ none ↦ is_eagain s.errno | some x ↦ false ])
    by_fd none idle = refl
    by_fd (some x) none = refl
    by_fd (some x) (some y) = refl

-- What a callback gets, if there is one.
abbrev pub delivered : Bool → List Socket → List Socket
delivered true ss = ss
delivered false ss = []

pub delivered-nil : (b : Bool) → delivered b [] ≡ []
delivered-nil true = refl
delivered-nil false = refl

pub delivered-append :
    (b : Bool) (xs ys : List Socket) → delivered b (xs ++ ys) ≡ delivered b xs ++ delivered b ys
delivered-append true xs ys = refl
delivered-append false xs ys = refl
