-- ===== src/Acceptor/Rounds.antt =====
-- `handleAccept` until its end: what each round does, and what the callback gets.
use mathlib.Core.List.{append-nil}
use libpotato.Base.{
  count-append, ℕ, ◌≡◌, refl, sym, ap, ◌∙◌, Bool, true, false, not, inl, inr, none, some, List, [],
  ◌∷◌, ◌++◌, ok, ◌>>=◌, Bool-cases, Option-cases, arith,
}
use libpotato.IoWatcher.{Epoll}
use libpotato.IpAddress.{IpAddress}
use libpotato.Socket.{
  Socket, OptionCall, non_block, set_non_block, close, valid, accept, adopt, unconnected,
}
use libpotato.Acceptor.{
  World, Round, AcceptReply, Errno, emfile, eagain, other, is_eagain, errno_after,
  errno_after_close, use_reserve, handle_refusal, hand_over, handle_socket, handle_reply,
  handle_round,
}
use libpotato.Acceptor.Ledger.{IsBalanced, count-descriptors, handle_refusal-IsBalanced}
use libpotato.Acceptor.Replies.{
  peer_socket, brought, sockets_of, none_waits, stops_at, stops, none_waits-again, delivered,
  delivered-nil,
}

module _ (k : Epoll) (et : Bool) where
  -- What a round leaves alone.
  pub record Keeps (w w' : World k et) : Type 0 where
    pub socket_same : w'.acceptor.listen_socket ≡ w.acceptor.listen_socket
    pub event_same : w'.acceptor.io_event ≡ w.acceptor.io_event
    pub holder_same : w'.holder ≡ w.holder
    pub callback_same : w'.acceptor.callback_set ≡ w.acceptor.callback_set

  pub record Handled (r : Round) (w : World k et) (more : Bool) (w' : World k et) : Type 0 where
    pub goes : more ≡ not (stops r)
    pub keeps : Keeps w w'
    pub handed_on : w'.handed ≡ w.handed ++ delivered w.acceptor.callback_set (sockets_of r.first)
    pub balanced : IsBalanced k et w → IsBalanced k et w'

  same : (w : World k et) → Keeps w w
  same w = record {
    socket_same = refl;
    event_same = refl;
    holder_same = refl;
    callback_same = refl;
  }

  -- The branch for EMFILE.
  use_reserve-Keeps :
      (r : Round) (w : World k et)
      → Keeps w (use_reserve k et r w).1 × ((use_reserve k et r w).1.handed ≡ w.handed)
  unfolding use_reserve
  use_reserve-Keeps r w =
      elim (Bool-cases (is_eagain (errno_after (errno_after_close w.acceptor.idle_fd) r.second))) [
        | inl again ↦ rw again (
          record {
            socket_same = refl;
            event_same = refl;
            holder_same = refl;
            callback_same = refl;
          },
          refl,
        )
        | inr failed ↦ rw failed (
          record {
            socket_same = refl;
            event_same = refl;
            holder_same = refl;
            callback_same = refl;
          },
          refl,
        )
      ]

  use_reserve-goes :
      (r : Round) (w : World k et) → (use_reserve k et r w).0 ≡ not (none_waits r.second)
  unfolding use_reserve
  use_reserve-goes r w =
      elim (Bool-cases (is_eagain (errno_after (errno_after_close w.acceptor.idle_fd) r.second))) [
        | inl again ↦ rw again (ap not (sym again ∙ none_waits-again w.acceptor.idle_fd r.second))
        | inr failed ↦
            rw failed (ap not (sym failed ∙ none_waits-again w.acceptor.idle_fd r.second))
      ]

  handle_refusal-goes :
      (e : Errno) (r : Round) (w : World k et) → (handle_refusal k et e r w).0 ≡ not (stops_at e r)
  unfolding handle_refusal
  handle_refusal-goes emfile r w = use_reserve-goes r w
  handle_refusal-goes other r w = refl
  handle_refusal-goes eagain r w = refl

  handle_refusal-Keeps :
      (e : Errno) (r : Round) (w : World k et)
      → Keeps w (handle_refusal k et e r w).1 × ((handle_refusal k et e r w).1.handed ≡ w.handed)
  unfolding handle_refusal
  handle_refusal-Keeps emfile r w = use_reserve-Keeps r w
  handle_refusal-Keeps other r w = (same w, refl)
  handle_refusal-Keeps eagain r w = (same w, refl)

  -- The calls of `accept` on a listening socket.
  accept-none :
      (s : Socket) (reply : AcceptReply) (l : ℕ)
      → s.socket ≡ some l
      → s.connected ≡ false
      → reply.fd ≡ none
      → accept (λ fd. (reply.fd, reply.peer)) s ≡ ok none
  unfolding accept valid unconnected
  accept-none s reply l here off e = rw (here, off, e)

  accept-some :
      (s : Socket) (reply : AcceptReply) (l fd : ℕ)
      → s.socket ≡ some l
      → s.connected ≡ false
      → reply.fd ≡ some fd
      → accept (λ fd. (reply.fd, reply.peer)) s ≡ ok (some (peer_socket fd reply.peer))
  unfolding accept adopt valid unconnected
  accept-some s reply l fd here off e = rw (here, off, e)

  refused-Handled :
      (r : Round) (w : World k et)
      → r.first.fd ≡ none
      → Handled r w
          (handle_refusal k et r.first.errno r w).0
          (handle_refusal k et r.first.errno r w).1
  refused-Handled r w e =
      let (keeps, handed) = handle_refusal-Keeps r.first.errno r w in
      record {
        goes =
            handle_refusal-goes r.first.errno r w
            ∙ ap (λ o. not (elim o [ none ↦ stops_at r.first.errno r | some fd ↦ false ])) (sym e);
        keeps = keeps;
        handed_on =
            handed
            ∙ sym (append-nil w.handed)
            ∙ ap (λ ss. w.handed ++ ss)
                (sym (
                  ap (λ o. delivered w.acceptor.callback_set (brought o r.first.peer)) e
                  ∙ delivered-nil w.acceptor.callback_set));
        balanced = handle_refusal-IsBalanced k et r.first.errno r w;
      }

  hand_over-Keeps : (b : Bool) (s : Socket) (w : World k et) → Keeps w (hand_over k et b s w)
  unfolding hand_over
  hand_over-Keeps true s w = record {
    socket_same = refl;
    event_same = refl;
    holder_same = refl;
    callback_same = refl;
  }
  hand_over-Keeps false s w = record {
    socket_same = refl;
    event_same = refl;
    holder_same = refl;
    callback_same = refl;
  }

  hand_over-handed :
      (b : Bool) (s : Socket) (w : World k et)
      → (hand_over k et b s w).handed ≡ w.handed ++ delivered b (s ∷ [])
  unfolding hand_over
  hand_over-handed true s w = refl
  hand_over-handed false s w = sym (append-nil w.handed)

  hand_over-IsBalanced :
      (b : Bool) (fd : ℕ) (peer : IpAddress) (options : List OptionCall) (w : World k et)
      → IsBalanced k et w
      → IsBalanced k et (
          hand_over k et b
            (peer_socket fd peer)
            (record w { options = options; gained = w.gained ++ (fd ∷ []) }))
  unfolding hand_over close
  hand_over-IsBalanced true fd peer options w q i = omega (
    arith,
    q i,
    count-append i w.gained (fd ∷ []),
    count-descriptors i w.handed (peer_socket fd peer),
  )
  hand_over-IsBalanced false fd peer options w q i =
      omega (arith, q i, count-append i w.gained (fd ∷ []), count-append i w.closed (fd ∷ []))

  handle_socket-taken :
      (fd : ℕ) (peer : IpAddress) (w : World k et)
      → handle_socket k et (peer_socket fd peer) w
        ≡ ok (
            hand_over k et w.acceptor.callback_set (peer_socket fd peer) (record w {
              options = w.options ++ (record { fd = some fd; option = non_block; on = true } ∷ []);
              gained = w.gained ++ (fd ∷ []);
            }))
  unfolding handle_socket set_non_block valid
  handle_socket-taken fd peer w = refl

  taken-Handled :
      (r : Round) (w : World k et) (fd : ℕ)
      → r.first.fd ≡ some fd
      → (w' : World k et) × (handle_socket k et (peer_socket fd r.first.peer) w ≡ ok w')
        × Handled r w true w'
  taken-Handled r w fd e =
      let s = peer_socket fd r.first.peer in
      let b = w.acceptor.callback_set in
      let options = w.options ++ (record { fd = some fd; option = non_block; on = true } ∷ []) in
      let taken : World k et = record w { options = options; gained = w.gained ++ (fd ∷ []) } in
      let kept = hand_over-Keeps b s taken in
      (
        hand_over k et b s taken,
        handle_socket-taken fd r.first.peer w,
        record {
          goes =
              ap (λ o. not (elim o [ none ↦ stops_at r.first.errno r | some fd ↦ false ])) (sym e);
          keeps = record {
            socket_same = kept.socket_same;
            event_same = kept.event_same;
            holder_same = kept.holder_same;
            callback_same = kept.callback_same;
          };
          handed_on =
              hand_over-handed b s taken
              ∙ ap (λ o. w.handed ++ delivered b (brought o r.first.peer)) (sym e);
          balanced = hand_over-IsBalanced b fd r.first.peer options w;
        },
      )

  pub handle_round-Handled :
      (r : Round) (w : World k et) (l : ℕ)
      → w.acceptor.listen_socket.socket ≡ some l
      → w.acceptor.listen_socket.connected ≡ false
      → (more : Bool) × (w' : World k et) × (handle_round k et r w ≡ ok (more, w'))
        × Handled r w more w'
  unfolding handle_round handle_reply
  handle_round-Handled r w l here off = elim (Option-cases r.first.fd) [
    | inl e ↦ (
      (handle_refusal k et r.first.errno r w).0,
      (handle_refusal k et r.first.errno r w).1,
      ap (λ m. m >>= λ ptr. handle_reply k et ptr r w)
          (accept-none w.acceptor.listen_socket r.first l here off e),
      refused-Handled r w e,
    )
    | inr (fd, e) ↦
        let (w', h, d) = taken-Handled r w fd e in
        (
          true,
          w',
          ap (λ m. m >>= λ ptr. handle_reply k et ptr r w)
                (accept-some w.acceptor.listen_socket r.first l fd here off e)
              ∙ ap (λ m. m >>= λ t. ok (true, t)) h,
          d,
        )
  ]
