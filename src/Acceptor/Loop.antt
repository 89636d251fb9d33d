-- ===== src/Acceptor/Loop.antt =====
-- `handleAccept` as a whole.
use libpotato.Base.{
  ℕ, ◌≡◌, refl, sym, ap, ◌∙◌, Bool, true, false, not, inl, inr, some, List, [], ◌∷◌, ◌++◌,
  append_assoc, append-nil, ok, err, endless, if◌then◌else◌, Bool-cases,
}
use libpotato.IoWatcher.{Epoll}
use libpotato.IoWatcher.Registration.{IsActive}
use libpotato.Socket.{Socket}
use libpotato.Acceptor.{World, Round, handle_round, handle_accept}
use libpotato.Acceptor.Ledger.{IsBalanced}
use libpotato.Acceptor.Replies.{stops, Stops, arrivals, sockets_of, delivered, delivered-append}
use libpotato.Acceptor.Rounds.{Handled, handle_round-Handled}

module _ (k : Epoll) (et : Bool) where
  -- The socket listens on `fd`, the kernel watches it for reading, and no descriptor is lost.
  pub record IsListening (w : World k et) (fd : ℕ) : Type 0 where
    pub here : w.acceptor.listen_socket.socket ≡ some fd
    pub off : w.acceptor.listen_socket.connected ≡ false
    pub watched : IsActive k et false w.acceptor.io_event w.holder fd
    pub balanced : IsBalanced k et w

  pub Handled-IsListening :
      (r : Round) (w : World k et) (more : Bool) (w' : World k et) (fd : ℕ)
      → Handled k et r w more w'
      → IsListening w fd
      → IsListening w' fd
  Handled-IsListening r w more w' fd d i = record {
    here = ap (λ s. s.socket) d.keeps.socket_same ∙ i.here;
    off = ap (λ s. s.connected) d.keeps.socket_same ∙ i.off;
    watched = record {
      shape = d.keeps.event_same ∙ i.watched.shape;
      known = ap (λ h. k.interest h fd) d.keeps.holder_same ∙ i.watched.known;
    };
    balanced = d.balanced i.balanced;
  }

  -- One round, and what comes after it.
  handle_accept-stop :
      (r : Round) (rs : List Round) (w w' : World k et) (more : Bool)
      → handle_round k et r w ≡ ok (more, w')
      → more ≡ false
      → handle_accept k et (r ∷ rs) w ≡ ok w'
  unfolding handle_accept
  handle_accept-stop r rs w w' more e last = rw (e, last)

  handle_accept-on :
      (r : Round) (rs : List Round) (w w' : World k et) (more : Bool)
      → handle_round k et r w ≡ ok (more, w')
      → more ≡ true
      → handle_accept k et (r ∷ rs) w ≡ handle_accept k et rs w'
  unfolding handle_accept
  handle_accept-on r rs w w' more e on = rw (e, on)

  pub arrivals-stop :
      (r : Round) (rs : List Round) → stops r ≡ true → arrivals (r ∷ rs) ≡ sockets_of r.first
  arrivals-stop r rs e =
      ap (λ b. sockets_of r.first ++ (if b then [] else arrivals rs)) e ∙ append-nil _

  pub arrivals-on :
      (r : Round) (rs : List Round)
      → stops r ≡ false
      → arrivals (r ∷ rs) ≡ sockets_of r.first ++ arrivals rs
  arrivals-on r rs e = ap (λ b. sockets_of r.first ++ (if b then [] else arrivals rs)) e

  -- The connections of the first round and of those after it.
  handed-both :
      (b : Bool) (before xs ys : List Socket) (mid last : List Socket)
      → mid ≡ before ++ delivered b xs
      → last ≡ mid ++ delivered b ys
      → last ≡ before ++ delivered b (xs ++ ys)
  handed-both b before xs ys mid last e f =
      f
      ∙ ap (λ t. t ++ delivered b ys) e
      ∙ append_assoc before (delivered b xs) (delivered b ys)
      ∙ ap (λ t. before ++ t) (sym (delivered-append b xs ys))

  -- On a listening socket, for replies of the kernel among which a round stops (no connection waits):
  -- the loop ends without a fault. The callback, if there is one, got the connections that the first
  -- `accept` of each round up to that one gave, in their order; those that the second `accept` of a
  -- round took, where the process had no descriptor left, are not among them. The socket still
  -- listens, and every descriptor that the process was given is one that the callback got, one that is
  -- closed, the listening socket or the reserve, each as many times as it was given.
  pub handle_accept-IsListening :
      (rs : List Round) (w : World k et) (fd : ℕ)
      → Stops rs
      → IsListening w fd
      → (w' : World k et) × (handle_accept k et rs w ≡ ok w')
        × (w'.handed ≡ w.handed ++ delivered w.acceptor.callback_set (arrivals rs))
        × (w'.acceptor.callback_set ≡ w.acceptor.callback_set)
        × IsListening w' fd
  handle_accept-IsListening [] w fd stop i = absurd stop
  handle_accept-IsListening (r ∷ rs) w fd stop i =
      let (more, w1, e, d) = handle_round-Handled k et r w fd i.here i.off in
      let i1 = Handled-IsListening r w more w1 fd d i in
      let b = w.acceptor.callback_set in
      elim (Bool-cases (stops r)) [
        | inl last ↦ (
          w1,
          handle_accept-stop r rs w w1 more e (d.goes ∙ ap not last),
          d.handed_on ∙ ap (λ t. w.handed ++ delivered b t) (sym (arrivals-stop r rs last)),
          d.keeps.callback_same,
          i1,
        )
        | inr on ↦
            let later : Stops rs = elim stop [ inl h ↦ absurd (cc (h, on)) | inr s ↦ s ] in
            let (w2, f, handed, set, i2) = handle_accept-IsListening rs w1 fd later i1 in
            (
              w2,
              handle_accept-on r rs w w1 more e (d.goes ∙ ap not on) ∙ f,
              handed-both b w.handed (sockets_of r.first) (arrivals rs) w1.handed w2.handed
                    d.handed_on
                    (handed
                      ∙ ap (λ c. w1.handed ++ delivered c (arrivals rs)) d.keeps.callback_same)
                  ∙ ap (λ t. w.handed ++ delivered b t) (sym (arrivals-on r rs on)),
              set ∙ d.keeps.callback_same,
              i2,
            )
      ]

  -- On a listening socket, as long as no round stops (each `accept` takes a connection or fails with
  -- an error that is not one of those that end the loop), the loop asks for one more round.
  pub handle_accept-endless :
      (rs : List Round) (w : World k et) (fd : ℕ)
      → ¬ Stops rs
      → IsListening w fd
      → handle_accept k et rs w ≡ err endless
  unfolding handle_accept
  handle_accept-endless [] w fd n i = refl
  handle_accept-endless (r ∷ rs) w fd n i =
      let (more, w1, e, d) = handle_round-Handled k et r w fd i.here i.off in
      elim (Bool-cases (stops r)) [
        | inl last ↦ absurd (n (inl last))
        | inr on ↦
            handle_accept-on r rs w w1 more e (d.goes ∙ ap not on)
            ∙ handle_accept-endless rs w1 fd (λ s. n (inr s))
                (Handled-IsListening r w more w1 fd d i)
      ]
