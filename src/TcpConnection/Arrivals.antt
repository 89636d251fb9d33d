-- ===== src/TcpConnection/Arrivals.antt =====
-- `handleReadEvent` over all that arrives in one call.
use libpotato.Base.{
  ℕ, ◌+◌, ◌≡◌, refl, ap, ◌∙◌, sym, inl, inr, Bool, true, false, List, [], ◌∷◌, ◌++◌, append_assoc,
  append-nil, map, ok, if◌then◌else◌, length, Bool-cases, arith,
}
use libpotato.IoWatcher.{Epoll}
use libpotato.Buffer.Contents.{contents}
use libpotato.TcpConnection.{World, Callbacks, read_loop, handle_read_event, if_set}
use libpotato.TcpConnection.Receive.{
  arrival, AllFit, take_in-TakenIn, IsReady, taken-IsReady, reads_of, handle_read_event-loop,
  weaken, round,
}

-- What one call of the handler takes: all that arrived in edge-triggered mode, else the first read.
abbrev pub received : Bool → List (List ℕ) → List ℕ
received mode [] = []
received true (xs ∷ rest) = xs ++ received true rest
received false (xs ∷ rest) = xs

edge_received :
    (xs : List ℕ) (rest : List (List ℕ)) (mode : Bool)
    → mode ≡ true
    → xs ++ received mode rest ≡ received mode (xs ∷ rest)
edge_received xs rest true h = refl
edge_received xs rest false h = cc

module _ (k : Epoll) (et : Bool) (cb : Callbacks k) where
  -- The message callback leaves a connection that is ready so: it may take bytes off the buffer.
  module _
      (consumes : (w : World k) (n : ℕ)
        → IsReady k et cb n w
        → (w' : World k) × (cb.message w ≡ ok w') × IsReady k et cb n w') where
    after_message :
        (is_set : Bool) (w : World k) (n : ℕ)
        → IsReady k et cb n w
        → (w' : World k) × (if_set k is_set cb.message w ≡ ok w') × IsReady k et cb n w'
    after_message true w n r = consumes w n r
    after_message false w n r = (w, refl, r)

    read_loop-IsReady :
        (arrivals : List (List ℕ)) (w : World k) (n : ℕ)
        → AllFit arrivals
        → IsReady k et cb (length arrivals + n) w
        → (w' : World k) × (read_loop k et cb (map arrival arrivals) w ≡ ok w')
          × IsReady k et cb n w'
    unfolding read_loop
    read_loop-IsReady [] w n fit r = (w, refl, weaken k et cb 0 n w r)
    read_loop-IsReady (xs ∷ rest) w n fit r =
        let (b, e, x) =
          take_in-TakenIn k et cb w xs (reads_of k et cb w r.live) (omega (arith, r.ample, fit.1))
            (omega (arith, r.growth)) in
        let w1 : World k = record w { read_buffer = b } in
        let r1 : IsReady k et cb (length rest + n) w1 =
          taken-IsReady k et cb w b xs (length rest + n)
            (record { live = r.live; ample = r.ample; growth = omega (arith, r.growth) }) x in
        let (w2, c, r2) = after_message w1.message_set w1 (length rest + n) r1 in
        let step = round k et cb xs (map arrival rest) w w1 w2 fit.0 r.live e c r2.live in
        let (w3, t, r3) = read_loop-IsReady rest w2 n fit.2 r2 in
        elim (Bool-cases et) [
          | inl edge ↦ (
            w3,
            step ∙ ap (λ s. if s then read_loop k et cb (map arrival rest) w2 else ok w2) edge ∙ t,
            r3,
          )
          | inr level ↦ (
            w2,
            step ∙ ap (λ s. if s then read_loop k et cb (map arrival rest) w2 else ok w2) level,
            weaken k et cb (length rest) n w2 r2,
          )
        ]

    -- On a live connection with room for a read, `handleReadEvent` succeeds whatever the sizes of the
    -- reads of 1 to 4096 bytes: no read runs past the vector, the connection stays live, and room for
    -- another read is left. The vector may grow by 4096 bytes for each read. The message callback is
    -- one that leaves a connection with room ready, as it was.
    pub handle_read_event-IsReady :
        (arrivals : List (List ℕ)) (w : World k) (n : ℕ)
        → AllFit arrivals
        → IsReady k et cb (length arrivals + n) w
        → (w' : World k) × (handle_read_event k et cb (map arrival arrivals) w ≡ ok w')
          × IsReady k et cb n w'
    handle_read_event-IsReady arrivals w n fit r =
        let (w', e, r') = read_loop-IsReady arrivals w n fit r in
        (w', handle_read_event-loop k et cb (map arrival arrivals) w r.live ∙ e, r')

  read_loop-received :
      (arrivals : List (List ℕ)) (w : World k)
      → w.message_set ≡ false
      → AllFit arrivals
      → IsReady k et cb (length arrivals) w
      → (w' : World k) × (read_loop k et cb (map arrival arrivals) w ≡ ok w')
        × (contents w'.read_buffer ≡ contents w.read_buffer ++ received et arrivals)
  unfolding read_loop
  read_loop-received [] w unset fit r = (w, refl, sym (append-nil (contents w.read_buffer)))
  read_loop-received (xs ∷ rest) w unset fit r =
      let (b, e, x) =
        take_in-TakenIn k et cb w xs (reads_of k et cb w r.live) (omega (arith, r.ample, fit.1))
          (omega (arith, r.growth)) in
      let w1 : World k = record w { read_buffer = b } in
      let r1 : IsReady k et cb (length rest) w1 =
        taken-IsReady k et cb w b xs (length rest)
          (record { live = r.live; ample = r.ample; growth = omega (arith, r.growth) }) x in
      let c : if_set k w1.message_set cb.message w1 ≡ ok w1 =
        ap (λ t. if_set k t cb.message w1) unset in
      let step = round k et cb xs (map arrival rest) w w1 w1 fit.0 r.live e c r1.live in
      let (w3, t, more) = read_loop-received rest w1 unset fit.2 r1 in
      elim (Bool-cases et) [
        | inl edge ↦ (
          w3,
          step ∙ ap (λ s. if s then read_loop k et cb (map arrival rest) w1 else ok w1) edge ∙ t,
          more
              ∙ ap (λ s. s ++ received et rest) x.appended
              ∙ append_assoc (contents w.read_buffer) xs (received et rest)
              ∙ ap (λ s. contents w.read_buffer ++ s) (edge_received xs rest et edge),
        )
        | inr level ↦ (
          w1,
          step ∙ ap (λ s. if s then read_loop k et cb (map arrival rest) w1 else ok w1) level,
          x.appended ∙ ap (λ s. contents w.read_buffer ++ received s (xs ∷ rest)) (sym level),
        )
      ]

  -- Without a message callback the handler appends to the unread bytes all that arrived, in order,
  -- in edge-triggered mode, and the first read otherwise. Each read has 1 to 4096 bytes, the buffer
  -- has room for a read, and its vector may grow by 4096 bytes for each.
  pub handle_read_event-received :
      (arrivals : List (List ℕ)) (w : World k)
      → w.message_set ≡ false
      → AllFit arrivals
      → IsReady k et cb (length arrivals) w
      → (w' : World k) × (handle_read_event k et cb (map arrival arrivals) w ≡ ok w')
        × (contents w'.read_buffer ≡ contents w.read_buffer ++ received et arrivals)
  handle_read_event-received arrivals w unset fit r =
      let (w', e, c) = read_loop-received arrivals w unset fit r in
      (w', handle_read_event-loop k et cb (map arrival arrivals) w r.live ∙ e, c)
