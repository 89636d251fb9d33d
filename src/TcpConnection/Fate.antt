-- ===== src/TcpConnection/Fate.antt =====
-- What becomes of a server's connection, whatever the kernel replies: it stays open, or it is closed
-- once and bound to nothing.
use libpotato.Base.{
  ℕ, ◌+◌, ◌≤◌, ◌<◌, ◌≡◌, ◌⊎◌, inl, inr, refl, sym, ap, ◌∙◌, Bool, true, false, Option, none, some,
  List, [], ◌∷◌, ◌++◌, Result, ok, if◌then◌else◌, ◌==◌, length, Bool-cases, Option-cases, dec_lt,
  arith,
}
use libpotato.IoWatcher.{Epoll, IoEvent}
use libpotato.IpAddress.{IpAddress}
use libpotato.Socket
use libpotato.Socket.{Socket, Reply}
use libpotato.Buffer.{max_size}
use libpotato.Buffer.Contents.{contents, length-contents}
use libpotato.Buffer.Read.{readable, readable_bytes-readable}
use libpotato.TcpConnection.{
  World, Callbacks, took, write, write_in_loop, write_now, handle_write_event, handle_close_event,
  after_no_write, reset,
}
use libpotato.TcpConnection.Live.{IsLive, IsBound, Live, Owes, stream, Facts, facts, open_socket}
use libpotato.TcpConnection.Stream.{write-Owes, write-Owes_waiting, write_in_loop-now}
use libpotato.TcpConnection.Drain.{handle_write_event-Owes}
use libpotato.TcpConnection.Flushing.{write_pending-none, handle_write_event-flush, flush-settle}
use libpotato.TcpConnection.Closing.{handle_close_event-IsUnbound}
use libpotato.TcpConnection.Calls.{close_functor, write_functor, run_functor}
use libpotato.TcpConnection.Handing.{on_room}

abbrev descriptor : Option Socket → Option ℕ
descriptor none = none
descriptor (some s) = s.socket

-- The kernel takes no more than it is given.
abbrev pub Takes : (Option ℕ → List ℕ → Reply ℕ) → Type 0
Takes f = (fd : Option ℕ) (bytes : List ℕ) → took (f fd bytes) ≤ length bytes

-- The facts of an open connection of a server without a connection callback.
abbrev pub open_facts : ℕ → IpAddress → List ℕ → Bool → Facts
open_facts fd peer closed b = (some (open_socket fd peer), closed, true, false, b)

module _ (k : Epoll) (et : Bool) (cb : Callbacks k)
    (quiet : (w : World k)
      → Live k et w
      → Owes k et (facts w) (length w.write_buffer.buf) (stream w) (cb.write_complete w))
    (destroys : (w : World k) → cb.destroy w ≡ reset k et cb w) (fd : ℕ) (peer : IpAddress)
    (closed : List ℕ) (b : Bool) where
  -- Open, with a write buffer whose vector has at most `n` bytes.
  pub record IsOpen (n : ℕ) (w : World k) : Type 0 where
    pub live : Live k et w
    pub same : facts w ≡ open_facts fd peer closed b
    pub small : length w.write_buffer.buf ≤ n

  -- Bound to nothing, and the descriptor closed once.
  pub record IsGone (w : World k) : Type 0 where
    pub socket_off : w.socket ≡ none
    pub event_off : w.io_event ≡ none
    pub once : w.closed ≡ closed ++ (fd ∷ [])

  abbrev pub Status : ℕ → World k → Type 0
  Status n w = IsOpen n w ⊎ IsGone w

  -- What a call reaches.
  abbrev pub Reaches : ℕ → Result (World k) → Type 0
  Reaches n r = (w' : World k) × (r ≡ ok w') × Status n w'

  same_fd :
      (w : World k) (fd' : ℕ) (on : Bool)
      → IsBound k et w fd' on
      → facts w ≡ open_facts fd peer closed b
      → fd' ≡ fd
  same_fd w fd' on v e =
      let s : some (open_socket fd' v.peer) ≡ some (open_socket fd peer) =
        sym v.socket_on ∙ ap (λ t. t.0) e in
      cc (ap descriptor s)

  close-IsGone :
      (n : ℕ) (w : World k)
      → IsOpen n w
      → (w' : World k) × (handle_close_event k et cb w ≡ ok w')
        × IsGone w'
        × (w'.write_buffer ≡ w.write_buffer)
  close-IsGone n w o =
      let (fd', on, v) = o.live in
      let (w', e, u) =
        handle_close_event-IsUnbound k et cb destroys w fd' on v.bound (ap (λ t. t.2) o.same)
          (ap (λ t. t.3) o.same) in
      (
        w',
        e,
        record {
          socket_off = u.socket_off;
          event_off = u.event_off;
          once =
              u.once
              ∙ ap (λ t. t ++ (fd' ∷ [])) (ap (λ t. t.1) o.same)
              ∙ ap (λ t. closed ++ (t ∷ [])) (same_fd w fd' on v.bound o.same);
        },
        u.writes,
      )

  -- What a call reaches that moves bytes.
  Reaches-open :
      (n m : ℕ) (w : World k) (xs : List ℕ) (r : Result (World k))
      → facts w ≡ open_facts fd peer closed b
      → m ≤ n
      → Owes k et (facts w) m xs r
      → Reaches n r
  Reaches-open n m w xs r same h (w', e, live, owes, small, kept) =
      (w', e, inl (record { live = live; same = kept ∙ same; small = omega (arith, small) }))

  module _ (f : Option ℕ → List ℕ → Reply ℕ) (takes : Takes f) where
    write_now-fails :
        (msg : List ℕ) (w : World k) (fd' : ℕ) (peer' : IpAddress)
        → (f (some fd') msg).ret ≡ none
        → (f (some fd') msg).again ≡ false
        → write_now k et cb f msg (open_socket fd' peer') w ≡ handle_close_event k et cb w
    unfolding write_now Socket.write
    write_now-fails msg w fd' peer' failed for_good = rw (failed, for_good)

    write-run_functor :
        (msg : List ℕ) (w : World k) (fd' : ℕ) (on : Bool)
        → IsBound k et w fd' on
        → run_functor k et cb (write_functor f msg) w ≡ write k et cb f msg w
    unfolding run_functor write
    write-run_functor msg w fd' on v = sym (rw (v.socket_on, v.loop_on))

    module _ (msg : List ℕ) (n : ℕ) (w : World k) (h : n + length msg ≤ max_size) (o : IsOpen n w)
        (fd' : ℕ) where
      -- A write that the kernel does not refuse for good.
      write_fine :
          (on : Bool)
          → IsLive k et w fd' on
          → ((f (some fd') msg).ret ≡ none → (f (some fd') msg).again ≡ true)
          → Reaches (n + length msg) (run_functor k et cb (write_functor f msg) w)
      write_fine on v fine =
          let (w', e, s) =
            Reaches-open (n + length msg) (length w.write_buffer.buf + length msg) w
              (stream w ++ msg) (write k et cb f msg w) o.same (omega (arith, o.small))
              (write-Owes k et cb quiet f msg w fd' on v (omega (arith, o.small, h))
                (takes (some fd') msg) fine) in
          (w', write-run_functor msg w fd' on v.bound ∙ e, s)

      write_waiting :
          IsLive k et w fd' true
          → Reaches (n + length msg) (run_functor k et cb (write_functor f msg) w)
      write_waiting v =
          let (w', e, s) =
            Reaches-open (n + length msg) (length w.write_buffer.buf + length msg) w
              (stream w ++ msg) (write k et cb f msg w) o.same (omega (arith, o.small))
              (write-Owes_waiting k et cb quiet f msg w fd' v (omega (arith, o.small, h))) in
          (w', write-run_functor msg w fd' true v.bound ∙ e, s)

      -- One that fails closes the connection.
      write_fails :
          IsLive k et w fd' false
          → (f (some fd') msg).ret ≡ none
          → (f (some fd') msg).again ≡ false
          → Reaches (n + length msg) (run_functor k et cb (write_functor f msg) w)
      unfolding run_functor
      write_fails v failed for_good =
          let (w', e, g, same) = close-IsGone n w o in
          (
            w',
            write_in_loop-now k et cb quiet f msg w fd' v.bound
                ∙ write_now-fails msg w fd' v.bound.peer failed for_good
                ∙ e,
            inr g,
          )

      write_open :
          (on : Bool)
          → IsLive k et w fd' on
          → Reaches (n + length msg) (run_functor k et cb (write_functor f msg) w)
      write_open true v = write_waiting v
      write_open false v = elim (Option-cases (f (some fd') msg).ret) [
        | inr (m, some_taken) ↦ write_fine false v (λ e. absurd (cc (e, some_taken)))
        | inl failed ↦ elim (Bool-cases (f (some fd') msg).again) [
          | inl again ↦ write_fine false v (λ e. again)
          | inr for_good ↦ write_fails v failed for_good
        ]
      ]

    -- A function of `write`: the message is taken or kept, or the write fails and the connection is
    -- closed.
    pub write_functor-Reaches :
        (msg : List ℕ) (n : ℕ) (w : World k)
        → n + length msg ≤ max_size
        → Status n w
        → Reaches (n + length msg) (run_functor k et cb (write_functor f msg) w)
    write_functor-Reaches msg n w h (inr g) =
        (w, unfold run_functor write_in_loop in rw g.socket_off, inr g)
    write_functor-Reaches msg n w h (inl o) =
        let (fd', on, v) = o.live in write_open msg n w h o fd' on v

    on_room-again :
        (w : World k) (fd' : ℕ) (v : IsLive k et w fd' true)
        → took (f (some fd') (contents w.write_buffer)) ≡ 0
        → (f (some fd') (contents w.write_buffer)).again ≡ false
        → (w' : World k) × (handle_close_event k et cb w ≡ ok w')
          × IsGone w'
          × (w'.write_buffer ≡ w.write_buffer)
        → (w' : World k) × (handle_write_event k et cb f w ≡ ok w') × IsGone w'
    unfolding after_no_write
    on_room-again w fd' v none_taken for_good (w', e, g, same) =
        let waits : 0 < readable w.write_buffer =
          omega (arith, v.waiting refl, length-contents w.write_buffer v.bound.writes) in
        let some_left : (readable w.write_buffer == 0) ≡ false = ground arith in
        (
          w',
          handle_write_event-flush k et cb f w fd' v
              ∙ flush-settle k et cb f w fd' v w'
                  (write_pending-none k et cb f w fd' v none_taken ∙ rw for_good e)
              ∙ rw (same, readable_bytes-readable w.write_buffer v.bound.writes, some_left),
          g,
        )

    on_room-writing :
        (n : ℕ) (w : World k) (o : IsOpen n w) (fd' : ℕ)
        → IsLive k et w fd' true
        → Reaches n (handle_write_event k et cb f w)
    on_room-writing n w o fd' v =
        let fine : (took (f (some fd') (contents w.write_buffer)) ≡ 0
              → (f (some fd') (contents w.write_buffer)).again ≡ true)
            → Reaches n (handle_write_event k et cb f w) =
          λ again.
            Reaches-open n (length w.write_buffer.buf) w (stream w) (handle_write_event k et cb f w)
              o.same (omega (arith, o.small))
              (handle_write_event-Owes k et cb quiet f w fd' v (takes (some fd') _) again) in
        elim (Bool-cases (f (some fd') (contents w.write_buffer)).again) [
          | inl again ↦ fine (λ e. again)
          | inr for_good ↦ elim (dec_lt 0 (took (f (some fd') (contents w.write_buffer)))) [
            | yes p ↦ fine (λ e. absurd (omega (arith, e, p)))
            | no p ↦
                let (w', e, g) =
                  on_room-again w fd' v (omega arith) for_good (close-IsGone n w o) in
                (w', e, inr g)
          ]
        ]

    -- The kernel has room: bytes are taken, or the write fails and the connection is closed.
    pub on_room-Reaches : (n : ℕ) (w : World k) → Status n w → Reaches n (on_room k et cb f w)
    on_room-Reaches n w (inr g) = (w, rw g.event_off, inr g)
    on_room-Reaches n w (inl o) = by_event o.live
      where
        test : Option IoEvent → Result (World k)
        test e =
            if elim e [ none ↦ false | some e ↦ e.is_writing ]
            then handle_write_event k et cb f w
            else ok w

        by_event : Live k et w → Reaches n (on_room k et cb f w)
        by_event (fd', false, v) = (w, ap test v.bound.event_on, inl o)
        by_event (fd', true, v) =
            let (w', e, s) = on_room-writing n w o fd' v in (w', ap test v.bound.event_on ∙ e, s)

  pub close_functor-Reaches :
      (n : ℕ) (w : World k) → Status n w → Reaches n (run_functor k et cb close_functor w)
  unfolding run_functor
  close_functor-Reaches n w (inl o) = let (w', e, g, same) = close-IsGone n w o in (w', e, inr g)
  close_functor-Reaches n w (inr g) = (w, unfold handle_close_event in rw g.socket_off, inr g)
