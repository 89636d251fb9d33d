-- ===== src/TcpConnection/Stream.antt =====
-- `write` and `handleWriteEvent` keep the stream of bytes to the peer in order: nothing is lost,
-- repeated or moved, however little the kernel takes at a time.
use libpotato.Base.{
  ℕ, ◌+◌, ◌≤◌, ◌≡◌, refl, sym, ap, ◌∙◌, inl, inr, Bool, true, false, Option, none, some, List, [],
  ◌++◌, append_assoc, append-nil, ok, ◌==◌, length, take, drop, take-append-drop, length-drop,
  length-append, drop_all, Bool-cases, arith,
}
use libpotato.IoWatcher.{Epoll}
use libpotato.Socket
use libpotato.Socket.{Reply}
use libpotato.Buffer.{Buffer, max_size, readable_bytes}
use libpotato.Buffer
use libpotato.Buffer.Contents.{contents}
use libpotato.Buffer.Write.{write-Written}
use libpotato.TcpConnection.{
  World, Callbacks, if_set, keep_rest, write_now, write_in_loop, write, took,
}
use libpotato.TcpConnection.Live.{
  IsBound, IsLive, Live, Owes, stream, expect-Owes, open_socket, facts,
}

module _ (k : Epoll) (et : Bool) (cb : Callbacks k)
    (quiet : (w : World k)
      → Live k et w
      → Owes k et (facts w) (length w.write_buffer.buf) (stream w) (cb.write_complete w)) where
  -- Callbacks for a finished write leave the stream alone, so whether one is set does not matter.
  pub complete-Owes :
      (is_set : Bool) (w : World k)
      → Live k et w
      → Owes k et
          (facts w)
          (length w.write_buffer.buf)
          (stream w)
          (if_set k is_set cb.write_complete w)
  complete-Owes true w v = quiet w v
  complete-Owes false w v = (w, refl, v, refl, omega arith, refl)

  -- The rest of a message goes behind the bytes that wait.
  module _ (w : World k) (fd : ℕ) (writing : Bool) (v : IsBound k et w fd writing) (xs : List ℕ)
      (small : length w.write_buffer.buf + length xs ≤ max_size) where
    queued :
        (b : Buffer) × (Buffer.write w.write_buffer xs ≡ ok b)
        × IsBound k et (record w { write_buffer = b }) fd writing
        × (contents b ≡ contents w.write_buffer ++ xs)
        × (length b.buf ≤ length w.write_buffer.buf + length xs)
    queued =
        let (b, e, x) = write-Written w.write_buffer xs v.writes small in
        (
          b,
          e,
          record {
            loop_no = v.loop_no;
            peer = v.peer;
            loop_on = v.loop_on;
            event_on = v.event_on;
            socket_on = v.socket_on;
            known = v.known;
            reads = v.reads;
            writes = x.valid;
          },
          x.appended,
          x.bound,
        )

  keep_rest-Owes :
      (w : World k) (fd n : ℕ) (str : List ℕ)
      → IsBound k et w fd false
      → contents w.write_buffer ≡ []
      → n ≤ length str
      → length w.write_buffer.buf + length str ≤ max_size
      → Owes k et
          (facts w)
          (length w.write_buffer.buf + length str)
          (w.sent ++ drop n str)
          (keep_rest k et cb n str w)
  unfolding keep_rest
  keep_rest-Owes w fd n str v empty h small = elim (Bool-cases (n == length str)) [
    | inl all ↦
        let (w', e, live, s, m, same) =
          complete-Owes w.write_complete_set w
            (fd, false, record { bound = v; drained = λ q. empty; waiting = λ q. cc }) in
        (
          w',
          rw all e,
          live,
          s ∙ ap (λ t. w.sent ++ t) (empty ∙ sym (drop_all n str (ground arith))),
          omega arith,
          same,
        )
    | inr some_left ↦
        let (b, e, v', c, m') =
          queued w fd false v (drop n str) (omega (arith, length-drop n str)) in
        let (w', e', live, s, m, same) =
          expect-Owes k et cb (record w { write_buffer = b }) fd false v'
            (ground (
              arith,
              ap length c,
              length-append (contents w.write_buffer) (drop n str),
              length-drop n str,
            )) in
        (
          w',
          rw (some_left, e) e',
          live,
          s ∙ ap (λ t. w.sent ++ t) (c ∙ ap (λ t. t ++ drop n str) empty),
          omega (arith, length-drop n str),
          same,
        )
  ]

  module _ (sys_write : Option ℕ → List ℕ → Reply ℕ) (str : List ℕ) (w : World k) (fd : ℕ) where
    write_in_loop-queued :
        IsBound k et w fd true
        → (b : Buffer) → Buffer.write w.write_buffer str ≡ ok b
        → write_in_loop k et cb sys_write str w ≡ ok (record w { write_buffer = b })
    unfolding write_in_loop
    write_in_loop-queued v b e = rw (v.socket_on, v.event_on, v.loop_on, e)

    pub write_in_loop-now :
        (v : IsBound k et w fd false)
        → write_in_loop k et cb sys_write str w
          ≡ write_now k et cb sys_write str (open_socket fd v.peer) w
    unfolding write_in_loop
    write_in_loop-now v = rw (v.socket_on, v.event_on, v.loop_on)

    write_now-kept :
        (v : IsBound k et w fd false)
        → ((sys_write (some fd) str).ret ≡ none → (sys_write (some fd) str).again ≡ true)
        → write_now k et cb sys_write str (open_socket fd v.peer) w
          ≡ keep_rest k et cb
              (took (sys_write (some fd) str))
              str
              (record w { sent = w.sent ++ take (took (sys_write (some fd) str)) str })
    unfolding write_now Socket.write
    write_now-kept v fine = ground (arith, fine)

    pub write-run :
        (writing : Bool)
        → IsBound k et w fd writing
        → write k et cb sys_write str w ≡ write_in_loop k et cb sys_write str w
    unfolding write
    write-run writing v = rw (v.socket_on, v.loop_on)

  taken :
      (w : World k) (fd n : ℕ) (str : List ℕ)
      → IsBound k et w fd false
      → IsBound k et (record w { sent = w.sent ++ take n str }) fd false
  taken w fd n str v = record {
    loop_no = v.loop_no;
    peer = v.peer;
    loop_on = v.loop_on;
    event_on = v.event_on;
    socket_on = v.socket_on;
    known = v.known;
    reads = v.reads;
    writes = v.writes;
  }

  -- Where bytes wait already, the message goes behind them without a call of the system.
  pub write-Owes_waiting :
      (sys_write : Option ℕ → List ℕ → Reply ℕ) (msg : List ℕ) (w : World k) (fd : ℕ)
      → IsLive k et w fd true
      → length w.write_buffer.buf + length msg ≤ max_size
      → Owes k et
          (facts w)
          (length w.write_buffer.buf + length msg)
          (stream w ++ msg)
          (write k et cb sys_write msg w)
  write-Owes_waiting sys_write msg w fd v small =
      let (b, e, v', c, m') = queued w fd true v.bound msg small in
      (
        record w { write_buffer = b },
        write-run sys_write msg w fd true v.bound
            ∙ write_in_loop-queued sys_write msg w fd v.bound b e,
        (
          fd,
          true,
          record {
            bound = v';
            drained = λ q. cc;
            waiting = λ q.
                omega
                  (arith, v.waiting refl, ap length c, length-append (contents w.write_buffer) msg);
          },
        ),
        ap (λ t. w.sent ++ t) c ∙ sym (append_assoc w.sent (contents w.write_buffer) msg),
        m',
        refl,
      )

  -- On a live connection whose write-complete callback leaves a live connection live and its stream,
  -- its facts and its buffer's vector as they are, `write` succeeds and appends the message to the
  -- stream, whether bytes wait already or not, and whatever part of the message the kernel takes at
  -- once: it may take any number of its bytes, or refuse with EAGAIN. The connection stays live and
  -- its facts (its socket, the descriptors closed and which callbacks are set) stay what they are.
  -- The write buffer's vector may grow by the message, and grows by no more.
  pub write-Owes :
      (sys_write : Option ℕ → List ℕ → Reply ℕ) (msg : List ℕ) (w : World k) (fd : ℕ)
      (writing : Bool)
      → IsLive k et w fd writing
      → length w.write_buffer.buf + length msg ≤ max_size
      → took (sys_write (some fd) msg) ≤ length msg
      → ((sys_write (some fd) msg).ret ≡ none → (sys_write (some fd) msg).again ≡ true)
      → Owes k et
          (facts w)
          (length w.write_buffer.buf + length msg)
          (stream w ++ msg)
          (write k et cb sys_write msg w)
  write-Owes sys_write msg w fd true v small h fine = write-Owes_waiting sys_write msg w fd v small
  write-Owes sys_write msg w fd false v small h fine =
      let n : ℕ = took (sys_write (some fd) msg) in
      let (w', e, live, s, m, same) =
        keep_rest-Owes (record w { sent = w.sent ++ take n msg }) fd n msg
          (taken w fd n msg v.bound) (v.drained refl) h small in
      (
        w',
        write-run sys_write msg w fd false v.bound
            ∙ write_in_loop-now sys_write msg w fd v.bound
            ∙ write_now-kept sys_write msg w fd v.bound fine
            ∙ e,
        live,
        s
            ∙ append_assoc w.sent (take n msg) (drop n msg)
            ∙ ap (λ t. w.sent ++ t) (take-append-drop n msg)
            ∙ ap (λ t. t ++ msg)
                (sym (append-nil w.sent) ∙ ap (λ t. w.sent ++ t) (sym (v.drained refl))),
        m,
        same,
      )
