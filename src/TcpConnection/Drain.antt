-- ===== src/TcpConnection/Drain.antt =====
-- `handleWriteEvent`: the bytes that wait go to the kernel in order, and the event stops writing
-- when there are none left.
use libpotato.Base.{
  ℕ, ◌≤◌, ◌≡◌, refl, ap, ◌∙◌, inl, inr, Bool, true, Option, List, ◌++◌, ◌==◌, length, take,
  Bool-cases, dec_lt, arith,
}
use libpotato.IoWatcher.{Epoll}
use libpotato.Socket.{Reply}
use libpotato.Buffer.Contents.{contents, length-contents}
use libpotato.Buffer.Read.{retrieve-Retrieved, readable, readable_bytes-readable, contents-nil}
use libpotato.TcpConnection.{
  World, Callbacks, took, after_write, after_no_write, write_pending, handle_write_event,
}
use libpotato.TcpConnection.Live.{
  IsBound, IsLive, Live, Owes, stream, expect-Owes, ignore-Owes, facts, open_socket,
}
use libpotato.TcpConnection.Stream.{complete-Owes}
use libpotato.TcpConnection.Flushing.{
  settle, drained_to, drained-IsBound, stream-drained, reply, write_pending-took,
  write_pending-none, handle_write_event-flush, flush-settle,
}

module _ (k : Epoll) (et : Bool) (cb : Callbacks k)
    (quiet : (w : World k)
      → Live k et w
      → Owes k et (facts w) (length w.write_buffer.buf) (stream w) (cb.write_complete w)) where
  settle-Owes :
      (w : World k)
      → Live k et w
      → Owes k et (facts w) (length w.write_buffer.buf) (stream w) (settle k et cb w)
  settle-Owes w (fd, writing, v) = elim (Bool-cases (readable w.write_buffer == 0)) [
    | inl none_left ↦
        let (w', e, live, s, m, same) =
          ignore-Owes k et cb w fd writing v.bound
            (contents-nil w.write_buffer v.bound.writes (ground arith)) in
        (
          w',
          rw (readable_bytes-readable w.write_buffer v.bound.writes, none_left) e,
          live,
          s,
          m,
          same,
        )
    | inr some_left ↦ (
      w,
      rw (readable_bytes-readable w.write_buffer v.bound.writes, some_left),
      (fd, writing, v),
      refl,
      omega arith,
      refl,
    )
  ]

  -- The bytes that the kernel takes leave the buffer for the bytes sent.
  after_write-Owes :
      (w : World k) (fd n : ℕ)
      → IsLive k et w fd true
      → n ≤ readable w.write_buffer
      → Owes k et
          (facts w)
          (length w.write_buffer.buf)
          (stream w)
          (after_write k et cb n (record w { sent = w.sent ++ take n (contents w.write_buffer) }))
  unfolding after_write
  after_write-Owes w fd n v h =
      let (b, e, r) = retrieve-Retrieved w.write_buffer n v.bound.writes h in
      let x : IsBound k et (drained_to k et cb w fd n v.bound b r) fd true =
        drained-IsBound k et cb w fd n v.bound b r in
      elim (Bool-cases (readable b == 0)) [
        | inl none_left ↦
            let (w2, e2, (fd2, on, live2), s2, m2, same2) =
              ignore-Owes k et cb (drained_to k et cb w fd n v.bound b r) fd true x
                (contents-nil b r.valid (ground arith)) in
            let (w3, e3, live3, s3, m3, same3) =
              complete-Owes k et cb quiet w2.write_complete_set w2 (fd2, on, live2) in
            (
              w3,
              rw (e, readable_bytes-readable b r.valid, none_left, e2) e3,
              live3,
              s3 ∙ s2 ∙ stream-drained k et cb w fd n v.bound b r,
              omega (arith, m3, m2, ap length r.vector),
              same3 ∙ same2,
            )
        | inr some_left ↦ (
          drained_to k et cb w fd n v.bound b r,
          rw (e, readable_bytes-readable b r.valid, some_left),
          (
            fd,
            true,
            record {
              bound = x;
              drained = λ q. cc;
              waiting = λ q. ground (arith, length-contents b r.valid);
            },
          ),
          stream-drained k et cb w fd n v.bound b r,
          omega (arith, ap length r.vector),
          refl,
        )
      ]

  module _ (sys_write : Option ℕ → List ℕ → Reply ℕ) (w : World k) (fd : ℕ)
      (v : IsLive k et w fd true) where
    write_pending-Owes :
        took (reply k et cb sys_write w fd v) ≤ length (contents w.write_buffer)
        → (took (reply k et cb sys_write w fd v) ≡ 0
            → (reply k et cb sys_write w fd v).again ≡ true)
        → Owes k et
            (facts w)
            (length w.write_buffer.buf)
            (stream w)
            (write_pending k et cb sys_write (open_socket fd v.bound.peer) w)
    unfolding after_no_write
    write_pending-Owes h fine = elim (dec_lt 0 (took (reply k et cb sys_write w fd v))) [
      | yes p ↦
          let (w', e, live, s, m, same) =
            after_write-Owes w fd (took (reply k et cb sys_write w fd v)) v
              (omega (arith, length-contents w.write_buffer v.bound.writes)) in
          (w', write_pending-took k et cb sys_write w fd v p ∙ e, live, s, m, same)
      | no p ↦
          let (w', e, live, s, m, same) = expect-Owes k et cb w fd true v.bound (v.waiting refl) in
          (
            w',
            write_pending-none k et cb sys_write w fd v (omega arith) ∙ rw (fine (omega arith)) e,
            live,
            s,
            m,
            same,
          )
    ]

    -- On a live connection with bytes waiting, whose write-complete callback leaves a live
    -- connection live and its stream, its facts and its buffer's vector as they are, the handler
    -- succeeds and leaves all these as they are: what the kernel takes moves from the buffer to the
    -- bytes sent. The kernel may take any number of the bytes, or refuse with EAGAIN.
    pub handle_write_event-Owes :
        took (reply k et cb sys_write w fd v) ≤ length (contents w.write_buffer)
        → (took (reply k et cb sys_write w fd v) ≡ 0
            → (reply k et cb sys_write w fd v).again ≡ true)
        → Owes k et
            (facts w)
            (length w.write_buffer.buf)
            (stream w)
            (handle_write_event k et cb sys_write w)
    handle_write_event-Owes h fine =
        let (w1, e1, live1, s1, m1, same1) = write_pending-Owes h fine in
        let (w2, e2, live2, s2, m2, same2) = settle-Owes w1 live1 in
        (
          w2,
          handle_write_event-flush k et cb sys_write w fd v
              ∙ flush-settle k et cb sys_write w fd v w1 e1
              ∙ e2,
          live2,
          s2 ∙ s1,
          omega (arith, m1, m2),
          same2 ∙ same1,
        )
