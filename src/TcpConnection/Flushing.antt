-- ===== src/TcpConnection/Flushing.antt =====
-- The parts of `handleWriteEvent`, on a live connection with bytes waiting.
use libpotato.Base.{
  ℕ, ◌<◌, ◌≡◌, refl, ap, ◌∙◌, Bool, true, Option, some, List, ◌++◌, append_assoc, Result, ok, ◌>>=◌,
  if◌then◌else◌, ◌==◌, take, take-append-drop, lt→ltb, arith,
}
use libpotato.IoWatcher.{Epoll}
use libpotato.Socket
use libpotato.Socket.{Reply}
use libpotato.Buffer.{Buffer, readable_bytes}
use libpotato.Buffer.Contents.{contents, length-contents}
use libpotato.Buffer.Read.{Retrieved, read_as_slice-contents, readable, readable_bytes-readable}
use libpotato.TcpConnection.{
  World, Callbacks, ignore, took, after_write, after_no_write, write_pending, handle_write_event,
  flush,
}
use libpotato.TcpConnection.Live.{IsBound, IsLive, stream, open_socket}

module _ (k : Epoll) (et : Bool) (cb : Callbacks k) where
  -- The check at the end of the handler.
  abbrev pub settle : World k → Result (World k)
  settle w = do m ← readable_bytes w.write_buffer; if m == 0 then ignore k et cb w else ok w

  module _ (w : World k) (fd n : ℕ) (v : IsBound k et w fd true) (b : Buffer)
      (r : Retrieved w.write_buffer n b) where
    -- The connection after the kernel took `n` of the bytes that wait.
    abbrev pub drained_to : World k
    drained_to = record w { sent = w.sent ++ take n (contents w.write_buffer); write_buffer = b }

    pub drained-IsBound : IsBound k et drained_to fd true
    drained-IsBound = record {
      loop_no = v.loop_no;
      peer = v.peer;
      loop_on = v.loop_on;
      event_on = v.event_on;
      socket_on = v.socket_on;
      known = v.known;
      reads = v.reads;
      writes = r.valid;
    }

    pub stream-drained : stream drained_to ≡ stream w
    stream-drained =
        append_assoc w.sent (take n (contents w.write_buffer)) (contents b)
        ∙ ap (λ t. w.sent ++ (take n (contents w.write_buffer) ++ t)) r.rest
        ∙ ap (λ t. w.sent ++ t) (take-append-drop n (contents w.write_buffer))

  module _ (sys_write : Option ℕ → List ℕ → Reply ℕ) (w : World k) (fd : ℕ)
      (v : IsLive k et w fd true) where
    abbrev pub reply : Reply ℕ
    reply = sys_write (some fd) (contents w.write_buffer)

    pub write_pending-took :
        0 < took reply
        → write_pending k et cb sys_write (open_socket fd v.bound.peer) w
          ≡ after_write k et cb
              (took reply)
              (record w { sent = w.sent ++ take (took reply) (contents w.write_buffer) })
    unfolding write_pending Socket.write
    write_pending-took h = rw (read_as_slice-contents w.write_buffer v.bound.writes, lt→ltb 0 _ h)

    pub write_pending-none :
        took reply ≡ 0
        → write_pending k et cb sys_write (open_socket fd v.bound.peer) w
          ≡ after_no_write k et cb reply.again w
    unfolding write_pending Socket.write
    write_pending-none h = rw (read_as_slice-contents w.write_buffer v.bound.writes, h)

    -- The handler on a live connection with bytes waiting.
    pub handle_write_event-flush :
        handle_write_event k et cb sys_write w
        ≡ flush k et cb sys_write (open_socket fd v.bound.peer) w
    unfolding handle_write_event
    handle_write_event-flush = rw (v.bound.socket_on, v.bound.event_on)

    pub flush-settle :
        (w' : World k)
        → write_pending k et cb sys_write (open_socket fd v.bound.peer) w ≡ ok w'
        → flush k et cb sys_write (open_socket fd v.bound.peer) w ≡ settle w'
    unfolding flush
    flush-settle w' e = rw (
      readable_bytes-readable w.write_buffer v.bound.writes,
      lt→ltb 0 (readable w.write_buffer)
          (omega (arith, v.waiting refl, length-contents w.write_buffer v.bound.writes)),
      e,
    )
