-- ===== src/TcpConnection/Completing.antt =====
-- `handleWriteEvent` where the write-complete callback closes the connection.
use libpotato.Base.{
  ℕ, ◌≡◌, refl, ap, ◌∙◌, Bool, true, false, Option, none, some, List, ◌++◌, ok, err, null_pointer,
  ◌==◌, length, take, length-drop, arith,
}
use libpotato.IoWatcher.{Epoll}
use libpotato.IoWatcher.Registration.{active, ignore_writing-IsActive}
use libpotato.Socket.{Reply}
use libpotato.Buffer.{Buffer}
use libpotato.Buffer.Contents.{IsValid, contents, length-contents}
use libpotato.Buffer.Read.{retrieve-Retrieved, readable, readable_bytes-readable}
use libpotato.TcpConnection.{
  World, Callbacks, ignore, took, after_write, handle_write_event, reset, close, if_set,
}
use libpotato.TcpConnection.Live.{IsBound, IsLive, rebound}
use libpotato.TcpConnection.Closing.{handle_close_event-IsUnbound, close-handle_close_event}
use libpotato.TcpConnection.Flushing.{
  settle, drained_to, drained-IsBound, reply, write_pending-took, handle_write_event-flush,
  flush-settle,
}

module _ (k : Epoll) (et : Bool) (cb : Callbacks k) where
  -- What `ignoreWriting` leaves of a bound connection.
  ignore-IsBound :
      (w : World k) (fd : ℕ)
      → IsBound k et w fd true
      → (w' : World k) × (ignore k et cb w ≡ ok w')
        × IsBound k et w' fd false
        × (w'.write_buffer ≡ w.write_buffer)
        × (w'.destroy_set ≡ w.destroy_set)
        × (w'.connection_set ≡ w.connection_set)
        × (w'.write_complete_set ≡ w.write_complete_set)
  unfolding ignore
  ignore-IsBound w fd v =
      let (e', h', s, a, others) =
        ignore_writing-IsActive k et (active et fd true) w.holder fd true
          (record { shape = refl; known = v.known }) in
      (
        record w { io_event = some e'; holder = h' },
        rw (v.event_on, s),
        rebound k et cb w fd true v false e' h' a,
        refl,
        refl,
        refl,
        refl,
      )

  -- The check at the end of the handler reads the event of a connection that has nothing to write.
  settle-null :
      (w : World k) (b : Buffer)
      → IsValid b
      → readable b ≡ 0
      → w.write_buffer ≡ b
      → w.io_event ≡ none
      → settle k et cb w ≡ err null_pointer
  unfolding ignore
  settle-null w b v none_left same off = rw (same, readable_bytes-readable b v, none_left, off)

  module _ (destroys : (w : World k) → cb.destroy w ≡ reset k et cb w)
      (closes : (w : World k) → cb.write_complete w ≡ close k et cb w)
      (sys_write : Option ℕ → List ℕ → Reply ℕ) (w : World k) (fd : ℕ)
      (v : IsLive k et w fd true) where
    -- The kernel takes all the bytes: nothing is left, and the callback closes the connection.
    after_write-closed :
        (n : ℕ)
        → n ≡ length (contents w.write_buffer)
        → w.destroy_set ≡ true
        → w.connection_set ≡ false
        → w.write_complete_set ≡ true
        → (w' : World k) × (b : Buffer) × (after_write k et cb n
              (record w { sent = w.sent ++ take n (contents w.write_buffer) })
            ≡ ok w')
          × IsValid b
          × (readable b ≡ 0)
          × (w'.write_buffer ≡ b)
          × (w'.io_event ≡ none)
    unfolding after_write
    after_write-closed n all destroy_on unset complete_on =
        let (b, e, r) =
          retrieve-Retrieved w.write_buffer n v.bound.writes
            (omega (arith, length-contents w.write_buffer v.bound.writes)) in
        let none_left : readable b ≡ 0 = omega (
          arith,
          length-contents b r.valid,
          ap length r.rest,
          length-drop n (contents w.write_buffer),
        ) in
        let empty : (readable b == 0) ≡ true = ground arith in
        let (w2, e2, x, same, destroys_same, connection_same, complete_same) =
          ignore-IsBound (drained_to k et cb w fd n v.bound b r) fd
            (drained-IsBound k et cb w fd n v.bound b r) in
        let (w3, e3, u) =
          handle_close_event-IsUnbound k et cb destroys w2 fd false x (destroys_same ∙ destroy_on)
            (connection_same ∙ unset) in
        (
          w3,
          b,
          rw (e, readable_bytes-readable b r.valid, empty, e2)
              (ap (λ t. if_set k t cb.write_complete w2) (complete_same ∙ complete_on)
                ∙ closes w2
                ∙ close-handle_close_event k et cb destroys w2 fd false x
                ∙ e3),
          r.valid,
          none_left,
          u.writes ∙ same,
          u.event_off,
        )

    -- On a live connection with bytes waiting, whose destroy callback is set and runs `reset`, whose
    -- write-complete callback is set and calls `close`, and which has no connection callback: where
    -- the kernel takes all the bytes that wait, the handler reads a null pointer.
    pub handle_write_event-null_pointer :
        took (sys_write (some fd) (contents w.write_buffer)) ≡ length (contents w.write_buffer)
        → w.destroy_set ≡ true
        → w.connection_set ≡ false
        → w.write_complete_set ≡ true
        → handle_write_event k et cb sys_write w ≡ err null_pointer
    handle_write_event-null_pointer all destroy_on unset complete_on =
        let (w', b, e, valid, none_left, same, off) =
          after_write-closed (took (reply k et cb sys_write w fd v)) all destroy_on unset
            complete_on in
        handle_write_event-flush k et cb sys_write w fd v
        ∙ flush-settle k et cb sys_write w fd v w'
            (write_pending-took k et cb sys_write w fd v (omega (arith, all, v.waiting refl)) ∙ e)
        ∙ settle-null w' b valid none_left same off
