-- ===== src/TcpConnection/Receive.antt =====
-- `handleReadEvent`: what is read goes behind the unread bytes, and there is always room for a read.
use libpotato.Base.{
  ℕ, suc, ◌+◌, ◌*◌, ◌≤◌, ◌<◌, ◌≡◌, ap, ◌∙◌, Bool, false, some, List, [], ◌∷◌, ◌++◌, Result, ok,
  ◌>>=◌, if◌then◌else◌, length, dec_lt, lt→ltb, le→ltb, arith,
}
use libpotato.IoWatcher.{Epoll}
use libpotato.Socket
use libpotato.Socket.{Reply}
use libpotato.Buffer.{Buffer, max_size, expand_buffer}
use libpotato.Buffer.Contents.{IsValid, contents}
use libpotato.Buffer.Space.{room, expand_buffer-Expanded}
use libpotato.Buffer.Write.{
  Written, placed, placed-Written, copy_to-placed, length-placed, has_written-placed,
  writeable_bytes-room,
}
use libpotato.TcpConnection.{
  deref, World, Callbacks, take_in, read_once, read_loop, handle_read_event, if_set, got, has_bytes,
}
use libpotato.TcpConnection.Live.{Live}

-- A reply with bytes.
abbrev pub arrival : List ℕ → Reply (List ℕ)
arrival xs = record { ret = some xs; again = false }

-- A read asks for at most 4096 bytes more than there are, and gets one at least.
abbrev pub AllFit : List (List ℕ) → Type 0
AllFit [] = Unit {0}
AllFit (xs ∷ rest) = (0 < length xs) × (length xs ≤ 4096) × AllFit rest

-- What `take_in` leaves: the bytes behind those unread, and room for the next read.
pub record TakenIn (b : Buffer) (xs : List ℕ) (b' : Buffer) : Type 0 where
  pub valid : IsValid b'
  pub appended : contents b' ≡ contents b ++ xs
  pub ample : 4096 ≤ room b'
  pub bound : length b'.buf ≤ length b.buf + 4096

module _ (k : Epoll) (et : Bool) (cb : Callbacks k) where
  module _ (w : World k) (xs : List ℕ) (v : IsValid w.read_buffer)
      (h : length xs ≤ room w.read_buffer)
      (small : length w.read_buffer.buf + 4096 ≤ max_size) where
    filled : Buffer
    filled = placed w.read_buffer xs

    filled-Written : Written w.read_buffer xs filled
    unfolding filled
    filled-Written = placed-Written w.read_buffer xs v h

    -- The buffer has bytes put in at its end, and then grows if less than 4096 of room is left.
    take_in-full :
        (b : Buffer)
        → room filled < 4096
        → expand_buffer filled 4096 ≡ ok b
        → take_in k et cb xs w ≡ ok (record w { read_buffer = b })
    unfolding take_in filled
    take_in-full b lt e = rw (
      copy_to-placed w.read_buffer xs v h,
      has_written-placed w.read_buffer xs v h,
      writeable_bytes-room filled filled-Written.valid,
      lt→ltb (room filled) 4096 lt,
      e,
    )

    take_in-ample :
        4096 ≤ room filled → take_in k et cb xs w ≡ ok (record w { read_buffer = filled })
    unfolding take_in filled
    take_in-ample le = rw (
      copy_to-placed w.read_buffer xs v h,
      has_written-placed w.read_buffer xs v h,
      writeable_bytes-room filled filled-Written.valid,
      le→ltb (room filled) 4096 le,
    )

    length-filled : length filled.buf ≡ length w.read_buffer.buf
    unfolding filled
    length-filled = length-placed w.read_buffer xs v h

    pub take_in-TakenIn :
        (b : Buffer) × (take_in k et cb xs w ≡ ok (record w { read_buffer = b }))
        × TakenIn w.read_buffer xs b
    take_in-TakenIn = elim (dec_lt (room filled) 4096) [
      | yes lt ↦
          let (b, e, x) =
            expand_buffer-Expanded filled 4096 filled-Written.valid
              (omega (arith, length-filled)) in
          (
            b,
            take_in-full b lt e,
            record {
              valid = x.valid;
              appended = x.same ∙ filled-Written.appended;
              ample = x.fits;
              bound = omega (arith, x.bound, length-filled);
            },
          )
      | no ge ↦ (
        filled,
        take_in-ample (omega arith),
        record {
          valid = filled-Written.valid;
          appended = filled-Written.appended;
          ample = omega arith;
          bound = omega (arith, length-filled);
        },
      )
    ]

  -- A live connection with room for a read, and for `n` reads to come.
  pub record IsReady (n : ℕ) (w : World k) : Type 0 where
    pub live : Live k et w
    pub ample : 4096 ≤ room w.read_buffer
    pub growth : length w.read_buffer.buf + 4096 * n ≤ max_size

  pub taken-Live :
      (w : World k) (b : Buffer)
      → IsValid b
      → Live k et w
      → Live k et (record w { read_buffer = b })
  taken-Live w b x (fd, writing, v) = (
    fd,
    writing,
    record {
      bound = record {
        loop_no = v.bound.loop_no;
        peer = v.bound.peer;
        loop_on = v.bound.loop_on;
        event_on = v.bound.event_on;
        socket_on = v.bound.socket_on;
        known = v.bound.known;
        reads = x;
        writes = v.bound.writes;
      };
      drained = v.drained;
      waiting = v.waiting;
    },
  )

  pub taken-IsReady :
      (w : World k) (b : Buffer) (xs : List ℕ) (n : ℕ)
      → IsReady (suc n) w
      → TakenIn w.read_buffer xs b
      → IsReady n (record w { read_buffer = b })
  taken-IsReady w b xs n r x = record {
    live = taken-Live w b x.valid r.live;
    ample = x.ample;
    growth = omega (arith, r.growth, x.bound);
  }

  read_once-Live : (w : World k) (r : Reply (List ℕ)) → Live k et w → read_once k et cb r w ≡ ok r
  unfolding read_once Socket.read
  read_once-Live w r (fd, writing, v) =
      rw (v.bound.socket_on, writeable_bytes-room w.read_buffer v.bound.reads)

  -- What the loop does after the callback.
  abbrev pub go_on : List (Reply (List ℕ)) → World k → Result (World k)
  go_on rs w = do e ← deref k w.io_event; if e.et_mode then read_loop k et cb rs w else ok w

  go_on-Live :
      (rs : List (Reply (List ℕ))) (w : World k)
      → Live k et w
      → go_on rs w ≡ (if et then read_loop k et cb rs w else ok w)
  go_on-Live rs w (fd, writing, v) = rw v.bound.event_on

  pub read_loop-arrival :
      (xs : List ℕ) (rs : List (Reply (List ℕ))) (w w1 : World k)
      → 0 < length xs
      → Live k et w
      → take_in k et cb xs w ≡ ok w1
      → read_loop k et cb (arrival xs ∷ rs) w ≡ (if_set k w1.message_set cb.message w1 >>= go_on rs)
  unfolding read_loop has_bytes got
  read_loop-arrival xs rs w w1 p live e =
      rw (read_once-Live w (arrival xs) live, lt→ltb 0 (length xs) p, e)

  pub reads_of : (w : World k) → Live k et w → IsValid w.read_buffer
  reads_of w (fd, writing, v) = v.bound.reads

  pub handle_read_event-loop :
      (rs : List (Reply (List ℕ))) (w : World k)
      → Live k et w
      → handle_read_event k et cb rs w ≡ read_loop k et cb rs w
  unfolding handle_read_event
  handle_read_event-loop rs w (fd, writing, v) = rw (v.bound.socket_on, v.bound.event_on)

  pub weaken : (m n : ℕ) (w : World k) → IsReady (m + n) w → IsReady n w
  weaken m n w r = record { live = r.live; ample = r.ample; growth = omega (arith, r.growth) }

  -- One round of the loop, with a callback that leaves the connection at `w2`.
  pub round :
      (xs : List ℕ) (rs : List (Reply (List ℕ))) (w w1 w2 : World k)
      → 0 < length xs
      → Live k et w
      → take_in k et cb xs w ≡ ok w1
      → if_set k w1.message_set cb.message w1 ≡ ok w2
      → Live k et w2
      → read_loop k et cb (arrival xs ∷ rs) w ≡ (if et then read_loop k et cb rs w2 else ok w2)
  round xs rs w w1 w2 p live e c live2 =
      read_loop-arrival xs rs w w1 p live e ∙ ap (λ t. t >>= go_on rs) c ∙ go_on-Live rs w2 live2
