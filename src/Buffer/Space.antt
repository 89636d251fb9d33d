-- ===== src/Buffer/Space.antt =====
-- How `Buffer::expandBuffer`, `Buffer::write` and `Buffer::hasWritten` make and use room.
use libpotato.Base.{
  ℕ, ◌+◌, ◌-◌, ◌≤◌, ◌<◌, ◌≡◌, sym, ap, ◌∙◌, ◌++◌, ok, err, length, take, drop, length-append,
  length-take, length-drop, length-replicate, replicate, dec_lt, length_error, arith,
}
use libpotato.Buffer.{Buffer, max_size, expand_buffer}
use libpotato.Buffer.Contents.{IsValid, contents, window, length-window, window-grow, window-front}

-- The bytes that can be written before the vector has to grow.
abbrev pub room : Buffer → ℕ
room b = length b.buf - b.cur_write_index

-- What `expandBuffer` leaves: a valid buffer with the same bytes to read and room for `len`.
pub record Expanded (b : Buffer) (len : ℕ) (b' : Buffer) : Type 0 where
  pub valid : IsValid b'
  pub same : contents b' ≡ contents b
  pub fits : len ≤ room b'
  pub bound : length b'.buf ≤ length b.buf + len

-- The branch of `expandBuffer` that moves the unread bytes to the front.
pub compacted : Buffer → Buffer
compacted b = record {
  buf =
      take 0 b.buf
      ++ (window b.buf b.cur_read_index b.cur_write_index
          ++ drop (0 + length (window b.buf b.cur_read_index b.cur_write_index)) b.buf);
  cur_read_index = 0;
  cur_write_index = b.cur_write_index - b.cur_read_index;
}

-- The branch that resizes the vector.
pub grown : Buffer → ℕ → Buffer
grown b len = record b {
  buf = take (length b.buf + len) b.buf ++ replicate (length b.buf + len - length b.buf) 0;
}

module _ (b : Buffer) (len : ℕ) (v : IsValid b) (small : length b.buf + len ≤ max_size) where
  expand_buffer-compacted : len < room b + b.cur_read_index → expand_buffer b len ≡ ok (compacted b)
  unfolding expand_buffer compacted
  expand_buffer-compacted h =
      ground (arith, length-window b.buf b.cur_read_index b.cur_write_index v.read_in v.write_in)

  expand_buffer-grown : room b + b.cur_read_index ≤ len → expand_buffer b len ≡ ok (grown b len)
  unfolding expand_buffer grown
  expand_buffer-grown h = ground arith

  compacted-Expanded : len < room b + b.cur_read_index → Expanded b len (compacted b)
  unfolding compacted
  compacted-Expanded h = record {
    valid = record {
      read_in = omega arith;
      write_in = omega (arith, moved, live);
      small = omega (arith, moved, v.small);
    };
    same =
        ap (λ n. window (compacted b).buf 0 n) (sym live)
        ∙ window-front (window b.buf b.cur_read_index b.cur_write_index) _ b.buf;
    fits = omega (arith, moved, v.read_in, v.write_in);
    bound = omega (arith, moved);
  }
    where
      live :
          length (window b.buf b.cur_read_index b.cur_write_index)
          ≡ b.cur_write_index - b.cur_read_index
      live = length-window b.buf b.cur_read_index b.cur_write_index v.read_in v.write_in

      moved : length (compacted b).buf ≡ length b.buf
      moved = omega (
        arith,
        live,
        v.write_in,
        length-append (window b.buf b.cur_read_index b.cur_write_index)
            (drop (0 + length (window b.buf b.cur_read_index b.cur_write_index)) b.buf),
        length-drop (0 + length (window b.buf b.cur_read_index b.cur_write_index)) b.buf,
      )

  grown-Expanded : Expanded b len (grown b len)
  unfolding grown
  grown-Expanded = record {
    valid = record {
      read_in = v.read_in;
      write_in = omega (arith, size, v.write_in);
      small = omega (arith, size);
    };
    same =
        window-grow b.buf (replicate {A = ℕ} (length b.buf + len - length b.buf) 0)
          (length b.buf + len) b.cur_read_index b.cur_write_index v.read_in v.write_in
          (omega arith);
    fits = omega (arith, size, v.write_in);
    bound = omega (arith, size);
  }
    where
      size : length (grown b len).buf ≡ length b.buf + len
      size = omega (
        arith,
        length-append (take (length b.buf + len) b.buf)
            (replicate {A = ℕ} (length b.buf + len - length b.buf) 0),
        length-take (length b.buf + len) b.buf,
        length-replicate {A = ℕ} (length b.buf + len - length b.buf) 0,
      )

  -- On a valid buffer whose vector may grow by `len`, the call succeeds, leaves room for `len`
  -- bytes, and keeps the unread bytes.
  pub expand_buffer-Expanded : (b' : Buffer) × (expand_buffer b len ≡ ok b') × Expanded b len b'
  expand_buffer-Expanded = elim (dec_lt len (room b + b.cur_read_index)) [
    | yes h ↦ (compacted b, expand_buffer-compacted h, compacted-Expanded h)
    | no h ↦ (grown b len, expand_buffer-grown (omega arith), grown-Expanded)
  ]

-- On a valid buffer where moving the unread bytes does not free more than `len` bytes, and whose
-- vector would grow past `max_size`, the call throws `length_error`.
expand_buffer-length_error :
    (b : Buffer) (len : ℕ)
    → IsValid b
    → room b + b.cur_read_index ≤ len
    → len ≤ max_size
    → max_size < length b.buf + len
    → expand_buffer b len ≡ err length_error
unfolding expand_buffer
expand_buffer-length_error b len v h k l = ground arith
