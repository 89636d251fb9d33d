-- ===== src/Buffer/Write.antt =====
-- `Buffer::write`, `Buffer::hasWritten`: bytes are appended to the unread ones.
use libpotato.Base.{
  ℕ, ◌+◌, ◌≤◌, ◌<◌, ◌≡◌, ap, ◌∙◌, List, ◌++◌, ok, err, assertion, length, take, drop, length-append,
  length-take, length-drop, dec_lt, arith,
}
use libpotato.Buffer.{
  writeable_bytes, copy_to, begin_write, Buffer, max_size, expand_buffer, write, has_written,
}
use libpotato.Buffer.Contents.{IsValid, contents, window-append}
use libpotato.Buffer.Space.{room, Expanded, expand_buffer-Expanded}

-- What a write leaves: a valid buffer with `xs` behind the unread bytes, grown by `xs` at most.
pub record Written (b : Buffer) (xs : List ℕ) (b' : Buffer) : Type 0 where
  pub valid : IsValid b'
  pub appended : contents b' ≡ contents b ++ xs
  pub bound : length b'.buf ≤ length b.buf + length xs

-- The bytes put at the write index of a buffer that has room for them.
pub placed : Buffer → List ℕ → Buffer
placed b xs = record b {
  buf = take b.cur_write_index b.buf ++ (xs ++ drop (b.cur_write_index + length xs) b.buf);
  cur_write_index = b.cur_write_index + length xs;
}

module _ (b : Buffer) (xs : List ℕ) (v : IsValid b) where
  pub length-placed : length xs ≤ room b → length (placed b xs).buf ≡ length b.buf
  unfolding placed
  length-placed h = omega (
    arith,
    length-append (take b.cur_write_index b.buf) (xs ++ drop (b.cur_write_index + length xs) b.buf),
    length-append xs (drop (b.cur_write_index + length xs) b.buf),
    length-take b.cur_write_index b.buf,
    length-drop (b.cur_write_index + length xs) b.buf,
    v.write_in,
  )

  pub placed-Written : length xs ≤ room b → Written b xs (placed b xs)
  unfolding placed
  placed-Written h = record {
    valid = record {
      read_in = omega (arith, v.read_in);
      write_in = omega (arith, length-placed h, v.write_in);
      small = omega (arith, length-placed h, v.small);
    };
    appended =
        window-append b.buf xs (drop (b.cur_write_index + length xs) b.buf) b.cur_read_index
          b.cur_write_index v.read_in v.write_in;
    bound = omega (arith, length-placed h);
  }

  write_fits : length xs ≤ room b → write b xs ≡ ok (placed b xs)
  unfolding write placed
  write_fits h = ground (arith, v.write_in, v.small)

  write_expands :
      (b' : Buffer)
      → room b < length xs
      → expand_buffer b (length xs) ≡ ok b'
      → IsValid b'
      → length xs ≤ room b'
      → write b xs ≡ ok (placed b' xs)
  unfolding write placed
  write_expands b' h e v' k = ground (arith, v.write_in, v'.write_in, v'.small)

module _ (b : Buffer) (xs : List ℕ) (v : IsValid b) where
  placed-Expanded : (b' : Buffer) → Expanded b (length xs) b' → Written b xs (placed b' xs)
  placed-Expanded b' x =
      let w : Written b' xs (placed b' xs) = placed-Written b' xs x.valid x.fits in
      record {
        valid = w.valid;
        appended = w.appended ∙ ap (λ t. t ++ xs) x.same;
        bound = omega (arith, length-placed b' xs x.valid x.fits, x.bound);
      }

  -- On a valid buffer whose vector may grow by the bytes written, `write` succeeds and appends
  -- exactly them to the unread bytes; the buffer stays valid.
  pub write-Written :
      length b.buf + length xs ≤ max_size → (b' : Buffer) × (write b xs ≡ ok b') × Written b xs b'
  write-Written small = elim (dec_lt (room b) (length xs)) [
    | yes h ↦
        let (b', e, x) = expand_buffer-Expanded b (length xs) v small in
        (placed b' xs, write_expands b xs v b' h e x.valid x.fits, placed-Expanded b' x)
    | no h ↦ (placed b xs, write_fits b xs v (omega arith), placed-Written b xs v (omega arith))
  ]

-- `hasWritten` takes over bytes that lie past the write index already, and refuses more than there
-- is room for.
pub has_written-assertion :
    (b : Buffer) (len : ℕ) → IsValid b → room b < len → has_written b len ≡ err assertion
unfolding has_written
has_written-assertion b len v h = ground (arith, v.write_in)

pub writeable_bytes-room : (b : Buffer) → IsValid b → writeable_bytes b ≡ ok (room b)
unfolding writeable_bytes
writeable_bytes-room b v = ground (arith, v.write_in)

-- Bytes that a system call puts at the write index are there once `hasWritten` is told of them.
module _ (b : Buffer) (xs : List ℕ) (v : IsValid b) (h : length xs ≤ room b) where
  pub copy_to-placed : copy_to b.buf (begin_write b) xs ≡ ok (placed b xs).buf
  unfolding copy_to placed
  copy_to-placed = ground (arith, v.write_in)

  pub has_written-placed :
      has_written (record b { buf = (placed b xs).buf }) (length xs) ≡ ok (placed b xs)
  unfolding has_written placed
  has_written-placed = ground (arith, v.write_in, v.small, length-placed b xs v h)
