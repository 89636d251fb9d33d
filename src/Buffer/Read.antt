-- ===== src/Buffer/Read.antt =====
-- `Buffer::read`, `readAsSlice` and the `retrieve` family: bytes come off the front.
use libpotato.Base.{
  ℕ, ◌+◌, ◌-◌, ◌≤◌, ◌<◌, ◌≡◌, refl, sym, ap, ◌∙◌, List, [], ◌∷◌, ok, err, assertion, length, take,
  drop, drop-drop, drop_all, length-drop, arith, ℕ_discrete,
}
use libpotato.Buffer.{
  readable_bytes, Buffer, read, read_as_slice, retrieve, retrieve_chars, retrieve_void,
  retrieve_until, retrieve_all_as_string, reset,
}
use libpotato.Buffer.Contents.{IsValid, contents, window, length-contents, take-window, drop-window}

-- The bytes to read.
abbrev pub readable : Buffer → ℕ
readable b = b.cur_write_index - b.cur_read_index

-- What `retrieve(len)` leaves: the same vector without the first `len` unread bytes.
pub record Retrieved (b : Buffer) (len : ℕ) (b' : Buffer) : Type 0 where
  pub valid : IsValid b'
  pub rest : contents b' ≡ drop len (contents b)
  pub vector : b'.buf ≡ b.buf

pub advanced : Buffer → ℕ → Buffer
advanced b len = record b { cur_read_index = b.cur_read_index + len }

module _ (b : Buffer) (len : ℕ) (v : IsValid b) (h : len ≤ readable b) where
  read-window : read b len ≡ ok (window b.buf b.cur_read_index (b.cur_read_index + len))
  unfolding read
  read-window = ground (arith, v.read_in, v.write_in)

  pub read-take : read b len ≡ ok (take len (contents b))
  read-take = rw (take-window b.buf b.cur_read_index b.cur_write_index len h) read-window

  retrieve_part : len < readable b → retrieve b len ≡ ok (advanced b len)
  unfolding retrieve advanced
  retrieve_part k = ground (arith, v.read_in, v.write_in, v.small)

  retrieve_whole : len ≡ readable b → retrieve b len ≡ ok (reset b)
  unfolding retrieve
  retrieve_whole e = ground (arith, v.read_in)

  reset-Retrieved : len ≡ readable b → Retrieved b len (reset b)
  unfolding reset
  reset-Retrieved e = record {
    valid = record { read_in = omega arith; write_in = omega arith; small = v.small };
    rest = sym (drop_all len (contents b) (omega (arith, length-contents b v)));
    vector = refl;
  }

  advanced-Retrieved : Retrieved b len (advanced b len)
  unfolding advanced
  advanced-Retrieved = record {
    valid = record { read_in = omega (arith, v.read_in); write_in = v.write_in; small = v.small };
    rest = sym (drop-window b.buf b.cur_read_index b.cur_write_index len);
    vector = refl;
  }

  -- `retrieve` drops the first `len` unread bytes.
  pub retrieve-Retrieved : (b' : Buffer) × (retrieve b len ≡ ok b') × Retrieved b len b'
  retrieve-Retrieved = elim (ℕ_discrete len (readable b)) [
    | yes e ↦ (reset b, retrieve_whole e, reset-Retrieved e)
    | no n ↦ (advanced b len, retrieve_part (omega arith), advanced-Retrieved)
  ]

  -- `retrieve(char *)` gives the first `len` unread bytes, and drops them.
  pub retrieve_chars-Retrieved :
      (b' : Buffer) × (retrieve_chars b len ≡ ok (take len (contents b), b')) × Retrieved b len b'
  unfolding retrieve_chars
  retrieve_chars-Retrieved = let (b', e, r) = retrieve-Retrieved in (b', rw (read-take, e), r)

pub read_as_slice-contents : (b : Buffer) → IsValid b → read_as_slice b ≡ ok (contents b)
unfolding read_as_slice
read_as_slice-contents b v =
    let e : b.cur_read_index + readable b ≡ b.cur_write_index = omega (arith, v.read_in) in
    ground (arith, v.write_in, ap (window b.buf b.cur_read_index) e)

pub retrieve_all_as_string-contents :
    (b : Buffer) → IsValid b → retrieve_all_as_string b ≡ ok (contents b, reset b)
unfolding retrieve_all_as_string
retrieve_all_as_string-contents b v = rw (read_as_slice-contents b v)

-- More bytes than there are: the assertion of `retrieve` fails.
pub retrieve-assertion :
    (b : Buffer) (len : ℕ) → IsValid b → readable b < len → retrieve b len ≡ err assertion
unfolding retrieve
retrieve-assertion b len v h = ground (arith, v.read_in)

pub retrieve_chars-assertion :
    (b : Buffer) (len : ℕ) → IsValid b → readable b < len → retrieve_chars b len ≡ err assertion
unfolding retrieve_chars read
retrieve_chars-assertion b len v h = ground (arith, v.read_in)

-- The bytes left to read after `retrieve(len)`.
readable-Retrieved :
    {b b' : Buffer} {len : ℕ} → IsValid b → Retrieved b len b' → readable b' ≡ readable b - len
readable-Retrieved {b} {b'} {len} v r = omega (
  arith,
  length-contents b v,
  length-contents b' r.valid,
  ap length r.rest,
  length-drop len (contents b),
)

module _ (b : Buffer) (len : ℕ) (v : IsValid b) where
  -- On a valid buffer with at least twice `len` bytes to read, `retrieve(void *)` gives the first
  -- `len` of them and drops twice as many.
  pub retrieve_void-Retrieved :
      len + len ≤ readable b
      → (b' : Buffer) × (retrieve_void b len ≡ ok (take len (contents b), b'))
        × Retrieved b (len + len) b'
  unfolding retrieve_void
  retrieve_void-Retrieved h =
      let (b', e, r) = retrieve_chars-Retrieved b len v (omega arith) in
      let (b'', e', r') =
        retrieve-Retrieved b' len r.valid (omega (arith, readable-Retrieved v r)) in
      (
        b'',
        rw (e, e'),
        record {
          valid = r'.valid;
          rest = r'.rest ∙ ap (drop len) r.rest ∙ drop-drop len len (contents b);
          vector = r'.vector ∙ r.vector;
        },
      )

  -- On a valid buffer with at least `len` but fewer than twice `len` bytes to read, `len` not 0,
  -- the second `retrieve` of `retrieve(void *)` fails its assertion.
  pub retrieve_void-assertion :
      0 < len → len ≤ readable b → readable b < len + len → retrieve_void b len ≡ err assertion
  unfolding retrieve_void
  retrieve_void-assertion p h k =
      let (b', e, r) = retrieve_chars-Retrieved b len v h in
      rw (e, retrieve-assertion b' len r.valid (omega (arith, readable-Retrieved v r)))

  -- On a valid buffer, `retrieveUntil` with a pointer into the unread bytes, or to their end, drops
  -- exactly the bytes before the pointer.
  retrieve_until-Retrieved :
      b.cur_read_index ≤ len
      → len ≤ b.cur_write_index
      → (b' : Buffer) × (retrieve_until b len ≡ ok b') × Retrieved b (len - b.cur_read_index) b'
  unfolding retrieve_until
  retrieve_until-Retrieved h k =
      let (b', e, r) = retrieve-Retrieved b (len - b.cur_read_index) v (omega arith) in
      (b', ground (arith, e), r)

pub readable_bytes-readable : (b : Buffer) → IsValid b → readable_bytes b ≡ ok (readable b)
unfolding readable_bytes
readable_bytes-readable b v = ground (arith, v.read_in)

-- A buffer with nothing to read, by its indices and by its bytes.
pub contents-nil : (b : Buffer) → IsValid b → readable b ≡ 0 → contents b ≡ []
contents-nil b v e = nothing (contents b) (length-contents b v ∙ e)
  where
    nothing : (xs : List ℕ) → length xs ≡ 0 → xs ≡ []
    nothing [] e' = refl
    nothing (x ∷ xs) e' = absurd (omega arith)
