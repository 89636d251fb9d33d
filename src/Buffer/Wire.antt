-- ===== src/Buffer/Wire.antt =====
-- The integers of a `Buffer` on the wire: big-endian two's complement, read back as written.
use libpotato.Base.{
  ℕ, ◌+◌, ◌≤◌, ◌<◌, ◌^◌, ◌≡◌, sym, ap, ◌∙◌, List, ◌++◌, ok, length, take, drop, length-append,
  take-append_left, take_all, drop-append_self, arith,
}
use libpotato.Base.Int.{
  ℤ, to_uint32, to_int32, to_uint64, to_int64, IsInt32, IsInt64, to_uint32-lt, to_uint64-lt,
  to_int32-to_uint32, to_int64-to_uint64, to_uint32-to_int32, to_uint64-to_int64,
}
use libpotato.Endian.{
  Platform, big_endian, length-big_endian, of_memory-big_endian, host_to_network32,
  host_to_network64, network_to_host32, network_to_host64,
}
use libpotato.Buffer.{Buffer, max_size}
use libpotato.Buffer.Contents.{IsValid, contents, window, length-contents, take-window}
use libpotato.Buffer.Write.{Written, write-Written}
use libpotato.Buffer.Read.{readable, Retrieved, retrieve-Retrieved}
use libpotato.Buffer.Ints.{
  write_int32, write_int64, write_uint64, read_int32, read_int64, read_uint64, retrieve_int32,
  retrieve_int64, retrieve_uint64,
}

-- The unread bytes begin with the `n` bytes of `xs`, and `rest` follows.
module _ (b : Buffer) (n : ℕ) (xs rest : List ℕ) (v : IsValid b) (size : length xs ≡ n)
    (e : contents b ≡ xs ++ rest) where
  front-le : n ≤ readable b
  front-le = omega (arith, length-contents b v, ap length e, length-append xs rest)

  front-window : window b.buf b.cur_read_index (b.cur_read_index + n) ≡ xs
  front-window =
      sym (take-window b.buf b.cur_read_index b.cur_write_index n front-le)
      ∙ ap (take n) e
      ∙ take-append_left n xs rest (omega arith)
      ∙ take_all n xs (omega arith)

  rest_after : (b' : Buffer) → Retrieved b n b' → contents b' ≡ rest
  rest_after b' r =
      r.rest ∙ ap (drop n) e ∙ ap (λ k. drop k (xs ++ rest)) (sym size) ∙ drop-append_self xs rest

-- Each read takes the word at the read index.
module _ (p : Platform) (b : Buffer) (v : IsValid b) where
  read_int32-window :
      4 ≤ readable b
      → read_int32 p b
        ≡ ok (
            to_int32 (
              p.word32.ntoh (
                to_uint32 (
                  to_int32
                    (p.word32.of_memory (window b.buf b.cur_read_index (b.cur_read_index + 4)))))))
  unfolding read_int32 network_to_host32
  read_int32-window h = ground (arith, v.read_in, v.write_in)

  read_int64-window :
      8 ≤ readable b
      → read_int64 p b
        ≡ ok (
            to_int64 (
              p.word64.ntoh (
                to_uint64 (
                  to_int64
                    (p.word64.of_memory (window b.buf b.cur_read_index (b.cur_read_index + 8)))))))
  unfolding read_int64 network_to_host64
  read_int64-window h = ground (arith, v.read_in, v.write_in)

  read_uint64-window :
      8 ≤ readable b
      → read_uint64 p b
        ≡ ok (
            p.word64.ntoh
              (p.word64.of_memory (window b.buf b.cur_read_index (b.cur_read_index + 8))))
  unfolding read_uint64 network_to_host64
  read_uint64-window h = ground (arith, v.read_in, v.write_in)

-- The bytes that each write puts on the wire.
module _ (p : Platform) (b : Buffer) (v : IsValid b) where
  -- On a valid buffer whose vector may grow by 4, `writeInt32` appends the four big-endian bytes of
  -- the integer's two's complement, whatever the byte order of the machine.
  pub write_int32-Written :
      (z : ℤ)
      → length b.buf + 4 ≤ max_size
      → (b' : Buffer) × (write_int32 p b z ≡ ok b') × Written b (big_endian 4 (to_uint32 z)) b'
  unfolding write_int32 host_to_network32
  write_int32-Written z small =
      rw
        (
          to_uint32-to_int32 _ (p.word32.hton-lt (to_uint32 z) (to_uint32-lt z)),
          p.word32.to_memory-hton (to_uint32 z) (to_uint32-lt z),
        )
        (write-Written b (big_endian 4 (to_uint32 z)) v
          (omega (arith, length-big_endian 4 (to_uint32 z))))

  pub write_int64-Written :
      (z : ℤ)
      → length b.buf + 8 ≤ max_size
      → (b' : Buffer) × (write_int64 p b z ≡ ok b') × Written b (big_endian 8 (to_uint64 z)) b'
  unfolding write_int64 host_to_network64
  write_int64-Written z small =
      rw
        (
          to_uint64-to_int64 _ (p.word64.hton-lt (to_uint64 z) (to_uint64-lt z)),
          p.word64.to_memory-hton (to_uint64 z) (to_uint64-lt z),
        )
        (write-Written b (big_endian 8 (to_uint64 z)) v
          (omega (arith, length-big_endian 8 (to_uint64 z))))

  pub write_uint64-Written :
      (x : ℕ)
      → x < 2 ^ 64
      → length b.buf + 8 ≤ max_size
      → (b' : Buffer) × (write_uint64 p b x ≡ ok b') × Written b (big_endian 8 x) b'
  unfolding write_uint64 host_to_network64
  write_uint64-Written x h small =
      rw (p.word64.to_memory-hton x h)
        (write-Written b (big_endian 8 x) v (omega (arith, length-big_endian 8 x)))

-- A value at the front of the unread bytes is read back, and taken off.
module _ (p : Platform) (b : Buffer) (v : IsValid b) (rest : List ℕ) where
  pub retrieve_int32-front :
      (z : ℤ)
      → IsInt32 z
      → contents b ≡ big_endian 4 (to_uint32 z) ++ rest
      → (b' : Buffer) × (retrieve_int32 p b ≡ ok (z, b')) × IsValid b' × (contents b' ≡ rest)
  unfolding retrieve_int32
  retrieve_int32-front z h e =
      let image = big_endian 4 (to_uint32 z) in
      let size : length image ≡ 4 = length-big_endian 4 (to_uint32 z) in
      let (b', t, r) = retrieve-Retrieved b 4 v (front-le b 4 image rest v size e) in
      (
        b',
        rw (
          read_int32-window p b v (front-le b 4 image rest v size e),
          front-window b 4 image rest v size e,
          of_memory-big_endian p.word32 (to_uint32 z) (to_uint32-lt z),
          to_uint32-to_int32 _ (p.word32.hton-lt (to_uint32 z) (to_uint32-lt z)),
          p.word32.ntoh-hton (to_uint32 z) (to_uint32-lt z),
          to_int32-to_uint32 z h,
          t,
        ),
        r.valid,
        rest_after b 4 image rest v size e b' r,
      )

  pub retrieve_int64-front :
      (z : ℤ)
      → IsInt64 z
      → contents b ≡ big_endian 8 (to_uint64 z) ++ rest
      → (b' : Buffer) × (retrieve_int64 p b ≡ ok (z, b')) × IsValid b' × (contents b' ≡ rest)
  unfolding retrieve_int64
  retrieve_int64-front z h e =
      let image = big_endian 8 (to_uint64 z) in
      let size : length image ≡ 8 = length-big_endian 8 (to_uint64 z) in
      let (b', t, r) = retrieve-Retrieved b 8 v (front-le b 8 image rest v size e) in
      (
        b',
        rw (
          read_int64-window p b v (front-le b 8 image rest v size e),
          front-window b 8 image rest v size e,
          of_memory-big_endian p.word64 (to_uint64 z) (to_uint64-lt z),
          to_uint64-to_int64 _ (p.word64.hton-lt (to_uint64 z) (to_uint64-lt z)),
          p.word64.ntoh-hton (to_uint64 z) (to_uint64-lt z),
          to_int64-to_uint64 z h,
          t,
        ),
        r.valid,
        rest_after b 8 image rest v size e b' r,
      )

  pub retrieve_uint64-front :
      (x : ℕ)
      → x < 2 ^ 64
      → contents b ≡ big_endian 8 x ++ rest
      → (b' : Buffer) × (retrieve_uint64 p b ≡ ok (x, b')) × IsValid b' × (contents b' ≡ rest)
  unfolding retrieve_uint64
  retrieve_uint64-front x h e =
      let image = big_endian 8 x in
      let size : length image ≡ 8 = length-big_endian 8 x in
      let (b', t, r) = retrieve-Retrieved b 8 v (front-le b 8 image rest v size e) in
      (
        b',
        rw (
          read_uint64-window p b v (front-le b 8 image rest v size e),
          front-window b 8 image rest v size e,
          of_memory-big_endian p.word64 x h,
          p.word64.ntoh-hton x h,
          t,
        ),
        r.valid,
        rest_after b 8 image rest v size e b' r,
      )
