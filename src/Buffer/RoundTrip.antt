-- ===== src/Buffer/RoundTrip.antt =====
-- Integers written to a `Buffer` one after another come back in the same order.
use libpotato.Base.{
  ℕ, ◌+◌, ◌≤◌, ◌<◌, ◌^◌, ◌≡◌, ap, ◌∙◌, List, [], ◌++◌, append_assoc, append-nil, Result, ok, ◌>>=◌,
  length, arith,
}
use libpotato.Base.Int.{ℤ, to_uint32, to_uint64, IsInt32, IsInt64}
use libpotato.Endian.{Platform, big_endian, length-big_endian}
use libpotato.Buffer.{Buffer, max_size}
use libpotato.Buffer.Contents.{IsValid, contents}
use libpotato.Buffer.Ints.{
  write_int32, write_int64, write_uint64, retrieve_int32, retrieve_int64, retrieve_uint64,
}
use libpotato.Buffer.Wire.{
  write_int32-Written, write_int64-Written, write_uint64-Written, retrieve_int32-front,
  retrieve_int64-front, retrieve_uint64-front,
}

module _ (p : Platform) where
  -- An `int32_t`, an `int64_t` and a `uint64_t` written to the buffer.
  pub write_three : Buffer → ℤ → ℤ → ℕ → Result Buffer
  write_three b z y x = do b1 ← write_int32 p b z; b2 ← write_int64 p b1 y; write_uint64 p b2 x

  -- The same three read from it.
  pub retrieve_three : Buffer → Result (ℤ × ℤ × ℕ × Buffer)
  retrieve_three b = do
    (z, b1) ← retrieve_int32 p b
    (y, b2) ← retrieve_int64 p b1
    (x, b3) ← retrieve_uint64 p b2
    ok (z, y, x, b3)

  image : ℤ → ℤ → ℕ → List ℕ
  image z y x = big_endian 4 (to_uint32 z) ++ (big_endian 8 (to_uint64 y) ++ big_endian 8 x)

  write_three-image :
      (b : Buffer) (z y : ℤ) (x : ℕ)
      → IsValid b
      → x < 2 ^ 64
      → length b.buf + 20 ≤ max_size
      → (b' : Buffer) × (write_three b z y x ≡ ok b')
        × IsValid b'
        × (contents b' ≡ contents b ++ image z y x)
  unfolding write_three image
  write_three-image b z y x v h small =
      let (b1, e1, w1) = write_int32-Written p b v z (omega arith) in
      let s1 : length (big_endian 4 (to_uint32 z)) ≡ 4 = length-big_endian 4 (to_uint32 z) in
      let (b2, e2, w2) = write_int64-Written p b1 w1.valid y (omega (arith, w1.bound)) in
      let s2 : length (big_endian 8 (to_uint64 y)) ≡ 8 = length-big_endian 8 (to_uint64 y) in
      let (b3, e3, w3) =
        write_uint64-Written p b2 w2.valid x h (omega (arith, w1.bound, w2.bound)) in
      (
        b3,
        rw (e1, e2, e3),
        w3.valid,
        w3.appended
            ∙ ap (λ t. t ++ big_endian 8 x)
                (w2.appended ∙ ap (λ t. t ++ big_endian 8 (to_uint64 y)) w1.appended)
            ∙ simp append_assoc,
      )

  retrieve_three-image :
      (b : Buffer) (z y : ℤ) (x : ℕ)
      → IsValid b
      → IsInt32 z
      → IsInt64 y
      → x < 2 ^ 64
      → contents b ≡ image z y x
      → (b' : Buffer) × (retrieve_three b ≡ ok (z, y, x, b')) × IsValid b' × (contents b' ≡ [])
  unfolding retrieve_three image
  retrieve_three-image b z y x v hz hy hx e =
      let (b1, e1, v1, c1) = retrieve_int32-front p b v _ z hz e in
      let (b2, e2, v2, c2) = retrieve_int64-front p b1 v1 _ y hy c1 in
      let (b3, e3, v3, c3) = retrieve_uint64-front p b2 v2 [] x hx (simp append-nil c2) in
      (b3, rw (e1, e2, e3), v3, c3)

  -- Into a buffer with nothing to read and room to grow by 20 bytes, an `int32_t`, an `int64_t` and
  -- a `uint64_t` can be written, and the buffer then gives them back in order and is empty again.
  pub retrieve_three-write_three :
      (b : Buffer) (z y : ℤ) (x : ℕ)
      → IsValid b
      → contents b ≡ []
      → IsInt32 z
      → IsInt64 y
      → x < 2 ^ 64
      → length b.buf + 20 ≤ max_size
      → (b' : Buffer) × ((write_three b z y x >>= retrieve_three) ≡ ok (z, y, x, b'))
        × IsValid b'
        × (contents b' ≡ [])
  retrieve_three-write_three b z y x v empty hz hy hx small =
      let (b1, e1, v1, c1) = write_three-image b z y x v hx small in
      let (b2, e2, v2, c2) =
        retrieve_three-image b1 z y x v1 hz hy hx (c1 ∙ ap (λ t. t ++ image z y x) empty) in
      (b2, rw (e1, e2), v2, c2)
