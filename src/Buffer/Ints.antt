-- ===== src/Buffer/Ints.antt =====
-- The integers of a `Buffer`: `writeInt32`, `readInt32`, `retrieveInt32` and their 64-bit versions.
use libpotato.Base.{ℕ, ◌+◌, Result, ok, assertion, guard, ◌>>=◌, ◌>>◌, leb}
use libpotato.Base.Int.{ℤ, to_uint32, to_int32, to_uint64, to_int64}
use libpotato.Endian.{
  Platform, host_to_network32, host_to_network64, network_to_host32, network_to_host64,
}
use libpotato.Buffer.{Buffer, copy_from, readable_bytes, write, retrieve, peek}

module _ (p : Platform) where
  -- The bytes of an `int32_t` in memory are those of the `uint32_t` with the same bits.
  unfoldable pub write_int32 : Buffer → ℤ → Result Buffer
  write_int32 b value =
      let big = to_int32 (host_to_network32 p (to_uint32 value)) in
      write b (p.word32.to_memory (to_uint32 big))

  unfoldable pub write_int64 : Buffer → ℤ → Result Buffer
  write_int64 b value =
      let big = to_int64 (host_to_network64 p (to_uint64 value)) in
      write b (p.word64.to_memory (to_uint64 big))

  unfoldable pub write_uint64 : Buffer → ℕ → Result Buffer
  write_uint64 b value = let big = host_to_network64 p value in write b (p.word64.to_memory big)

  unfoldable pub read_int32 : Buffer → Result ℤ
  unfolding readable_bytes copy_from
  read_int32 b = do
    n ← readable_bytes b
    guard (leb 4 n) assertion
    image ← copy_from b.buf (peek b) (peek b + 4)
    let big = to_int32 (p.word32.of_memory image)
    ok (to_int32 (network_to_host32 p (to_uint32 big)))

  unfoldable pub read_int64 : Buffer → Result ℤ
  unfolding readable_bytes copy_from
  read_int64 b = do
    n ← readable_bytes b
    guard (leb 8 n) assertion
    image ← copy_from b.buf (peek b) (peek b + 8)
    let big = to_int64 (p.word64.of_memory image)
    ok (to_int64 (network_to_host64 p (to_uint64 big)))

  unfoldable pub read_uint64 : Buffer → Result ℕ
  unfolding readable_bytes copy_from
  read_uint64 b = do
    n ← readable_bytes b
    guard (leb 8 n) assertion
    image ← copy_from b.buf (peek b) (peek b + 8)
    ok (network_to_host64 p (p.word64.of_memory image))

  unfoldable pub retrieve_int32 : Buffer → Result (ℤ × Buffer)
  retrieve_int32 b = do ret ← read_int32 b; b' ← retrieve b 4; ok (ret, b')

  unfoldable pub retrieve_int64 : Buffer → Result (ℤ × Buffer)
  retrieve_int64 b = do ret ← read_int64 b; b' ← retrieve b 8; ok (ret, b')

  unfoldable pub retrieve_uint64 : Buffer → Result (ℕ × Buffer)
  retrieve_uint64 b = do ret ← read_uint64 b; b' ← retrieve b 8; ok (ret, b')
