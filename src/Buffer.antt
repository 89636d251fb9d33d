-- ===== src/Buffer.antt =====
-- potato/net/Buffer.h and Buffer.cpp: a byte buffer with a read index and a write index over one
-- `std::vector<char>`. Reads and writes of 32- and 64-bit integers are in Buffer/Ints.
pub mod Contents
mod Tests
pub mod Space
pub mod RoundTrip
pub mod Ints
pub mod Wire
pub mod Queue
pub mod Refine
pub mod Read
pub mod Write
use libpotato.Base.{
  ℕ, ◌+◌, ◌-◌, ◌^◌, ◌%◌, ◌&&◌, List, ◌++◌, Result, ok, err, assertion, out_of_range, length_error,
  guard, ◌>>=◌, ◌>>◌, if◌then◌else◌, ltb, leb, ◌==◌, length, take, drop, replicate,
}

-- `size_t` addition.
abbrev pub add_size : ℕ → ℕ → ℕ
add_size a b = (a + b) % 2 ^ 64

-- `std::vector<char>::max_size()`.
abbrev pub max_size : ℕ
max_size = 2 ^ 63 - 1

-- A byte is a number: the buffer only moves bytes.
pub record Buffer : Type 0 where
  pub buf : List ℕ
  pub cur_read_index : ℕ
  pub cur_write_index : ℕ

-- The constructor.
unfoldable pub init : Buffer
init = record { buf = replicate 4096 0; cur_read_index = 0; cur_write_index = 0 }

-- `std::copy` of `xs` to index `i` of the vector. Out of the vector it is undefined behaviour.
unfoldable pub copy_to : List ℕ → ℕ → List ℕ → Result (List ℕ)
copy_to buf i xs =
    if leb (i + length xs) (length buf)
    then ok (take i buf ++ (xs ++ drop (i + length xs) buf))
    else err out_of_range

-- `std::copy` of the bytes from index `i` up to index `j` out of the vector.
unfoldable pub copy_from : List ℕ → ℕ → ℕ → Result (List ℕ)
copy_from buf i j =
    if leb i j && leb j (length buf) then ok (take (j - i) (drop i buf)) else err out_of_range

-- `std::vector::resize`: new bytes are zero.
unfoldable pub resize : List ℕ → ℕ → Result (List ℕ)
resize buf n =
    if ltb max_size n then err length_error else ok (take n buf ++ replicate (n - length buf) 0)

unfoldable pub writeable_bytes : Buffer → Result ℕ
writeable_bytes b = do
  guard (leb b.cur_write_index (length b.buf)) assertion
  ok (length b.buf - b.cur_write_index)

unfoldable pub readable_bytes : Buffer → Result ℕ
readable_bytes b = do
  guard (leb b.cur_read_index b.cur_write_index) assertion
  ok (b.cur_write_index - b.cur_read_index)

-- Pointers into the vector are indices.
abbrev pub peek : Buffer → ℕ
peek b = b.cur_read_index

abbrev pub begin_write : Buffer → ℕ
begin_write b = b.cur_write_index

unfoldable pub reset : Buffer → Buffer
reset b = record b { cur_read_index = 0; cur_write_index = 0 }

unfoldable pub has_written : Buffer → ℕ → Result Buffer
unfolding writeable_bytes
has_written b len = do
  n ← writeable_bytes b
  guard (leb len n) assertion
  ok (record b { cur_write_index = add_size b.cur_write_index len })

unfoldable pub expand_buffer : Buffer → ℕ → Result Buffer
unfolding writeable_bytes readable_bytes copy_to copy_from resize
expand_buffer b len = do
  n ← writeable_bytes b
  if ltb len (add_size n b.cur_read_index)
      then (do
        live ← copy_from b.buf b.cur_read_index b.cur_write_index
        moved ← copy_to b.buf 0 live
        k ← readable_bytes b
        ok (record { buf = moved; cur_read_index = 0; cur_write_index = k }))
      else (do grown ← resize b.buf (add_size (length b.buf) len); ok (record b { buf = grown }))

unfoldable pub write : Buffer → List ℕ → Result Buffer
unfolding writeable_bytes copy_to
write b data_bytes = do
  n ← writeable_bytes b
  b' ← if ltb n (length data_bytes) then expand_buffer b (length data_bytes) else ok b
  written ← copy_to b'.buf b'.cur_write_index data_bytes
  ok (record b' {
    buf = written;
    cur_write_index = add_size b'.cur_write_index (length data_bytes);
  })

-- `read(char *data, size_t len)`: the bytes that go to `data`.
unfoldable pub read : Buffer → ℕ → Result (List ℕ)
unfolding readable_bytes copy_from
read b len = do
  n ← readable_bytes b
  guard (leb len n) assertion
  copy_from b.buf b.cur_read_index (b.cur_read_index + len)

-- `readAsSlice`: the slice's bytes.
unfoldable pub read_as_slice : Buffer → Result (List ℕ)
unfolding readable_bytes copy_from
read_as_slice b = do n ← readable_bytes b; copy_from b.buf b.cur_read_index (b.cur_read_index + n)

-- `retrieve(size_t len)`.
unfoldable pub retrieve : Buffer → ℕ → Result Buffer
unfolding readable_bytes reset
retrieve b len = do
  n ← readable_bytes b
  guard (leb len n) assertion
  ok (if len == n then reset b else record b { cur_read_index = add_size b.cur_read_index len })

-- `retrieve(char *buf, size_t len)`.
unfoldable pub retrieve_chars : Buffer → ℕ → Result (List ℕ × Buffer)
retrieve_chars b len = do out ← read b len; b' ← retrieve b len; ok (out, b')

-- `retrieve(void *buf, size_t len)`.
unfoldable pub retrieve_void : Buffer → ℕ → Result (List ℕ × Buffer)
retrieve_void b len = do (out, b') ← retrieve_chars b len; b'' ← retrieve b' len; ok (out, b'')

-- `retrieveUntil(const char *end)`.
unfoldable pub retrieve_until : Buffer → ℕ → Result Buffer
retrieve_until b end = do
  guard (leb (peek b) end) assertion
  guard (leb end (begin_write b)) assertion
  retrieve b (end - peek b)

-- `retrieveAllAsString`: the slice is read after the indices are reset, which leaves its bytes.
unfoldable pub retrieve_all_as_string : Buffer → Result (List ℕ × Buffer)
retrieve_all_as_string b = do slice ← read_as_slice b; ok (slice, reset b)

unfoldable pub retrieve_all : Buffer → Buffer
unfolding reset
retrieve_all b = reset b
