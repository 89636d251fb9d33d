-- ===== src/Buffer/Queue.antt =====
-- What a `Buffer` promises: a queue of bytes. The calls that a client makes, and the queue's answers.
use libpotato.Base.{
  ℕ, ◌+◌, List, [], ◌∷◌, ◌++◌, Result, ok, err, assertion, ◌>>=◌, if◌then◌else◌, leb, length, take,
  drop,
}
use libpotato.Buffer.{
  Buffer, peek, retrieve_until, write, retrieve, retrieve_chars, retrieve_all_as_string,
  retrieve_all, expand_buffer,
}

-- The calls `write`, `retrieve(char *, size_t)`, `retrieve(size_t)`, `retrieveUntil(peek() + n)`,
-- `retrieveAllAsString`, `retrieveAll` and `expandBuffer`. `hasWritten` is not one of them, which counts
-- bytes that its caller has put into the free space; nor is `retrieve(void *, size_t)`, which takes
-- its bytes from the queue twice.
pub data Call : Type 0 where
  put : List ℕ → Call
  get : ℕ → Call
  skip : ℕ → Call
  skip_until : ℕ → Call
  get_all : Call
  skip_all : Call
  expand : ℕ → Call

-- A call on the buffer: the bytes that it returns, and the buffer after it.
unfoldable pub call : Buffer → Call → Result (List ℕ × Buffer)
call b (put xs) = do b' ← write b xs; ok ([], b')
call b (get n) = retrieve_chars b n
call b (skip n) = do b' ← retrieve b n; ok ([], b')
call b (skip_until n) = do b' ← retrieve_until b (peek b + n); ok ([], b')
call b get_all = retrieve_all_as_string b
call b skip_all = ok ([], retrieve_all b)
call b (expand n) = do b' ← expand_buffer b n; ok ([], b')

-- The same call on a queue of bytes, oldest first.
unfoldable pub serve : List ℕ → Call → Result (List ℕ × List ℕ)
serve q (put xs) = ok ([], q ++ xs)
serve q (get n) = if leb n (length q) then ok (take n q, drop n q) else err assertion
serve q (skip n) = if leb n (length q) then ok ([], drop n q) else err assertion
serve q (skip_until n) = if leb n (length q) then ok ([], drop n q) else err assertion
serve q get_all = ok (q, [])
serve q skip_all = ok ([], [])
serve q (expand n) = ok ([], q)

-- The answers to a sequence of calls, up to a failed assertion.
unfoldable pub run : Buffer → List Call → Result (List (List ℕ))
run b [] = ok []
run b (c ∷ cs) = do (out, b') ← call b c; outs ← run b' cs; ok (out ∷ outs)

unfoldable pub serve_all : List ℕ → List Call → Result (List (List ℕ))
serve_all q [] = ok []
serve_all q (c ∷ cs) = do (out, q') ← serve q c; outs ← serve_all q' cs; ok (out ∷ outs)

-- By how much a call can make the vector grow.
abbrev pub demand : Call → ℕ
demand (put xs) = length xs
demand (expand n) = n
demand (get n) = 0
demand (skip n) = 0
demand (skip_until n) = 0
demand get_all = 0
demand skip_all = 0

abbrev pub demand_all : List Call → ℕ
demand_all [] = 0
demand_all (c ∷ cs) = demand c + demand_all cs
