-- ===== src/Buffer/Refine.antt =====
-- A valid `Buffer` behaves as the queue of its unread bytes.
use libpotato.Base.{
  ℕ, ◌+◌, ◌≤◌, ◌<◌, leb, true, false, ◌≡◌, refl, ap, List, [], ◌∷◌, ok, err, assertion, length,
  take, dec_lt, arith,
}
use libpotato.Buffer.{
  Buffer, peek, begin_write, retrieve, retrieve_until, max_size, retrieve_all, reset,
}
use libpotato.Buffer.Contents.{IsValid, contents, length-contents}
use libpotato.Buffer.Space.{expand_buffer-Expanded}
use libpotato.Buffer.Write.{write-Written}
use libpotato.Buffer.Read.{
  readable, Retrieved, retrieve-Retrieved, retrieve_chars-Retrieved, retrieve-assertion,
  retrieve_chars-assertion, retrieve_all_as_string-contents,
}
use libpotato.Buffer.Queue.{
  Call, put, get, skip, skip_until, get_all, skip_all, expand, call, serve, run, serve_all, demand,
  demand_all,
}

-- Both sides answer alike, and the buffer stays valid; or both fail the assertion.
pub data Agrees (b : Buffer) (c : Call) : Type 0 where
  answers :
      (out : List ℕ) (b' : Buffer)
      → call b c ≡ ok (out, b')
      → serve (contents b) c ≡ ok (out, contents b')
      → IsValid b'
      → length b'.buf ≤ length b.buf + demand c
      → Agrees b c
  fails : call b c ≡ err assertion → serve (contents b) c ≡ err assertion → Agrees b c

reset-IsValid : (b : Buffer) → IsValid b → IsValid (reset b)
unfolding reset
reset-IsValid b v = record { read_in = omega arith; write_in = omega arith; small = v.small }

length-reset : (b : Buffer) → length (reset b).buf ≤ length b.buf + 0
unfolding reset
length-reset b = omega arith

contents-reset : (b : Buffer) → contents (reset b) ≡ []
unfolding reset
contents-reset b = refl

module _ (b : Buffer) (v : IsValid b) where
  put-Agrees : (xs : List ℕ) → length b.buf + length xs ≤ max_size → Agrees b (put xs)
  unfolding call serve
  put-Agrees xs small =
      let (b', e, w) = write-Written b xs v small in
      answers [] b' (rw e) (rw w.appended) w.valid w.bound

  expand-Agrees : (n : ℕ) → length b.buf + n ≤ max_size → Agrees b (expand n)
  unfolding call serve
  expand-Agrees n small =
      let (b', e, x) = expand_buffer-Expanded b n v small in
      answers [] b' (rw e) (rw x.same) x.valid x.bound

  length-Retrieved : (n : ℕ) (b' : Buffer) → Retrieved b n b' → length b'.buf ≤ length b.buf + 0
  length-Retrieved n b' r = omega (arith, ap length r.vector)

  get-Agrees : (n : ℕ) → Agrees b (get n)
  unfolding call serve
  get-Agrees n = elim (dec_lt (readable b) n) [
    | yes h ↦ fails (retrieve_chars-assertion b n v h) (ground (arith, length-contents b v))
    | no h ↦
        let (b', e, r) = retrieve_chars-Retrieved b n v (omega arith) in
        answers (take n (contents b)) b' e (ground (arith, length-contents b v, r.rest)) r.valid
          (length-Retrieved n b' r)
  ]

  skip-Agrees : (n : ℕ) → Agrees b (skip n)
  unfolding call serve
  skip-Agrees n = elim (dec_lt (readable b) n) [
    | yes h ↦ fails (rw (retrieve-assertion b n v h)) (ground (arith, length-contents b v))
    | no h ↦
        let (b', e, r) = retrieve-Retrieved b n v (omega arith) in
        answers [] b' (rw e) (ground (arith, length-contents b v, r.rest)) r.valid
          (length-Retrieved n b' r)
  ]

  retrieve_until-retrieve : (n : ℕ) → n ≤ readable b → retrieve_until b (peek b + n) ≡ retrieve b n
  unfolding retrieve_until
  retrieve_until-retrieve n h =
      let first : leb (peek b) (peek b + n) ≡ true = ground arith in
      let second : leb (peek b + n) (begin_write b) ≡ true = ground (arith, v.read_in) in
      rw (first, second) (ap (retrieve b) (omega arith))

  retrieve_until-assertion :
      (n : ℕ) → readable b < n → retrieve_until b (peek b + n) ≡ err assertion
  unfolding retrieve_until
  retrieve_until-assertion n h =
      let first : leb (peek b) (peek b + n) ≡ true = ground arith in
      let second : leb (peek b + n) (begin_write b) ≡ false = ground (arith, v.read_in) in
      rw (first, second) refl

  skip_until-Agrees : (n : ℕ) → Agrees b (skip_until n)
  unfolding call serve
  skip_until-Agrees n = elim (dec_lt (readable b) n) [
    | yes h ↦ fails (rw (retrieve_until-assertion n h)) (ground (arith, length-contents b v))
    | no h ↦
        let (b', e, r) = retrieve-Retrieved b n v (omega arith) in
        answers [] b' (rw (retrieve_until-retrieve n (omega arith), e))
          (ground (arith, length-contents b v, r.rest)) r.valid (length-Retrieved n b' r)
  ]

  get_all-Agrees : Agrees b get_all
  unfolding call serve
  get_all-Agrees =
      answers (contents b) (reset b) (retrieve_all_as_string-contents b v) (rw (contents-reset b))
        (reset-IsValid b v) (length-reset b)

  skip_all-Agrees : Agrees b skip_all
  unfolding call serve retrieve_all
  skip_all-Agrees =
      answers [] (reset b) refl (rw (contents-reset b)) (reset-IsValid b v) (length-reset b)

pub call-Agrees :
    (b : Buffer) (c : Call) → IsValid b → length b.buf + demand c ≤ max_size → Agrees b c
call-Agrees b (put xs) v h = put-Agrees b v xs h
call-Agrees b (get n) v h = get-Agrees b v n
call-Agrees b (skip n) v h = skip-Agrees b v n
call-Agrees b (skip_until n) v h = skip_until-Agrees b v n
call-Agrees b get_all v h = get_all-Agrees b v
call-Agrees b skip_all v h = skip_all-Agrees b v
call-Agrees b (expand n) v h = expand-Agrees b v n h

-- No sequence of calls of `write`, of `retrieve` with a `char` array or with a size alone, of
-- `retrieveUntil`, `retrieveAllAsString`, `retrieveAll` and `expandBuffer` tells a valid buffer from
-- the queue of its unread bytes: the answers are the same, and a call fails its assertion in the
-- buffer exactly where it does in the queue. The sequence may not make the vector grow past
-- `max_size`.
pub run-refines :
    (b : Buffer) (cs : List Call)
    → IsValid b
    → length b.buf + demand_all cs ≤ max_size
    → run b cs ≡ serve_all (contents b) cs
unfolding run serve_all
run-refines b [] v h = refl
run-refines b (c ∷ cs) v h = after (λ b'. run-refines b' cs) (call-Agrees b c v (omega arith))
  where
    after :
        ((b' : Buffer)
          → IsValid b'
          → length b'.buf + demand_all cs ≤ max_size
          → run b' cs ≡ serve_all (contents b') cs)
        → Agrees b c
        → run b (c ∷ cs) ≡ serve_all (contents b) (c ∷ cs)
    after ih (answers out b' e s v' k) = rw (e, s, ih b' v' (omega arith))
    after ih (fails e s) = rw (e, s)
