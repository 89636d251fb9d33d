-- ===== src/Buffer/Tests.antt =====
-- Small buffers: tests of the definitions, and the theorems at concrete inputs.
use libpotato.Base.{◌≡◌, refl, List, [], ◌∷◌, ok, err, assertion, replicate, arith, ◌>>=◌}
use libpotato.Base.Int.{pos, negsuc, to_uint32}
use libpotato.Endian.{big_endian}
use libpotato.Endian.Little.{x86}
use libpotato.Buffer.{Buffer, write, expand_buffer, retrieve_void}
use libpotato.Buffer.Contents.{IsValid, contents}
use libpotato.Buffer.Read.{retrieve_void-assertion}
use libpotato.Buffer.RoundTrip.{write_three, retrieve_three, retrieve_three-write_three}
use libpotato.Buffer.Queue.{Call, put, get, skip, get_all, expand, run, serve_all}
use libpotato.Buffer.Refine.{run-refines}

-- Two bytes read, three to read and one free.
abbrev used : Buffer
used = record { buf = 1 ∷ 2 ∷ 3 ∷ 4 ∷ 5 ∷ 0 ∷ []; cur_read_index = 2; cur_write_index = 5 }

abbrev drained : Buffer
drained = record { buf = replicate 4 0; cur_read_index = 0; cur_write_index = 0 }

used-IsValid : IsValid used
used-IsValid = record { read_in = omega arith; write_in = omega arith; small = omega arith }

drained-IsValid : IsValid drained
drained-IsValid = record { read_in = omega arith; write_in = omega arith; small = omega arith }

-- The write compacts the vector: there are three free bytes in all.
write_compacts :
    write used (8 ∷ 9 ∷ [])
    ≡ ok (record { buf = 3 ∷ 4 ∷ 5 ∷ 8 ∷ 9 ∷ 0 ∷ []; cur_read_index = 0; cur_write_index = 5 })
unfolding write expand_buffer
write_compacts = refl

-- Here it grows the vector.
write_grows :
    write used (7 ∷ 8 ∷ 9 ∷ [])
    ≡ ok (record {
      buf = 1 ∷ 2 ∷ 3 ∷ 4 ∷ 5 ∷ 7 ∷ 8 ∷ 9 ∷ 0 ∷ [];
      cur_read_index = 2;
      cur_write_index = 8;
    })
unfolding write expand_buffer
write_grows = refl

abbrev script : List Call
script = put (6 ∷ 7 ∷ []) ∷ get 2 ∷ expand 9 ∷ skip 1 ∷ get_all ∷ get 1 ∷ []

run-refines_example : run used script ≡ serve_all (3 ∷ 4 ∷ 5 ∷ []) script
run-refines_example = run-refines used script used-IsValid (omega arith)

retrieve_void-assertion_example : retrieve_void used 2 ≡ err assertion
retrieve_void-assertion_example =
    retrieve_void-assertion used 2 used-IsValid (omega arith) (omega arith) (omega arith)

minus_two_on_the_wire : big_endian 4 (to_uint32 (negsuc 1)) ≡ 255 ∷ 255 ∷ 255 ∷ 254 ∷ []
unfolding big_endian to_uint32
minus_two_on_the_wire = refl

retrieve_three-write_three_example :
    (b : Buffer) × ((write_three x86 drained (negsuc 4) (pos 70000) 9 >>= retrieve_three x86)
      ≡ ok (negsuc 4, pos 70000, 9, b))
    × IsValid b
    × (contents b ≡ [])
retrieve_three-write_three_example =
    retrieve_three-write_three x86 drained (negsuc 4) (pos 70000) 9 drained-IsValid refl
      (omega arith) (omega arith) (omega arith) (omega arith)
