-- ===== src/Endian.antt =====
-- potato/utils/Endian.h: conversions between the host's byte order and the network's. The macros
-- `potato_htons`, `potato_ntohl` and so on stand for functions of <endian.h> or <winsock2.h>.
pub mod Little
use libpotato.Base.{
  ℕ, zero, suc, ◌^◌, ◌/◌, ◌%◌, ◌<◌, ◌≡◌, sym, ap, ◌∙◌, List, [], ◌∷◌, ◌++◌, length, length-append,
  arith,
}

-- The `n` low bytes of a number, the high byte first.
unfoldable pub big_endian : ℕ → ℕ → List ℕ
big_endian zero x = []
big_endian (suc n) x = big_endian n (x / 256) ++ (x % 256 ∷ [])

-- The unsigned words of `width` bytes on the machine: their bytes in memory, and the system's two
-- conversions. The laws are what the system documents: in memory a converted word is the big-endian
-- bytes of the word, and one conversion undoes the other.
pub record ByteOrder (width : ℕ) : Type 0 where
  pub to_memory : ℕ → List ℕ
  pub of_memory : List ℕ → ℕ
  pub hton : ℕ → ℕ
  pub ntoh : ℕ → ℕ
  pub of_memory-to_memory : (x : ℕ) → x < 256 ^ width → of_memory (to_memory x) ≡ x
  pub hton-lt : (x : ℕ) → x < 256 ^ width → hton x < 256 ^ width
  pub ntoh-hton : (x : ℕ) → x < 256 ^ width → ntoh (hton x) ≡ x
  pub to_memory-hton : (x : ℕ) → x < 256 ^ width → to_memory (hton x) ≡ big_endian width x

pub record Platform : Type 0 where
  pub word16 : ByteOrder 2
  pub word32 : ByteOrder 4
  pub word64 : ByteOrder 8

module _ (p : Platform) where
  unfoldable pub host_to_network16 : ℕ → ℕ
  host_to_network16 x = p.word16.hton x

  unfoldable pub host_to_network32 : ℕ → ℕ
  host_to_network32 x = p.word32.hton x

  unfoldable pub host_to_network64 : ℕ → ℕ
  host_to_network64 x = p.word64.hton x

  unfoldable pub network_to_host16 : ℕ → ℕ
  network_to_host16 x = p.word16.ntoh x

  unfoldable pub network_to_host32 : ℕ → ℕ
  network_to_host32 x = p.word32.ntoh x

  unfoldable pub network_to_host64 : ℕ → ℕ
  network_to_host64 x = p.word64.ntoh x

pub length-big_endian : (n x : ℕ) → length (big_endian n x) ≡ n
unfolding big_endian
length-big_endian zero x = omega arith
length-big_endian (suc n) x =
    omega
      (arith, length-append (big_endian n (x / 256)) (x % 256 ∷ []), length-big_endian n (x / 256))

-- A word read from its big-endian bytes is the converted word.
pub of_memory-big_endian :
    {width : ℕ} (o : ByteOrder width) (x : ℕ)
    → x < 256 ^ width
    → o.of_memory (big_endian width x) ≡ o.hton x
of_memory-big_endian o x h =
    ap o.of_memory (sym (o.to_memory-hton x h)) ∙ o.of_memory-to_memory (o.hton x) (o.hton-lt x h)
