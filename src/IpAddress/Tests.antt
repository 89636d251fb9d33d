-- ===== src/IpAddress/Tests.antt =====
-- The theorems on addresses at concrete inputs, with conversions that know one address.
use libpotato.Base.{ℕ, ◌≡◌, refl, false, List, [], ◌∷◌, arith}
use libpotato.Endian.Little.{x86}
use libpotato.IpAddress.{Inet, Parsed, address, not_an_address, parsed_address, ip_port}
use libpotato.IpAddress.Text.{printed, ip_port-parsed_address4}

abbrev read4 : List ℕ → Parsed ℕ
read4 [] = not_an_address
read4 (c ∷ cs) = address c

abbrev small_inet : Inet
small_inet = record {
  pton4 = read4;
  pton6 = λ text. not_an_address;
  ntop4 = λ a. a ∷ [];
  ntop6 = λ a. b':' ∷ b':' ∷ b'1' ∷ [];
  length-ntop4 = λ a. omega arith;
  length-ntop6 = λ a. omega arith;
}

ip_port-parsed_address4_example :
    (ip_port x86 small_inet (parsed_address x86 small_inet (65 ∷ []) 80 false).0
      ≡ printed false (65 ∷ []) 80)
    × ((parsed_address x86 small_inet (65 ∷ []) 80 false).1 ≡ false)
ip_port-parsed_address4_example =
    ip_port-parsed_address4 x86 small_inet (65 ∷ []) 65 80 (omega arith) refl
