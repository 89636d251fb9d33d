-- ===== src/IpAddress.antt =====
-- potato/net/IpAddress.h and IpAddress.cpp: socket addresses of IPv4 and IPv6.
pub mod Text
mod Tests
use libpotato.Base.Int.{ℤ, pos, negsuc, ltb_ℤ}
use libpotato.Base.{
  ℕ, zero, suc, ◌+◌, ◌-◌, ◌≤◌, ◌≡◌, Bool, true, false, List, [], ◌∷◌, ◌++◌, if◌then◌else◌, length,
  take, replicate,
}
use libpotato.Base.Decimal.{decimal}
use libpotato.Endian.{Platform, host_to_network16, host_to_network32, network_to_host16}

-- `sin_family`.
pub data Family : Type 0 where
  af_inet af_inet6 : Family

-- The union of `sockaddr_in` and `sockaddr_in6`: they share the family and the port, and the bytes of
-- `sin_addr` are not those of `sin6_addr`.
pub record IpAddress : Type 0 where
  pub sin_family : Family
  pub sin_port : ℕ
  pub sin_addr : ℕ
  pub sin6_addr : List ℕ

abbrev pub inaddr_loopback : ℕ
inaddr_loopback = 0x7f000001

abbrev pub inaddr_any : ℕ
inaddr_any = 0

abbrev pub in6addr_any : List ℕ
in6addr_any = replicate 16 0

abbrev pub in6addr_loopback : List ℕ
in6addr_loopback = replicate 15 0 ++ (1 ∷ [])

-- The result of `inet_pton`: 1 and an address, 0 for a text that is no address, or -1.
pub data Parsed {ℓ} (A : Type ℓ) : Type ℓ where
  address : A → Parsed A
  not_an_address : Parsed A
  unsupported : Parsed A

-- What `inet_pton` returns.
abbrev pub ret_of {ℓ} : {A : Type ℓ} → Parsed A → ℤ
ret_of (address x) = pos 1
ret_of not_an_address = pos 0
ret_of unsupported = negsuc 0

-- What is at its last argument after it, where `before` was.
abbrev pub stored {ℓ} : {A : Type ℓ} → A → Parsed A → A
stored before (address x) = x
stored before not_an_address = before
stored before unsupported = before

-- `inet_pton` and `inet_ntop`. A text is the list of its bytes. What is printed fits the sizes
-- INET_ADDRSTRLEN and INET6_ADDRSTRLEN, and reads back as the address.
pub record Inet : Type 0 where
  pub pton4 : List ℕ → Parsed ℕ
  pub pton6 : List ℕ → Parsed (List ℕ)
  pub ntop4 : ℕ → List ℕ
  pub ntop6 : List ℕ → List ℕ
  pub length-ntop4 : (a : ℕ) → length (ntop4 a) ≤ 15
  pub length-ntop6 : (a : List ℕ) → length (ntop6 a) ≤ 45

-- The union's members before the constructor's body: zero.
abbrev blank : IpAddress
blank = record { sin_family = af_inet; sin_port = 0; sin_addr = 0; sin6_addr = replicate 16 0 }

unfoldable pub ipv6 : IpAddress → Bool
ipv6 a = elim a.sin_family [ af_inet ↦ false | af_inet6 ↦ true ]

module _ (p : Platform) where
  -- `IpAddress(port, loopBack, ipv6)`.
  unfoldable pub any_address : ℕ → Bool → Bool → IpAddress
  any_address port loop_back ipv6 =
      let a : IpAddress = record blank {
        sin_family = if ipv6 then af_inet6 else af_inet;
        sin_port = host_to_network16 p port;
      } in
      if ipv6
      then record a { sin6_addr = if loop_back then in6addr_loopback else in6addr_any }
      else record a {
        sin_addr = if loop_back then host_to_network32 p inaddr_loopback else inaddr_any;
      }

  -- `IpAddress(ip, port, ipv6)`: the address, and whether an error is logged. Only `ip.data()` is
  -- passed on: `bytes` is the bytes that stand there, up to the next 0, wherever the slice ends.
  unfoldable pub parsed_address : Inet → (bytes : List ℕ) → ℕ → Bool → IpAddress × Bool
  parsed_address inet bytes port ipv6 =
      let a : IpAddress = record blank {
        sin_family = if ipv6 then af_inet6 else af_inet;
        sin_port = host_to_network16 p port;
      } in
      if ipv6
      then (let parsed = inet.pton6 bytes in
          (record a { sin6_addr = stored a.sin6_addr parsed }, ltb_ℤ (ret_of parsed) (pos 0)))
      else (let parsed = inet.pton4 bytes in
          (record a { sin_addr = stored a.sin_addr parsed }, ltb_ℤ (ret_of parsed) (pos 0)))

  -- `Port()`.
  unfoldable pub port_of : IpAddress → ℕ
  port_of a = network_to_host16 p a.sin_port

  -- `Ip()`. The buffer's 128 bytes are enough for every address.
  unfoldable pub ip : Inet → IpAddress → List ℕ
  ip inet a = if ipv6 a then inet.ntop6 a.sin6_addr else inet.ntop4 a.sin_addr

  -- `snprintf` into the bytes that are left of the buffer's 128, the last for the zero.
  abbrev print_at_end : List ℕ → List ℕ → List ℕ
  print_at_end buf text = buf ++ take (128 - length buf - 1) text

  -- `IpPort()`.
  unfoldable pub ip_port : Inet → IpAddress → List ℕ
  ip_port inet a =
      if ipv6 a
      then print_at_end (b'[' ∷ inet.ntop6 a.sin6_addr) (b']' ∷ (b':' ∷ decimal (port_of a)))
      else print_at_end (inet.ntop4 a.sin_addr) (b':' ∷ decimal (port_of a))
