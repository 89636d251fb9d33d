-- ===== src/IpAddress/Text.antt =====
-- What an `IpAddress` is built from, and how it is printed.
use libpotato.Base.{
  ℕ, ◌≤◌, ◌<◌, ◌^◌, ◌≡◌, refl, ap, ◌∙◌, Bool, true, false, List, ◌∷◌, ◌++◌, if◌then◌else◌, length,
  take_all, Bool-cases, inl, inr, arith,
}
use libpotato.Base.Decimal.{decimal, length-decimal}
use libpotato.Endian.{Platform, host_to_network16, network_to_host16, host_to_network32}
use libpotato.IpAddress.{
  IpAddress, Inet, address, any_address, parsed_address, port_of, ip, ip_port, ipv6,
  inaddr_loopback, inaddr_any, in6addr_any, in6addr_loopback,
}

-- `address:port`, with an IPv6 address in brackets.
abbrev pub printed : Bool → List ℕ → ℕ → List ℕ
printed true host port = b'[' ∷ (host ++ (b']' ∷ (b':' ∷ decimal port)))
printed false host port = host ++ (b':' ∷ decimal port)

module _ (p : Platform) (inet : Inet) where
  length-port : (port : ℕ) → port < 2 ^ 16 → length (decimal port) ≤ 5
  length-port port h = length-decimal port 5 (omega arith) (omega arith)

  -- For an address with a 16-bit port, `IpPort` prints the whole of `Ip` and the port: its buffer of
  -- 128 bytes cuts nothing off.
  pub ip_port-printed :
      (a : IpAddress)
      → port_of p a < 2 ^ 16
      → ip_port p inet a ≡ printed (ipv6 a) (ip p inet a) (port_of p a)
  unfolding ip_port ip
  ip_port-printed a h = elim (Bool-cases (ipv6 a)) [
    | inl six ↦ rw six (
        ap (λ t. b'[' ∷ (inet.ntop6 a.sin6_addr ++ t))
          (take_all _ (b']' ∷ (b':' ∷ decimal (port_of p a)))
            (omega (arith, length-port (port_of p a) h, inet.length-ntop6 a.sin6_addr))))
    | inr four ↦ rw four (
        ap (λ t. inet.ntop4 a.sin_addr ++ t)
          (take_all _ (b':' ∷ decimal (port_of p a))
            (omega (arith, length-port (port_of p a) h, inet.length-ntop4 a.sin_addr))))
  ]

  printed-of :
      (a : IpAddress) (v6 : Bool) (host : List ℕ) (port : ℕ)
      → ipv6 a ≡ v6
      → ip p inet a ≡ host
      → port_of p a ≡ port
      → port < 2 ^ 16
      → ip_port p inet a ≡ printed v6 host port
  printed-of a v6 host port f i q h =
      ip_port-printed a (rw q h)
      ∙ ap (λ t. printed t (ip p inet a) (port_of p a)) f
      ∙ ap (λ t. printed v6 t (port_of p a)) i
      ∙ ap (printed v6 host) q

  -- The port of a new address is the one that was given, whatever the host's byte order.
  pub port_of-any_address :
      (port : ℕ) (loop_back v6 : Bool)
      → port < 2 ^ 16
      → port_of p (any_address p port loop_back v6) ≡ port
  unfolding port_of any_address host_to_network16 network_to_host16
  port_of-any_address port loop_back true h = p.word16.ntoh-hton port (omega arith)
  port_of-any_address port loop_back false h = p.word16.ntoh-hton port (omega arith)

  -- A new wildcard or loopback address with a 16-bit port prints as the address of its family that
  -- it stands for, and its port. The loopback address of IPv4 is kept in network byte order.
  ip_port-any_address :
      (port : ℕ) (loop_back v6 : Bool)
      → port < 2 ^ 16
      → ip_port p inet (any_address p port loop_back v6)
        ≡ printed v6
            (if v6
              then inet.ntop6 (if loop_back then in6addr_loopback else in6addr_any)
              else inet.ntop4
                  (if loop_back then host_to_network32 p inaddr_loopback else inaddr_any))
            port
  unfolding any_address ip ipv6 port_of host_to_network16 network_to_host16
  ip_port-any_address port loop_back true h =
      printed-of (any_address p port loop_back true) true _ port refl refl
        (p.word16.ntoh-hton port (omega arith)) h
  ip_port-any_address port loop_back false h =
      printed-of (any_address p port loop_back false) false _ port refl refl
        (p.word16.ntoh-hton port (omega arith)) h

  -- An IPv4 address with a 16-bit port that is built from a text which `inet_pton` reads prints as
  -- what was read, with its port, and no error is logged.
  pub ip_port-parsed_address4 :
      (text : List ℕ) (a port : ℕ)
      → port < 2 ^ 16
      → inet.pton4 text ≡ address a
      → (ip_port p inet (parsed_address p inet text port false).0
          ≡ printed false (inet.ntop4 a) port)
        × ((parsed_address p inet text port false).1 ≡ false)
  unfolding parsed_address ip ipv6 port_of host_to_network16 network_to_host16
  ip_port-parsed_address4 text a port h e = (
    printed-of (parsed_address p inet text port false).0 false (inet.ntop4 a) port refl (rw e)
        (p.word16.ntoh-hton port (omega arith)) h,
    rw e,
  )
