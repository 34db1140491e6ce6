-- ===== src/Socket/Text.antt =====
-- What ToString of socket_addr.cpp prints of an address that was made from a text.
use network_poller.Prelude.{
  ℕ, ◌-◌, ◌<◌, ◌≡◌, ap, true, false, none, some, List, ◌∷◌, ◌++◌, arith, length, take_all,
}
use network_poller.Socket.External.{Inet}
use network_poller.Socket.Address.{
  SocketAddr, to_addr_ipv4, to_addr_ipv6, new_socket_addr, print_behind, to_string, colon,
}

module _ (inet : Inet) where
  open inet use {
    Ip4, Ip6, pton4, pton6, ntop4, ntop6, ntop4_length, ntop6_length, htons, ntohs, ntohs-htons,
    decimal, decimal_length,
  }

  behind4 :
      (a : Ip4) (port : ℕ)
      → port < 65536
      → print_behind inet (ntop4 a) (colon ∷ decimal (ntohs (htons port)))
        ≡ ntop4 a ++ colon ∷ decimal port
  behind4 a port small = rw (ntohs-htons port small) (
      ap (λ xs. ntop4 a ++ xs)
        (take_all (64 - length (ntop4 a) - 1) (colon ∷ decimal port)
          (omega (arith, ntop4_length a, decimal_length port small))))

  behind6 :
      (a : Ip6) (port : ℕ)
      → port < 65536
      → print_behind inet (ntop6 a) (decimal (ntohs (htons port))) ≡ ntop6 a ++ decimal port
  behind6 a port small = rw (ntohs-htons port small) (
      ap (λ xs. ntop6 a ++ xs)
        (take_all (64 - length (ntop6 a) - 1) (decimal port)
          (omega (arith, ntop6_length a, decimal_length port small))))

  -- For a port of 16 bits, the buffer of ToString is large enough. An address from an IPv4 text
  -- prints as the library writes it, then a colon and the port; one from an IPv6 text has no
  -- separator before the port. An address from a text that the library does not read prints whatever
  -- stood in the object before, with the port, and with the separator of its family.
  pub new_socket_addr-to_string :
      (text4 text6 bad4 bad6 : List ℕ) (a : Ip4) (b : Ip6) (port : ℕ) (garbage : SocketAddr inet)
      → port < 65536
      → pton4 text4 ≡ some a
      → pton6 text6 ≡ some b
      → pton4 bad4 ≡ none
      → pton6 bad6 ≡ none
      → (to_string inet (new_socket_addr inet text4 port false garbage)
          ≡ ntop4 a ++ colon ∷ decimal port)
        × (to_string inet (new_socket_addr inet text6 port true garbage) ≡ ntop6 b ++ decimal port)
        × (to_string inet (new_socket_addr inet bad4 port false garbage)
            ≡ ntop4 garbage.addr4 ++ colon ∷ decimal port)
        × (to_string inet (new_socket_addr inet bad6 port true garbage)
            ≡ ntop6 garbage.addr6 ++ decimal port)
  unfolding to_string new_socket_addr to_addr_ipv4 to_addr_ipv6
  new_socket_addr-to_string text4 text6 bad4 bad6 a b port garbage small read4 read6 unread4
        unread6 =
      (
        rw (read4, to_addr_ipv4) (behind4 a port small),
        rw (read6, to_addr_ipv6) (behind6 b port small),
        rw (unread4, to_addr_ipv4) (behind4 garbage.addr4 port small),
        rw (unread6, to_addr_ipv6) (behind6 garbage.addr6 port small),
      )
