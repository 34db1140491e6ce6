-- ===== src/Socket/Address.antt =====
-- class SocketAddr of core/net/socket/socket_addr.h and socket_addr.cpp, with toAddrIpv4 and
-- toAddrIpv6 of socket_utility.cpp.
use network_poller.Prelude.{
  ℕ, ◌-◌, Bool, true, false, none, some, List, ◌∷◌, ◌++◌, ◌==◌, if◌then◌else◌, length, take,
}
use network_poller.Socket.External.{Inet}

abbrev pub af_inet : ℕ
af_inet = 2

abbrev pub af_inet6 : ℕ
af_inet6 = 10

-- The character that stands before the port.
abbrev pub colon : ℕ
colon = 58

module _ (inet : Inet) where
  open inet use {Ip4, Ip6, pton4, pton6, ntop4, ntop6, htons, ntohs, decimal}

  -- The union of `sockaddr_in` and `sockaddr_in6`: the two have the family and the port in one
  -- place, and their addresses in two that do not overlap.
  pub record SocketAddr : Type 0 where
    pub family : ℕ
    pub port : ℕ
    pub addr4 : Ip4
    pub addr6 : Ip6

  unfoldable pub to_addr_ipv4 : List ℕ → ℕ → SocketAddr → Bool × SocketAddr
  to_addr_ipv4 ip port a =
      let b : SocketAddr = record a { family = af_inet; port = htons port } in
      elim (pton4 ip) [ none ↦ (false, b) | some ip4 ↦ (true, record b { addr4 = ip4 }) ]

  -- The result is compared with 0, which stands for a text that is no address.
  unfoldable pub to_addr_ipv6 : List ℕ → ℕ → SocketAddr → Bool × SocketAddr
  to_addr_ipv6 ip port a =
      let b : SocketAddr = record a { family = af_inet6; port = htons port } in
      elim (pton6 ip) [ none ↦ (true, b) | some ip6 ↦ (false, record b { addr6 = ip6 }) ]

  -- The constructor from a text; `garbage` is what stands in the object before.
  unfoldable pub new_socket_addr : List ℕ → ℕ → Bool → SocketAddr → SocketAddr
  unfolding to_addr_ipv4 to_addr_ipv6
  new_socket_addr ip port ipv6 garbage =
      if ipv6 then (to_addr_ipv6 ip port garbage).1 else (to_addr_ipv4 ip port garbage).1

  unfoldable pub set_socket_addr_inet : SocketAddr → SocketAddr → SocketAddr
  set_socket_addr_inet addr6 a = addr6

  -- `snprintf` behind a text in a buffer of 64 bytes.
  abbrev pub print_behind : List ℕ → List ℕ → List ℕ
  print_behind text more = text ++ take (64 - length text - 1) more

  unfoldable pub to_string : SocketAddr → List ℕ
  to_string a =
      if a.family == af_inet6
      then print_behind (ntop6 a.addr6) (decimal (ntohs a.port))
      else print_behind (ntop4 a.addr4) (colon ∷ decimal (ntohs a.port))
