-- ===== src/Socket/Defs.antt =====
-- core/net/socket/socket_utility.cpp and socket.cpp. Of each call that can fail, the Boolean is
-- whether it logs an error.
use network_poller.Prelude.{
  ℕ, Bool, true, false, ◌||◌, Option, none, some, List, ◌==◌, if◌then◌else◌,
}
use network_poller.Socket.External.{Outcome, failed, returned, Name, Sockets}

abbrev pub tcp_nodelay : Name
tcp_nodelay = record { level = 6; option = 1 }

abbrev pub so_keepalive : Name
so_keepalive = record { level = 1; option = 9 }

abbrev pub so_reuseaddr : Name
so_reuseaddr = record { level = 1; option = 2 }

abbrev pub so_reuseport : Name
so_reuseport = record { level = 1; option = 15 }

abbrev pub so_error : Name
so_error = record { level = 1; option = 4 }

abbrev pub is_failed : Outcome → Bool
is_failed (failed errno) = true
is_failed (returned value) = false

-- EAGAIN, ECONNABORTED, EINTR, EPROTO, EPERM and EMFILE, the first group of labels in `Accept`.
abbrev pub is_expected : ℕ → Bool
is_expected errno =
    errno == 11 || errno == 103 || errno == 4 || errno == 71 || errno == 1 || errno == 24

module _ (sockets : Sockets) where
  open sockets use {State, setsockopt, getsockopt, accept4}

  abbrev set_option : Name → ℕ → Bool → State → Bool × State
  set_option name fd on s =
      let (outcome, s') = setsockopt fd name (if on then 1 else 0) s in (is_failed outcome, s')

  unfoldable pub set_tcp_no_delay : ℕ → Bool → State → Bool × State
  set_tcp_no_delay = set_option tcp_nodelay

  unfoldable pub set_keep_alived : ℕ → Bool → State → Bool × State
  set_keep_alived = set_option so_keepalive

  unfoldable pub set_reuse_addr : ℕ → Bool → State → Bool × State
  set_reuse_addr = set_option so_reuseaddr

  unfoldable pub set_reuse_port : ℕ → Bool → State → Bool × State
  set_reuse_port = set_option so_reuseport

  -- CreateNonblocking, with whether it logs: it does for a descriptor 0 as well.
  unfoldable pub create_nonblocking : ℕ → State → Outcome × (Bool × State)
  create_nonblocking family s =
      let (outcome, s') = sockets.create family s in
      (outcome, (elim outcome [ failed errno ↦ true | returned fd ↦ fd == 0 ], s'))

  -- Connect logs nothing.
  unfoldable pub connect : ℕ → ℕ → State → Outcome × State
  connect fd addr s = sockets.connect fd addr s

  unfoldable pub close : ℕ → State → State
  close fd s = sockets.close fd s

  unfoldable pub shutdown_write : ℕ → State → State
  shutdown_write fd s = sockets.shutdown_write fd s

  -- An address is passed on as it is.
  unfoldable pub bind : ℕ → ℕ → State → Bool × State
  bind fd addr s = let (outcome, s') = sockets.bind fd addr s in (is_failed outcome, s')

  -- Listen; `somaxconn` is the header's SOMAXCONN.
  unfoldable pub listen : (somaxconn : ℕ) → ℕ → State → Bool × State
  listen somaxconn fd s =
      let (outcome, s') = sockets.listen fd somaxconn s in (is_failed outcome, s')

  -- Accept: what it returns, and `errno` after it. The cases that log leave it to the logger, whose
  -- effect on it is `log`.
  unfoldable pub accept : (log : ℕ → ℕ) → ℕ → ℕ → State → Option ℕ × (ℕ × State)
  accept log fd errno s =
      let (outcome, s') = accept4 fd s in
      elim outcome [
        | returned connection ↦ (some connection, (errno, s'))
        | failed origin ↦ (none, (if is_expected origin then origin else log origin, s'))
      ]

  -- SocketError.
  unfoldable pub socket_error : ℕ → State → ℕ × State
  socket_error fd s =
      let (outcome, s') = getsockopt fd so_error s in
      elim outcome [ returned value ↦ (value, s') | failed errno ↦ (errno, s') ]

  unfoldable pub read : ℕ → (room : ℕ) → State → Outcome × State
  read fd room s = sockets.read fd room s

  unfoldable pub read_v : ℕ → (rooms : List ℕ) → State → Outcome × State
  read_v fd rooms s = sockets.readv fd rooms s

  unfoldable pub write : ℕ → (bytes : List ℕ) → State → Outcome × State
  write fd bytes s = sockets.write fd bytes s

  -- The address that a call gives, or the one of zeros, with whether it logs an error.
  abbrev address_from : Outcome × State → ℕ × (Bool × State)
  address_from (failed errno, s) = (0, (true, s))
  address_from (returned address, s) = (address, (false, s))

  unfoldable pub get_peer_addr : ℕ → State → ℕ × (Bool × State)
  get_peer_addr fd s = address_from (sockets.getpeername fd s)

  unfoldable pub get_local_addr : ℕ → State → ℕ × (Bool × State)
  get_local_addr fd s = address_from (sockets.getsockname fd s)
