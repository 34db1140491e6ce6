-- ===== src/Socket/Object.antt =====
-- class Socket of core/net/socket/socket.h and socket.cpp: a descriptor, and the calls of
-- socket_utility.cpp on it.
use network_poller.Prelude.{ℕ, Bool, Option}
use network_poller.Socket.External.{Sockets}
use network_poller.Socket.Defs

pub record Socket : Type 0 where
  pub fd : ℕ

module _ (sockets : Sockets) where
  open sockets use {State}

  -- The destructor.
  unfoldable pub close_socket : Socket → State → State
  unfolding Defs.close
  close_socket socket = Defs.close sockets socket.fd

  unfoldable pub socket_bind : Socket → ℕ → State → Bool × State
  unfolding Defs.bind
  socket_bind socket = Defs.bind sockets socket.fd

  unfoldable pub socket_listen : (somaxconn : ℕ) → Socket → State → Bool × State
  unfolding Defs.listen
  socket_listen somaxconn socket = Defs.listen sockets somaxconn socket.fd

  unfoldable pub socket_accept : (log : ℕ → ℕ) → Socket → ℕ → State → Option ℕ × (ℕ × State)
  unfolding Defs.accept
  socket_accept log socket = Defs.accept sockets log socket.fd

  unfoldable pub socket_set_tcp_no_delay : Socket → Bool → State → Bool × State
  unfolding Defs.set_tcp_no_delay
  socket_set_tcp_no_delay socket = Defs.set_tcp_no_delay sockets socket.fd

  unfoldable pub socket_set_keep_alived : Socket → Bool → State → Bool × State
  unfolding Defs.set_keep_alived
  socket_set_keep_alived socket = Defs.set_keep_alived sockets socket.fd

  unfoldable pub socket_set_reuse_addr : Socket → Bool → State → Bool × State
  unfolding Defs.set_reuse_addr
  socket_set_reuse_addr socket = Defs.set_reuse_addr sockets socket.fd

  unfoldable pub socket_set_reuse_port : Socket → Bool → State → Bool × State
  unfolding Defs.set_reuse_port
  socket_set_reuse_port socket = Defs.set_reuse_port sockets socket.fd

  unfoldable pub socket_shutdown_write : Socket → State → State
  unfolding Defs.shutdown_write
  socket_shutdown_write socket = Defs.shutdown_write sockets socket.fd
