-- ===== src/Server/System/Twice.antt =====
-- A second CloseHandler for a connection, as ReadHandler of tcp_connection.cpp makes it when a message
-- callback has closed the connection and an end of file follows.
use network_poller.Prelude.{
  ℕ, ◌≡◌, refl, ap, ◌∙◌, true, false, some, none, [], ◌∷◌, ◌++◌, ◌==◌, ==_refl, arith,
}
use network_poller.Result.{ok, fault, assertion}
use network_poller.Channel.{added_channel, delete_channel, new_channel}
use network_poller.Connection.{disconnected, is_connected}
use network_poller.Poller.Epoll.{update, update_self}
use network_poller.Server.Defs.{destroys, remove_connection_in_loop, remove_connection}
use network_poller.Server.System.Defs.{
  Peer, System, found, set_peer, set_found, close_peer, disconnect, destroy, remove_channel,
}
use network_poller.Server.System.Maps.{update_at_self}
use network_poller.Server.System.Calls.{
  update_channel-readds, remove_channel-leaves_added, remove_channel-unmapped,
}
use network_poller.Server.System.Producers.{produce-kept}

module _ (C : Type 0) (conn : ℕ) where
  module _ (t : System C) where
    -- What a second CloseHandler on the server's loop leaves.
    abbrev pub readded : Peer
    readded = record (t.peer conn) { state = disconnected; status = added_channel; wants = false }

    abbrev pub again : System C
    again = record (set_peer C conn readded (set_found C conn (some conn) t)) {
      server = record t.server {
        connections = update t.server.connections (t.server.fd_of conn) none;
        posted = t.server.posted ++ (t.server.loop_of conn, destroys conn) ∷ [];
      };
    }

    pub close_peer-again :
        (t.peer conn).status ≡ delete_channel
        → found C t conn ≡ some conn
        → (t.server.slots conn).closes ≡ true
        → t.producer t.server.server_loop ≡ some t.server.server_loop
        → t.server.loop_of conn ≡ t.server.server_loop
        → close_peer C conn t ≡ ok again
    unfolding close_peer disconnect remove_connection remove_connection_in_loop
    close_peer-again out there closes served home =
        let own_queue : (t.server.server_loop == t.server.loop_of conn) ≡ true = ground arith in
        let at_home : (t.server.loop_of conn == t.server.server_loop) ≡ true = ground arith in
        rw
          (
            update_channel-readds C conn
                (record (t.peer conn) { state = disconnected; wants = false }) t out there,
            closes,
            produce-kept C (t.server.loop_of conn) t.server.server_loop
                (set_peer C conn readded (set_found C conn (some conn) t)) served,
            own_queue,
            at_home,
          )
          refl

  -- With the channel back in epoll, ConnectDestoryed removes it once, and stops at an assertion then.
  pub destroy-twice :
      (u : System C)
      → (u.peer conn).state ≡ disconnected
      → (u.peer conn).status ≡ added_channel
      → (u.peer conn).wants ≡ false
      → found C u conn ≡ some conn
      → (v : System C) × (destroy C (u.server.loop_of conn) conn u ≡ ok v)
        × (destroy C (u.server.loop_of conn) conn v ≡ fault assertion)
  unfolding destroy
  destroy-twice u down status idle there = (
    set_peer C conn after (set_found C conn none u),
    rw (==_refl (u.server.loop_of conn), ap is_connected down)
        (remove_channel-leaves_added C conn u status there idle),
    rw (==_refl (u.server.loop_of conn), still_down) (unmapped refused),
  )
    where
      after : Peer
      after = record (u.peer conn) { status = new_channel }

      still_down : is_connected (update u.peer conn after conn).state ≡ false
      still_down =
          ap (λ (p : Peer). is_connected p.state) (update_self u.peer conn after)
          ∙ ap is_connected down

      refused : found C (set_peer C conn after (set_found C conn none u)) conn ≡ none
      refused = update_at_self u.channels (u.server.loop_of conn) (u.server.fd_of conn) none

      unmapped :
          found C (set_peer C conn after (set_found C conn none u)) conn ≡ none
          → remove_channel C conn (set_peer C conn after (set_found C conn none u))
            ≡ fault assertion
      unmapped = remove_channel-unmapped C conn (set_peer C conn after (set_found C conn none u))
