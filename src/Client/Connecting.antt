-- ===== src/Client/Connecting.antt =====
-- TcpClient::Connect of tcp_client.cpp with the connector of tcp_connector.cpp.
use network_poller.Prelude.{ℕ, ◌≡◌, refl, ap, ◌∙◌, true, false, if◌then◌else◌, ==_refl}
use network_poller.Result.{Result, ok, ◌>>=◌}
use network_poller.Channel.{new_channel}
use network_poller.Poller.Epoll.{Epoll, HasRoom}
use network_poller.Loop.External.{TaskQueue}
use network_poller.Loop.{run_in_loop, is_in_loop_thread, Registry, beside-Registry, IsUnused}
use network_poller.Connector
use network_poller.Connector.{
  Job, starts, Connector, disconnected, connecting, is_disconnected, Attempt, errno_after, goes_on,
  Net, set_state, start_in_loop, exec, Trying, Watching, start_in_loop-Watching,
}
use network_poller.Client.Defs.{ConnectorCalls, Client, connect}

module _ (e : Epoll) (tq : TaskQueue Job) (this_thread : ℕ)
    (handle : ℕ → Net e tq → Result (Net e tq)) (attempt : Attempt) where
  -- The calls of TcpConnector, from a thread and with what its attempt gets; the exchange of `Start`
  -- does not fail without a reason.
  abbrev pub connector_calls : ConnectorCalls
  connector_calls = record {
    State = Net e tq;
    set_new_connection_cb = λ w. record w { rest = Connector.set_new_connection_cb w.rest };
    start = Connector.start e tq this_thread handle false attempt;
    stop = Connector.stop e tq this_thread handle attempt;
  }

  module _ (room : HasRoom e) (C : Type 0) where
    at_once :
        (w : Net e tq)
        → this_thread ≡ w.thread_id
        → run_in_loop e tq (exec e tq this_thread attempt) handle this_thread starts w
          ≡ start_in_loop e tq this_thread attempt w
    unfolding run_in_loop is_in_loop_thread exec
    at_once w here = rw (here, ==_refl w.thread_id) refl

    start-disconnected :
        (w : Net e tq)
        → this_thread ≡ w.thread_id
        → w.rest.state ≡ disconnected
        → Connector.start e tq this_thread handle false attempt w
          ≡ start_in_loop e tq this_thread attempt (set_state e tq connecting w)
    unfolding Connector.start
    start-disconnected w here state =
        ap
          (λ s.
            if is_disconnected s
            then run_in_loop e tq (exec e tq this_thread attempt) handle this_thread starts
                (set_state e tq connecting w)
            else ok w)
          state
        ∙ at_once (set_state e tq connecting w) here

    start-connecting :
        (w : Net e tq)
        → w.rest.state ≡ connecting
        → Connector.start e tq this_thread handle false attempt w ≡ ok w
    unfolding Connector.start
    start-connecting w state = rw state refl

    -- On the loop's thread, Connect of a client whose connector has not been started, with an exchange
    -- that does not fail for no reason, has the kernel watch a new socket for writing, if `connect` leaves an `errno` on which StartInLoop goes on and
    -- neither the new channel's address nor the descriptor is that of a known channel. A second
    -- Connect changes nothing.
    pub connect-Watching :
        (c : Client C connector_calls)
        → this_thread ≡ c.connector_state.thread_id
        → c.connector_state.rest.state ≡ disconnected
        → Registry e tq c.connector_state
        → (c.connector_state.heap attempt.address).status ≡ new_channel
        → IsUnused e tq c.connector_state attempt.fd
        → goes_on (errno_after attempt.error c.connector_state.rest.errno) ≡ true
        → (c1 : Client C connector_calls) × (connect C connector_calls c ≡ ok c1)
          × Watching e room tq this_thread attempt
              (set_state e tq connecting c.connector_state)
              c1.connector_state
          × (connect C connector_calls c1 ≡ ok c1)
    unfolding connect
    connect-Watching c here state reg spare unused going =
        let w = set_state e tq connecting c.connector_state in
        let (w1, ran, watching) =
          start_in_loop-Watching e room tq this_thread attempt w
            (record {
              here = here;
              state = refl;
              registry = beside-Registry e tq c.connector_state w.queue w.rest reg;
            })
            spare unused going in
        let c1 : Client C connector_calls = record c { connector_state = w1 } in
        (
          c1,
          ap (λ r. r >>= stored c) (start-disconnected c.connector_state here state ∙ ran),
          watching,
          ap (λ r. r >>= stored c1) (start-connecting w1 watching.trying.state),
        )
      where
        stored : Client C connector_calls → Net e tq → Result (Client C connector_calls)
        stored c w = ok (record c { connector_state = w })
