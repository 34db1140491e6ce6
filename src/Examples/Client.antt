-- ===== src/Examples/Client.antt =====
-- A client with the connector of `Examples.Connector`'s world, and one whose connector does nothing.
use network_poller.Prelude.{ℕ, ◌≡◌, refl, true, false, none, some, [], ◌∷◌, ◌++◌}
use network_poller.Result.{ok, fault, undefined}
use network_poller.Connector.{
  Job, Connector, disconnected, connecting, Attempt, set_state, Watching,
}
use network_poller.Client.{
  ConnectorCalls, client_removes, destroys, sets_close_cb, Client, connect, new_connection,
  set_close_cb, close_client, call_close_cb, no_slots, connector_calls, Served,
  new_connection-call_close_cb, close_client-call_close_cb, connect-Watching,
}
use network_poller.Examples.Kernel.{table_epoll, table_room, list_queue}
use network_poller.Examples.Worlds.{idle_world, idle-Registry}

abbrev still : ConnectorCalls
still = record {
  State = Unit {0};
  set_new_connection_cb = λ s. s;
  start = λ s. ok s;
  stop = λ s. ok s;
}

-- The user's callbacks are numbers.
abbrev with_callbacks : Client ℕ still
with_callbacks = record {
  loop = 100;
  connector_state = tt;
  connection = none;
  msg_cb = some 1;
  wrote_cb = some 2;
  conn_status_cb = some 3;
  slots = λ _. no_slots ℕ still;
  loop_of = λ _. 0;
  posted = [];
  established = [];
  shut_down = [];
  alive = true;
}

-- It has the connection at address 40.
abbrev at_work : Client ℕ still
at_work = record with_callbacks {
  connection = some 40;
  slots = λ _. record (no_slots ℕ still) { close = client_removes };
  loop_of = λ _. 100;
  established = 40 ∷ [];
}

new_connection-call_close_cb_example :
    (c1 c2 : Client ℕ still) × (new_connection ℕ still true 40 with_callbacks ≡ ok c1)
    × Served ℕ still with_callbacks 40 c1
    × (call_close_cb ℕ still 40 c1 ≡ ok c2)
    × (c2.connection ≡ none)
    × (c2.posted ≡ destroys 40 ∷ [])
new_connection-call_close_cb_example = new_connection-call_close_cb ℕ still 40 with_callbacks refl

close_client-call_close_cb_example :
    ((c1 : Client ℕ still) × (call_close_cb ℕ still 40 (close_client ℕ still true at_work) ≡ ok c1)
      × (c1.posted ≡ destroys 40 ∷ []))
    × ((close_client ℕ still false at_work).posted ≡ sets_close_cb 40 ∷ [])
    × (call_close_cb ℕ still 40 (close_client ℕ still false at_work) ≡ fault undefined)
    × ((c1 : Client ℕ still) × (call_close_cb ℕ still 40
            (set_close_cb ℕ still 40 (close_client ℕ still false at_work))
          ≡ ok c1)
        × (c1.posted ≡ (close_client ℕ still false at_work).posted ++ destroys 40 ∷ []))
close_client-call_close_cb_example = close_client-call_close_cb ℕ still 40 at_work refl refl

abbrev unstarted : Connector
unstarted = record {
  state = disconnected;
  channel = none;
  has_callback = true;
  handed = [];
  closed = [];
  errno = 11;
}

abbrev in_progress : Attempt
in_progress = record { fd = 6; error = some 115; address = 9; garbage = 0 }

abbrev calls : ConnectorCalls
calls = connector_calls table_epoll (list_queue Job) 1 (λ id w. ok w) in_progress

abbrev dialling : Client ℕ calls
dialling = record {
  loop = 100;
  connector_state = idle_world Job unstarted;
  connection = none;
  msg_cb = none;
  wrote_cb = none;
  conn_status_cb = none;
  slots = λ _. no_slots ℕ calls;
  loop_of = λ _. 0;
  posted = [];
  established = [];
  shut_down = [];
  alive = true;
}

connect-Watching_example :
    (c1 : Client ℕ calls) × (connect ℕ calls dialling ≡ ok c1)
    × Watching table_epoll table_room
        (list_queue Job)
        1
        in_progress
        (set_state table_epoll (list_queue Job) connecting (idle_world Job unstarted))
        c1.connector_state
    × (connect ℕ calls c1 ≡ ok c1)
connect-Watching_example =
    connect-Watching table_epoll (list_queue Job) 1 (λ id w. ok w) in_progress table_room ℕ dialling
      refl refl (idle-Registry Job unstarted) refl (λ j known. absurd (known refl)) refl
