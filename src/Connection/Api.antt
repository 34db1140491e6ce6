-- ===== src/Connection/Api.antt =====
-- The public functions of TcpConnection, the functors that its loop runs for it, and the events of
-- its channel: core/net/tcp/tcp_connection.cpp.
use network_poller.Prelude.{ℕ, Bool, false, not, ◌&&◌, ◌||◌, none, some, List, [], if◌then◌else◌}
use network_poller.Result.{Result, ok, ◌>>=◌, ◌>>◌}
use network_poller.Buffer.{ReadResult, new, init_size}
use network_poller.Channel.{Callbacks, is_reading, handle_event, call}
use network_poller.Poller.Epoll.{Epoll}
use network_poller.Loop.External.{TaskQueue, IoResult}
use network_poller.Loop.{
  is_in_loop_thread, queue_in_loop, enable_reading, disable_reading, disable_all, remove_from_loop,
}
use network_poller.Connection.Defs.{
  ConnState, connecting, connected, disconnecting, disconnected, is_connected, is_disconnecting,
  Task, sends, starts_read, stops_read, shuts_down, force_closes, establishes, destroys,
  writes_complete, high_water, Conn, high_water_mark, Net, Hooks, channel_of, set_state,
  assert_in_loop, close_handler, error_handler, read_handler, shutdown_in_loop,
}
use network_poller.Connection.Sending.{send_in_loop, write_handler}

-- The constructor's members; the channel with its callbacks and the socket stand outside.
unfoldable pub new_connection : ℕ → Conn
new_connection channel = record {
  state = connecting;
  channel = channel;
  read_buffer = new init_size;
  write_buffer = new init_size;
  high_water_size = high_water_mark;
  sent = [];
  write_shut = false;
}

module _ (e : Epoll) (tq : TaskQueue Task) where
  -- `compare_exchange_weak(CONNECTED, DISCONNECTING)`, which may fail for no reason.
  unfoldable pub exchange : Bool → ConnState → Bool
  exchange spurious state = not spurious && is_connected state

  -- Shutdown.
  unfoldable pub shutdown : Bool → Net e tq → Net e tq
  unfolding exchange
  shutdown spurious w =
      if exchange spurious w.rest.state
      then queue_in_loop e tq shuts_down (set_state e tq disconnecting w)
      else w

  -- ForceClose: the second exchange is from DISCONNECTING to itself. `seconds` is not used.
  unfoldable pub force_close : Bool → Bool → Net e tq → Net e tq
  unfolding exchange
  force_close spurious1 spurious2 w =
      let w1 =
        if exchange spurious1 w.rest.state
        then queue_in_loop e tq force_closes (set_state e tq disconnecting w)
        else w in
      if not spurious2 && is_disconnecting w1.rest.state
      then queue_in_loop e tq force_closes w1
      else w1

  -- StartRead and StopRead.
  unfoldable pub start_read : Net e tq → Net e tq
  start_read = queue_in_loop e tq starts_read

  unfoldable pub stop_read : Net e tq → Net e tq
  stop_read = queue_in_loop e tq stops_read

  module _ (hooks : Hooks e tq) (this_thread : ℕ) where
    -- Send.
    unfoldable pub send : IoResult → List ℕ → Net e tq → Result (Net e tq)
    send written bytes w =
        if is_in_loop_thread e tq this_thread w
        then send_in_loop e tq hooks this_thread written bytes w
        else ok (queue_in_loop e tq (sends bytes) w)

    unfoldable pub start_read_in_loop : Net e tq → Result (Net e tq)
    start_read_in_loop w = do
      assert_in_loop e tq hooks this_thread w
      (if not (is_reading (channel_of e tq w))
          then enable_reading e tq this_thread w.rest.channel w
          else ok w)

    unfoldable pub stop_read_in_loop : Net e tq → Result (Net e tq)
    stop_read_in_loop w = do
      assert_in_loop e tq hooks this_thread w
      (if is_reading (channel_of e tq w)
          then disable_reading e tq this_thread w.rest.channel w
          else ok w)

    unfoldable pub force_close_in_loop : Net e tq → Result (Net e tq)
    force_close_in_loop w = do
      assert_in_loop e tq hooks this_thread w
      (if is_connected w.rest.state || is_disconnecting w.rest.state
          then close_handler e tq hooks this_thread w
          else ok w)

    unfoldable pub connect_established : Net e tq → Result (Net e tq)
    connect_established w = do
      assert_in_loop e tq hooks this_thread w
      w1 ← enable_reading e tq this_thread w.rest.channel (set_state e tq connected w)
      call hooks.conn_status_cb w1

    unfoldable pub connect_destroyed : Net e tq → Result (Net e tq)
    connect_destroyed w = do
      assert_in_loop e tq hooks this_thread w
      w1 ←
          if is_connected w.rest.state
          then (do
            w1 ← disable_all e tq this_thread w.rest.channel (set_state e tq disconnected w)
            call hooks.conn_status_cb w1)
          else ok w
      remove_from_loop e tq this_thread w1.rest.channel w1

    -- What a functor from the queue does; `written` is what `write` returns if it is called.
    unfoldable pub exec : IoResult → Task → Net e tq → Result (Net e tq)
    exec written (sends bytes) w = send_in_loop e tq hooks this_thread written bytes w
    exec written starts_read w = start_read_in_loop w
    exec written stops_read w = stop_read_in_loop w
    exec written shuts_down w = shutdown_in_loop e tq hooks this_thread w
    exec written force_closes w = force_close_in_loop w
    exec written establishes w = connect_established w
    exec written destroys w = connect_destroyed w
    exec written writes_complete w = call hooks.written_cb w
    exec written (high_water size) w = elim hooks.high_water_cb [
      | none ↦ ok w
      | some cb ↦ cb size w
    ]

    -- The channel's callbacks, as the constructor binds them.
    unfoldable pub channel_callbacks : List ReadResult → IoResult → Callbacks (Net e tq)
    channel_callbacks reads written = record {
      close_event_cb = some (close_handler e tq hooks this_thread);
      error_event_cb = some (error_handler e tq hooks this_thread);
      read_event_cb = some (read_handler e tq hooks this_thread reads);
      write_event_cb = some (write_handler e tq hooks this_thread written);
    }

    -- HandleEvent of the connection's channel.
    unfoldable pub handle_channel : List ReadResult → IoResult → Net e tq → Result (Net e tq)
    unfolding channel_callbacks
    handle_channel reads written =
        handle_event (channel_callbacks reads written) (λ w. (channel_of e tq w).received_events)
