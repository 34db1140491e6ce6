-- ===== src/Connector/Defs.antt =====
-- class TcpConnector of core/net/tcp/tcp_connector.h and tcp_connector.cpp.
use network_poller.Prelude.{
  ℕ, Bool, true, false, not, ◌||◌, ◌&&◌, Option, none, some, List, [], ◌∷◌, ◌++◌, ◌==◌,
  if◌then◌else◌,
}
use network_poller.Result.{Result, ok, ◌>>=◌, ◌>>◌, assert_that, defined}
use network_poller.Poller.Epoll.{Epoll}
use network_poller.Loop.External.{TaskQueue}
use network_poller.Loop.{
  World, is_in_loop_thread, queue_in_loop, run_in_loop, enable_writing, disable_all,
  remove_from_loop, with_channel,
}

-- enum States.
pub data States : Type 0 where
  disconnected connecting connected : States

abbrev pub is_disconnected : States → Bool
is_disconnected disconnected = true
is_disconnected _ = false

abbrev pub is_connecting : States → Bool
is_connecting connecting = true
is_connecting _ = false

-- The functors that a connector puts in its loop's queue.
pub data Job : Type 0 where
  starts stops resets_channel_ptr : Job

-- The members of TcpConnector. `handed` are the descriptors that `new_connection_cb_` has been
-- given, `closed` those that the connector has closed, and `errno` is that of the loop's thread.
pub record Connector : Type 0 where
  pub state : States
  pub channel : Option ℕ
  pub has_callback : Bool
  pub handed : List ℕ
  pub closed : List ℕ
  pub errno : ℕ

-- What one run of StartInLoop gets: the descriptor that `socket` returns, the error of `connect`, if
-- any, and the address and the uninitialised member of a new channel.
pub record Attempt : Type 0 where
  pub fd : ℕ
  pub error : Option ℕ
  pub address : ℕ
  pub garbage : ℕ

-- `errno` after a call: a call that succeeds leaves it.
abbrev pub errno_after : Option ℕ → ℕ → ℕ
errno_after none errno = errno
errno_after (some failure) errno = failure

-- EINTR, EISCONN and EINPROGRESS, as Linux has them.
abbrev pub eintr : ℕ
eintr = 4

abbrev pub eisconn : ℕ
eisconn = 106

abbrev pub einprogress : ℕ
einprogress = 115

-- The labels of the first group of the switch. The other groups have one body.
abbrev pub goes_on : ℕ → Bool
goes_on errno = errno == 0 || errno == einprogress || errno == eintr || errno == eisconn

-- The constructor.
unfoldable pub new_connector : ℕ → Connector
new_connector errno = record {
  state = disconnected;
  channel = none;
  has_callback = false;
  handed = [];
  closed = [];
  errno = errno;
}

unfoldable pub set_new_connection_cb : Connector → Connector
set_new_connection_cb c = record c { has_callback = true }

module _ (e : Epoll) (tq : TaskQueue Job) where
  abbrev pub Net : Type 0
  Net = World e tq Connector

  abbrev pub set_state : States → Net → Net
  set_state s w = record w { rest = record w.rest { state = s } }

  abbrev pub close : ℕ → Net → Net
  close fd w = record w { rest = record w.rest { closed = w.rest.closed ++ fd ∷ [] } }

  abbrev pub point_to : Option ℕ → Net → Net
  point_to channel w = record w { rest = record w.rest { channel = channel } }

  -- The calls of `socket` and `connect`.
  abbrev pub connect : Attempt → Net → Net
  connect attempt w = record w {
    rest = record w.rest { errno = errno_after attempt.error w.rest.errno };
  }

  module _ (this_thread : ℕ) where
    abbrev assert_in_loop : Net → Result (Unit {0})
    assert_in_loop w = assert_that (is_in_loop_thread e tq this_thread w)

    -- `channel_.reset(new EventChannel(loop_, fd))` and EnableWriting.
    unfoldable pub watch : Attempt → Net → Result Net
    watch attempt w = enable_writing e tq this_thread attempt.address (
        with_channel e tq attempt.address attempt.fd attempt.garbage
          (point_to (some attempt.address) w))

    unfoldable pub start_in_loop : Attempt → Net → Result Net
    unfolding watch
    start_in_loop attempt w = do
      assert_in_loop w
      assert_that (is_connecting w.rest.state)
      let w1 = connect attempt w
      let watched : Result Net = assert_in_loop w1 >> watch attempt w1
      if goes_on w1.rest.errno then watched else ok (close attempt.fd w1)

    -- StopInLoop is empty.
    unfoldable pub stop_in_loop : Net → Result Net
    stop_in_loop w = ok w

    unfoldable pub reset_channel_ptr : Net → Result Net
    reset_channel_ptr w = ok (point_to none w)

    unfoldable pub exec : Attempt → Job → Net → Result Net
    unfolding start_in_loop stop_in_loop reset_channel_ptr
    exec attempt starts = start_in_loop attempt
    exec attempt stops = stop_in_loop
    exec attempt resets_channel_ptr = reset_channel_ptr

    unfoldable pub retry_conn : ℕ → Net → Net
    retry_conn fd w = queue_in_loop e tq starts (close fd w)

    -- RemoveChannel; it returns the channel's descriptor.
    unfoldable pub remove_at : Net → ℕ → Result (ℕ × Net)
    remove_at w id = do
      w1 ← disable_all e tq this_thread id w
      w2 ← remove_from_loop e tq this_thread id w1
      ok ((w2.heap id).fd, queue_in_loop e tq resets_channel_ptr w2)

    unfoldable pub remove_channel : Net → Result (ℕ × Net)
    unfolding remove_at
    remove_channel w = defined w.rest.channel >>= remove_at w

    unfoldable pub give : Net → ℕ → Result Net
    give w id =
        ok (record w { rest = record w.rest { handed = w.rest.handed ++ (w.heap id).fd ∷ [] } })

    -- `if (new_connection_cb_) new_connection_cb_(channel_->Fd());`
    unfoldable pub hand_over : Net → Result Net
    unfolding give
    hand_over w = if w.rest.has_callback then defined w.rest.channel >>= give w else ok w

    -- WriteEventHandler; `error` is what `SocketError` returns.
    unfoldable pub write_event_handler : ℕ → Net → Result Net
    unfolding remove_channel retry_conn hand_over
    write_event_handler error w = do
      assert_that (is_connecting w.rest.state)
      (fd, w1) ← remove_channel w
      if error == 0 then hand_over w1 else ok (retry_conn fd w1)

    -- ErrorEventHandler is empty.
    unfoldable pub error_event_handler : Net → Result Net
    error_event_handler w = ok w

    module _ (handle : ℕ → Net → Result Net) where
      -- Start, with whether the exchange fails for no reason; `attempt` is for a run on this thread.
      unfoldable pub start : Bool → Attempt → Net → Result Net
      unfolding exec
      start spurious attempt w =
          if not spurious && is_disconnected w.rest.state
          then run_in_loop e tq (exec attempt) handle this_thread starts (set_state connecting w)
          else ok w

      unfoldable pub stop : Attempt → Net → Result Net
      unfolding exec
      stop attempt w =
          if is_disconnected w.rest.state
          then ok w
          else run_in_loop e tq (exec attempt) handle this_thread stops w
