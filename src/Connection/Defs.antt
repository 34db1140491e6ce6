-- ===== src/Connection/Defs.antt =====
-- class TcpConnection of core/net/tcp/tcp_connection.h and tcp_connection.cpp.
use network_poller.Prelude.{
  ℕ, ◌*◌, Bool, true, false, Option, none, some, List, [], ◌∷◌, ◌++◌, ◌==◌, if◌then◌else◌,
}
use network_poller.Result.{Result, ok, ◌>>=◌, ◌>>◌, assert_that, defined}
use network_poller.Buffer.{Buffer, ReadResult, received, failed, read_from_fd}
use network_poller.Channel.{Channel, is_writing, call}
use network_poller.Poller.Epoll.{Epoll}
use network_poller.Loop.External.{TaskQueue}
use network_poller.Loop.{World, is_in_loop_thread, queue_in_loop, disable_all}

-- enum ConnState.
pub data ConnState : Type 0 where
  connecting connected disconnecting disconnected : ConnState

abbrev pub is_connected : ConnState → Bool
is_connected connected = true
is_connected _ = false

abbrev pub is_disconnecting : ConnState → Bool
is_disconnecting disconnecting = true
is_disconnecting _ = false

abbrev pub is_disconnected : ConnState → Bool
is_disconnected disconnected = true
is_disconnected _ = false

-- The functors that a connection puts in its loop's queue. `sends` is `SendInLoop` with the bytes
-- of `msg`, `writes_complete` and `high_water` are the two user callbacks.
pub data Task : Type 0 where
  sends : List ℕ → Task
  starts_read stops_read shuts_down force_closes establishes destroys writes_complete : Task
  high_water : ℕ → Task

-- The members of TcpConnection. `sent` are the bytes that `write` has accepted so far, and
-- `write_shut` whether `shutdown(SHUT_WR)` was called.
pub record Conn : Type 0 where
  pub state : ConnState
  pub channel : ℕ
  pub read_buffer : Buffer
  pub write_buffer : Buffer
  pub high_water_size : ℕ
  pub sent : List ℕ
  pub write_shut : Bool

-- EAGAIN, EWOULDBLOCK, EPIPE and ECONNRESET, as Linux has them.
abbrev pub eagain : ℕ
eagain = 11

abbrev pub ewouldblock : ℕ
ewouldblock = 11

abbrev pub epipe : ℕ
epipe = 32

abbrev pub econnreset : ℕ
econnreset = 104

-- The static `highWaterMark_` of SendInLoop.
abbrev pub high_water_mark : ℕ
high_water_mark = 6 * 1024 * 1024

module _ (e : Epoll) (tq : TaskQueue Task) where
  abbrev pub Net : Type 0
  Net = World e tq Conn

  -- The callbacks, which may do anything to the connection and its loop.
  pub record Hooks : Type 0 where
    pub msg_cb : Option (Net → Result Net)
    pub close_cb : Option (Net → Result Net)
    pub written_cb : Option (Net → Result Net)
    pub high_water_cb : Option (ℕ → Net → Result Net)
    pub conn_status_cb : Option (Net → Result Net)

  abbrev pub channel_of : Net → Channel
  channel_of w = w.heap w.rest.channel

  abbrev pub set_state : ConnState → Net → Net
  set_state s w = record w { rest = record w.rest { state = s } }

  abbrev pub set_read_buffer : Buffer → Net → Net
  set_read_buffer b w = record w { rest = record w.rest { read_buffer = b } }

  abbrev pub set_write_buffer : Buffer → Net → Net
  set_write_buffer b w = record w { rest = record w.rest { write_buffer = b } }

  -- `write` accepts bytes.
  abbrev pub accept : List ℕ → Net → Net
  accept bytes w = record w { rest = record w.rest { sent = w.rest.sent ++ bytes } }

  -- A callback is there.
  abbrev pub is_set {ℓ} : {A : Type ℓ} → Option A → Bool
  is_set none = false
  is_set (some cb) = true

  abbrev pub queue_if : Bool → Task → Net → Net
  queue_if test task w = if test then queue_in_loop e tq task w else w

  module _ (hooks : Hooks) (this_thread : ℕ) where
    abbrev pub assert_in_loop : Net → Result (Unit {0})
    assert_in_loop w = assert_that (is_in_loop_thread e tq this_thread w)

    -- CloseHandler.
    unfoldable pub close_handler : Net → Result Net
    close_handler w = do
      assert_in_loop w
      w1 ← disable_all e tq this_thread w.rest.channel (set_state disconnected w)
      w2 ← call hooks.conn_status_cb w1
      assert_that (is_set hooks.close_cb)
      call hooks.close_cb w2

    -- ErrorHandler only logs.
    unfoldable pub error_handler : Net → Result Net
    error_handler w = ok w

    -- The loop of ReadHandler. The list is what `readv` returns until it fails with EAGAIN.
    unfoldable pub read_loop : List ReadResult → Net → Result Net
    unfolding error_handler
    read_loop [] w = ok w
    read_loop (r ∷ rs) w = do
      (len, b) ← defined (read_from_fd w.rest.read_buffer r)
      let w1 = set_read_buffer b w
      elim len [
        | received [] ↦ close_handler w1
        | received (byte ∷ bytes) ↦ elim hooks.msg_cb [
          | none ↦ close_handler w1
          | some cb ↦ cb w1 >>= read_loop rs
        ]
        | failed errno ↦ if errno == eagain then ok w1 else error_handler w1
      ]

    -- ReadHandler.
    unfoldable pub read_handler : List ReadResult → Net → Result Net
    read_handler rs w = do assert_in_loop w; read_loop rs w

    -- ShutdownInLoop.
    unfoldable pub shutdown_in_loop : Net → Result Net
    shutdown_in_loop w = do
      assert_in_loop w
      ok (
          if is_writing (channel_of w)
          then w
          else record w { rest = record w.rest { write_shut = true } })
