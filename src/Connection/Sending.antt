-- ===== src/Connection/Sending.antt =====
-- The sending side of TcpConnection: SendInLoop and WriteHandler of core/net/tcp/tcp_connection.cpp.
use network_poller.Prelude.{
  ℕ, ◌+◌, ◌-◌, Bool, not, ◌&&◌, ◌||◌, List, ltb, ◌==◌, if◌then◌else◌, length, take, drop,
}
use network_poller.Result.{Result, ok, ◌>>=◌, ◌>>◌, defined}
use network_poller.Buffer.{readable_bytes, is_empty, append, clear_read_index, contents}
use network_poller.Channel.{is_writing, call}
use network_poller.Poller.Epoll.{Epoll}
use network_poller.Loop.External.{TaskQueue, IoResult, count, io_failed}
use network_poller.Loop.{is_in_loop_thread, queue_in_loop, enable_writing, disable_writing}
use network_poller.Connection.Defs.{
  is_disconnecting, is_disconnected, Task, shuts_down, writes_complete, high_water, eagain,
  ewouldblock, epipe, econnreset, high_water_mark, Net, Hooks, channel_of, set_write_buffer, accept,
  is_set, queue_if, assert_in_loop, close_handler, shutdown_in_loop,
}

-- Whether a failed `write` means that the connection is gone. The switch reads `errno` once more, and
-- finds what the logging of the error has left there.
abbrev pub is_fault : ℕ → ℕ → Bool
is_fault errno logged =
    (not (errno == ewouldblock) || not (errno == eagain))
    && (logged == epipe || logged == econnreset)

module _ (e : Epoll) (tq : TaskQueue Task) (hooks : Hooks e tq) (this_thread : ℕ) where
  -- The last part of SendInLoop: the bytes that `write` did not take go to the write buffer.
  unfoldable pub buffer_rest : List ℕ → Net e tq → Result (Net e tq)
  buffer_rest rest w = do
    let above = ltb high_water_mark (readable_bytes w.rest.write_buffer + length rest)
    let w1 =
        queue_if e tq (above && is_set e tq hooks.high_water_cb) (high_water w.rest.high_water_size)
          w
    b ← defined (append w1.rest.write_buffer rest)
    let w2 = set_write_buffer e tq b w1
    (if is_writing (channel_of e tq w2)
        then ok w2
        else enable_writing e tq this_thread w2.rest.channel w2)

  -- The tail of SendInLoop, after a `write` that took what is not in `rest`.
  abbrev pub send_rest : List ℕ → Net e tq → Result (Net e tq)
  send_rest rest w = if ltb 0 (length rest) then buffer_rest rest w else ok w

  -- The attempt to write directly, by what `write` returns, and what follows it.
  unfoldable pub send_directly : IoResult → List ℕ → Net e tq → Result (Net e tq)
  unfolding buffer_rest
  send_directly (count n) bytes w =
      let w1 = accept e tq (take n bytes) w in
      let all_sent = (length bytes - n == 0) && is_set e tq hooks.written_cb in
      send_rest (drop n bytes) (queue_if e tq all_sent writes_complete w1)
  send_directly (io_failed errno logged) bytes w =
      if is_fault errno logged then close_handler e tq hooks this_thread w else send_rest bytes w

  -- SendInLoop, with what `write` returns if it is called.
  unfoldable pub send_in_loop : IoResult → List ℕ → Net e tq → Result (Net e tq)
  unfolding send_directly
  send_in_loop written bytes w = do
    assert_in_loop e tq hooks this_thread w
    (if is_disconnected w.rest.state
        then ok w
        else if not (is_writing (channel_of e tq w)) && (readable_bytes w.rest.write_buffer == 0)
        then send_directly written bytes w
        else send_rest bytes w)

  -- RunInLoop of a functor.
  abbrev pub run_in_loop : Task → (Net e tq → Result (Net e tq)) → Net e tq → Result (Net e tq)
  run_in_loop task action w =
      if is_in_loop_thread e tq this_thread w then action w else ok (queue_in_loop e tq task w)

  -- What WriteHandler does once the buffer is empty.
  unfoldable pub drained : Net e tq → Result (Net e tq)
  drained w = do
    w1 ← disable_writing e tq this_thread w.rest.channel w
    w2 ←
        if is_set e tq hooks.written_cb
        then run_in_loop writes_complete (call hooks.written_cb) w1
        else ok w1
    (if is_disconnecting w2.rest.state
        then run_in_loop shuts_down (shutdown_in_loop e tq hooks this_thread) w2
        else ok w2)

  -- WriteHandler, with what `write` returns if it is called.
  unfoldable pub write_handler : IoResult → Net e tq → Result (Net e tq)
  unfolding drained
  write_handler (count n) w = do
    assert_in_loop e tq hooks this_thread w
    (if is_writing (channel_of e tq w) && ltb 0 n
        then (let b = clear_read_index w.rest.write_buffer n in
            let w1 =
              set_write_buffer e tq b (accept e tq (take n (contents w.rest.write_buffer)) w) in
            if is_empty b then drained w1 else ok w1)
        else ok w)
  write_handler (io_failed _ _) w = do assert_in_loop e tq hooks this_thread w; ok w
