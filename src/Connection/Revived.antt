-- ===== src/Connection/Revived.antt =====
-- A StartRead of tcp_connection.cpp that runs after the connection was closed.
use network_poller.Prelude.{ℕ, ◌≡◌, ◌≢◌, ap, ◌∙◌, false, arith}
use network_poller.Result.{ok, fault, assertion}
use network_poller.Channel.{is_none_event}
use network_poller.Poller.{remove_event_channel-busy}
use network_poller.Poller.Epoll.{Epoll, HasRoom}
use network_poller.Loop.External.{TaskQueue}
use network_poller.Loop.{
  enables_reading, apply, perform, remove_from_loop, remove_event_channel-stops,
}
use network_poller.Connection.Defs.{connected, is_connected, Task, Conn, Net, Hooks, channel_of}
use network_poller.Connection.Api.{start_read_in_loop, connect_destroyed}
use network_poller.Connection.Attached.{Base, Base-Tested, perform-Base, in_loop_lem}
use network_poller.Connection.Lifecycle.{nothing, reading_only}

module _ (e : Epoll) (room : HasRoom e) (tq : TaskQueue Task) (hooks : Hooks e tq)
    (this_thread : ℕ) where
  -- On the loop's thread, for a connection that was closed, so that it is not CONNECTED and its mask is
  -- empty, StartReadInLoop returns and has epoll watch the descriptor again. The ConnectDestoryed that
  -- the server has queued for it then stops the process at an assertion.
  pub start_read_in_loop-revives :
      (w : Net e tq)
      → Base e tq this_thread w nothing
      → w.rest.state ≢ connected
      → (w' : Net e tq) × (start_read_in_loop e tq hooks this_thread w ≡ ok w')
        × Base e tq this_thread w' reading_only
        × (w'.rest ≡ w.rest)
        × (connect_destroyed e tq hooks this_thread w' ≡ fault assertion)
  unfolding start_read_in_loop connect_destroyed remove_from_loop perform apply
  start_read_in_loop-revives w b closed =
      let (w1, ran, b1, frame) = perform-Base e tq this_thread room enables_reading w nothing b in
      let same : w1.rest ≡ w.rest = ap (λ v. v.rest) frame in
      let not_up : is_connected w.rest.state ≡ false = ground arith in
      let busy : is_none_event (channel_of e tq w1) ≡ false =
        (Base-Tested e tq this_thread b1).idle in
      (
        w1,
        rw (in_loop_lem e tq this_thread w b.here, (Base-Tested e tq this_thread b).reading) ran,
        b1,
        same,
        rw
            (
              in_loop_lem e tq this_thread w1 b1.here,
              ap (λ (c : Conn). is_connected c.state) same ∙ not_up,
            )
            (remove_event_channel-stops e room tq this_thread w1.rest.channel w1
              (remove_event_channel-busy e this_thread w1.poller (channel_of e tq w1) busy)),
      )
