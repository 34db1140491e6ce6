-- ===== src/Examples/Connection.antt =====
-- A connection whose channel is at address 7, on the concrete interest list and queue.
use network_poller.Prelude.{
  map, ◌<◌, ◌≤◌, ℕ, ◌≡◌, ◌≢◌, refl, ◌⊎◌, true, false, List, [], ◌∷◌, ◌++◌, arith,
}
use network_poller.Result.{ok, fault, assertion}
use network_poller.Buffer.{IsValid, contents}
use network_poller.Channel.{call}
use network_poller.Loop.External.{count}
use network_poller.Loop.{Dropped}
use network_poller.Connection.{
  Output, sends_in_loop, writes_out, do_outputs, do_outputs-stream, write_events-deliver,
  start_read_in_loop, start_read_in_loop-revives, connecting, connected, disconnecting,
  disconnected, Task, send_in_loop, write_handler, read_handler, close_handler, connect_established,
  connect_destroyed, force_close, force_closes, Base, Sound, Sent, stream, nothing, Moved,
  tell_closed, reads_of, arrived, input, send_in_loop-Sent, write_handler-shuts, force_close_counts,
  close_handler-Moved, connect_established-Sound, connect_destroyed-once, read_handler-input,
}
use network_poller.Examples.Kernel.{table_epoll, table_room}
use network_poller.Examples.Worlds.{
  idle_world, idle-Registry, idle-IsFree, watching_world, watching-Registry, seven-IsKnown,
}
use network_poller.Examples.Connected.{
  tasks, Sample, connection, reading, hooks, ready, unsent, behind, ready-IsValid, ready-Base,
  ready-Sound, behind-Sound, reader,
}

send_in_loop-Sent_example :
    (w : Sample) × (send_in_loop table_epoll tasks hooks 1 (count 1) unsent ready ≡ ok w)
    × Sent table_epoll tasks 1 ready w unsent
send_in_loop-Sent_example =
    send_in_loop-Sent table_epoll table_room tasks hooks 1 (count 1) unsent ready ready-Sound
      (λ q. cc) (omega arith) (omega arith)

write_handler-shuts_example :
    (w : Sample) × (write_handler table_epoll tasks hooks 1 (count 3) (behind disconnecting) ≡ ok w)
    × (w.rest.sent ≡ 60 ∷ 61 ∷ 62 ∷ 63 ∷ [])
    × (contents w.rest.write_buffer ≡ [])
    × (w.rest.write_shut ≡ true)
    × Sound table_epoll tasks 1 w
    × (w.rest.state ≡ disconnecting)
    × (w.rest.write_buffer.write_index ≤ 3)
write_handler-shuts_example =
    write_handler-shuts table_epoll table_room tasks hooks 1 3 (behind disconnecting)
      (behind-Sound disconnecting) (omega arith) (omega arith) (λ v. refl)

force_close_counts_example :
    ((ready.rest.state ≡ connected)
      × ((force_close table_epoll tasks false false ready).rest.state ≡ disconnecting)
      × ((force_close table_epoll tasks false false ready).queue ≡ force_closes ∷ force_closes ∷ [])
      × (force_close table_epoll tasks true false ready ≡ ready))
    ⊎ (((ready.rest.state ≡ disconnecting)
          × ((force_close table_epoll tasks false false ready).queue ≡ force_closes ∷ [])
          × (force_close table_epoll tasks false true ready ≡ ready))
        ⊎ ((ready.rest.state ≢ connected)
            × (ready.rest.state ≢ disconnecting)
            × (force_close table_epoll tasks false false ready ≡ ready)))
force_close_counts_example = force_close_counts table_epoll tasks false false ready

close_handler-Moved_example :
    (w : Sample) × (close_handler table_epoll tasks hooks 1 ready
      ≡ tell_closed table_epoll table_room tasks hooks 1 w)
    × Moved table_epoll table_room tasks hooks 1 disconnected nothing ready w
close_handler-Moved_example =
    close_handler-Moved table_epoll table_room tasks hooks 1 ready reading ready-Base

abbrev accepted : Sample
accepted = idle_world Task (connection connecting [])

connect_established-Sound_example :
    (w : Sample) × (connect_established table_epoll tasks hooks 1 accepted
      ≡ call hooks.conn_status_cb w)
    × Moved table_epoll table_room tasks hooks 1 connected reading accepted w
    × Sound table_epoll tasks 1 w
connect_established-Sound_example =
    connect_established-Sound table_epoll table_room tasks hooks 1 accepted refl
      (idle-Registry Task (connection connecting []))
      (idle-IsFree Task (connection connecting []) 7) refl ready-IsValid refl

abbrev closed : Sample
closed = watching_world Task (connection disconnected []) nothing

closed-Base : Base table_epoll tasks 1 closed nothing
closed-Base = record {
  here = refl;
  registry = watching-Registry Task (connection disconnected []) nothing;
  known = seven-IsKnown Task (connection disconnected []) nothing;
  mask = refl;
  valid = ready-IsValid;
}

connect_destroyed-once_example :
    (w : Sample) × (connect_destroyed table_epoll tasks hooks 1 closed ≡ ok w)
    × Dropped table_epoll table_room tasks 7 closed w
    × (connect_destroyed table_epoll tasks hooks 1 w ≡ fault assertion)
connect_destroyed-once_example =
    connect_destroyed-once table_epoll table_room tasks hooks 1 closed closed-Base (λ q. cc) refl

abbrev reads : List (ℕ × List ℕ)
reads = (70, 71 ∷ 72 ∷ []) ∷ (73, []) ∷ []

read_handler-input_example :
    (w : Sample) × (read_handler table_epoll tasks hooks 1 (reads_of reads) ready ≡ ok w)
    × (input table_epoll tasks hooks 1 (λ v. v.rest.sent) w ≡ (60 ∷ []) ++ arrived reads)
    × IsValid w.rest.read_buffer
unfolding arrived
read_handler-input_example =
    read_handler-input table_epoll tasks hooks 1 (λ v. v.rest.sent) reader reads ready refl
      ready-IsValid (omega arith)

start_read_in_loop-revives_example :
    (w : Sample) × (start_read_in_loop table_epoll tasks hooks 1 closed ≡ ok w)
    × Base table_epoll tasks 1 w reading
    × (w.rest ≡ closed.rest)
    × (connect_destroyed table_epoll tasks hooks 1 w ≡ fault assertion)
start_read_in_loop-revives_example =
    start_read_in_loop-revives table_epoll table_room tasks hooks 1 closed closed-Base (λ q. cc)

abbrev outputs : List Output
outputs =
    sends_in_loop (count 1) (61 ∷ 62 ∷ []) ∷ writes_out 1 ∷ sends_in_loop (count 0) (63 ∷ []) ∷ []

do_outputs-stream_example :
    (w : Sample) × (do_outputs table_epoll table_room tasks hooks 1 outputs ready ≡ ok w)
    × Sound table_epoll tasks 1 w
    × (stream table_epoll tasks 1 w ≡ 60 ∷ 61 ∷ 62 ∷ 63 ∷ [])
    × (w.rest.state ≡ connected)
do_outputs-stream_example =
    do_outputs-stream table_epoll table_room tasks hooks 1 outputs ready ready-Sound (λ q. cc)
      (omega arith) (omega arith, (omega arith, tt)) (λ v. refl)

write_events-deliver_example :
    (w : Sample) × (do_outputs table_epoll table_room tasks hooks 1
        (map writes_out (1 ∷ 1 ∷ 5 ∷ []))
        (behind disconnecting)
      ≡ ok w)
    × (w.rest.sent ≡ 60 ∷ 61 ∷ 62 ∷ 63 ∷ [])
    × (contents w.rest.write_buffer ≡ [])
    × (true ≡ true → 0 < 3 → w.rest.write_shut ≡ true)
write_events-deliver_example =
    write_events-deliver table_epoll table_room tasks hooks 1 (1 ∷ 1 ∷ 5 ∷ [])
      (behind disconnecting) (behind-Sound disconnecting) (λ v. refl)
      (omega arith, (omega arith, (omega arith, tt))) (omega arith)
