-- ===== src/Examples/Rounds.antt =====
-- A round of the loop that serves the connection of `Connected`.
use network_poller.Prelude.{ℕ, ◌≡◌, refl, true, false, List, [], ◌∷◌, ◌++◌, arith}
use network_poller.Result.{Result, ok}
use network_poller.Buffer.{IsValid}
use network_poller.Channel.{Ready, report}
use network_poller.Poller.{happened}
use network_poller.Loop.External.{count}
use network_poller.Loop.{one_round, run_task_funcs}
use network_poller.Connection.{
  Conn, exec, handle, send, reads_of, arrived, input, stream, Sent, one_round-input,
  send-run_task_funcs,
}
use network_poller.Examples.Kernel.{table_epoll, table_room}
use network_poller.Examples.Connected.{
  tasks, Sample, hooks, ready, unsent, reader, reader-keeps, ready-IsValid, ready-Sound,
}

abbrev others : ℕ → Sample → Result Sample
others id w = ok w

abbrev urgent_data : Ready
urgent_data = record {
  readable = true;
  urgent = true;
  writable = false;
  failed = false;
  hung_up = false;
  invalid = false;
  peer_closed = false;
}

abbrev reads : List (ℕ × List ℕ)
reads = (70, 71 ∷ 72 ∷ []) ∷ (73, []) ∷ []

abbrev served : Sample → Result Sample
served =
    run_task_funcs table_epoll tasks (exec table_epoll tasks hooks 1 (count 0))
      (handle table_epoll tasks hooks 1 others (reads_of reads) (count 0))

one_round-input_example :
    (w : Sample) × (one_round table_epoll tasks
        (exec table_epoll tasks hooks 1 (count 0))
        (handle table_epoll tasks hooks 1 others (reads_of reads) (count 0))
        1
        (happened ((report urgent_data, 7) ∷ []))
        ready
      ≡ served w)
    × (input table_epoll tasks hooks 1 (λ v. v.rest.sent) w ≡ (60 ∷ []) ++ arrived reads)
    × IsValid w.rest.read_buffer
unfolding arrived
one_round-input_example =
    one_round-input table_epoll tasks hooks 1 (λ (c : Conn). c.sent) reader reader-keeps others
      urgent_data reads (count 0) ready refl refl refl refl ready-IsValid (omega arith)

send-run_task_funcs_example :
    (queued w : Sample) × (send table_epoll tasks hooks 2 (count 0) unsent ready ≡ ok queued)
    × (stream table_epoll tasks 1 queued ≡ 60 ∷ [])
    × (served queued ≡ ok w)
    × Sent table_epoll tasks 1 ready w unsent
send-run_task_funcs_example =
    send-run_task_funcs table_epoll tasks hooks 1 table_room 2 others (reads_of reads) (count 0)
      (count 0) unsent ready (λ q. omega (arith, q)) refl ready-Sound (λ q. cc) (omega arith)
      (omega arith)
