-- ===== src/Examples/Accepted.antt =====
-- Two connections that wait at an acceptor, and a server with three worker loops.
use network_poller.Prelude.{ℕ, ◌+◌, ◌≡◌, refl, true, false, some, [], ◌∷◌, arith}
use network_poller.Result.{Result, ok}
use network_poller.Poller.Epoll.{update}
use network_poller.Pool.{Pool}
use network_poller.Channel.{Ready, report}
use network_poller.Poller.{happened}
use network_poller.Loop.{World, one_round, run_task_funcs}
use network_poller.Acceptor.{Acceptor, connections, handle_arrivals}
use network_poller.Examples.Kernel.{table_epoll, list_queue}
use network_poller.Examples.Worlds.{idle_world}
use network_poller.Server.{Server, new_server, take_each, Filled, one_round-Filled}
use network_poller.Examples.Acceptor.{eight, five_open, listening_with, take_lowest}

abbrev three : Pool
three = record { thread_num = 3; main_loop = 9; next_index = 0; loops = 10 ∷ 11 ∷ 12 ∷ [] }

abbrev running : Server ℕ
running = record (new_server ℕ 9) { thread_num = 3; started = true; pool = some three }

abbrev waiting : Ready
waiting = record {
  readable = true;
  urgent = false;
  writable = false;
  failed = false;
  hung_up = false;
  invalid = false;
  peer_closed = false;
}

abbrev Sample : Type 0
Sample = World table_epoll (list_queue (Unit {0})) (Acceptor eight)

abbrev listener : Sample
listener = idle_world (Unit {0}) (listening_with five_open)

abbrev no_task : Unit {0} → Sample → Result Sample
no_task task w = ok w

abbrev others : ℕ → Sample → Result Sample
others id w = ok w

abbrev serves : ℕ → Sample → Result Sample
serves =
    handle_arrivals eight table_epoll (list_queue (Unit {0})) 1 others 3
      (connections (5 ∷ 6 ∷ []) false)

one_round-Filled_example :
    (w' : Sample) × (s' : Server ℕ) × (one_round table_epoll
        (list_queue (Unit {0}))
        no_task
        serves
        1
        (happened ((report waiting, 3) ∷ []))
        listener
      ≡ run_task_funcs table_epoll (list_queue (Unit {0})) no_task serves w')
    × (take_each ℕ (λ fd. 100 + fd) w'.rest.handed running ≡ ok s')
    × Filled ℕ (λ fd. 100 + fd) (5 ∷ 6 ∷ []) running s'
unfolding take_lowest
one_round-Filled_example =
    one_round-Filled ℕ eight table_epoll (list_queue (Unit {0})) 1 no_task others waiting
      (5 ∷ 6 ∷ []) false (update (update five_open 5 true) 6 true) listener (λ fd. 100 + fd) running
      three refl refl refl refl refl
      (update five_open 5 true, refl, (update (update five_open 5 true) 6 true, refl, refl)) refl
      (omega arith)
