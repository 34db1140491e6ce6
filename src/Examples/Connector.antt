-- ===== src/Examples/Connector.antt =====
-- Connectors whose channel stands at address 7 with the descriptor 5.
use network_poller.Prelude.{
  ℕ, ◌≡◌, ◌≢◌, refl, Bool, true, false, Option, none, some, [], ◌∷◌, arith,
}
use network_poller.Result.{Result, ok}
use network_poller.Channel.{Channel, Ready, report}
use network_poller.Poller.{happened}
use network_poller.Poller.Epoll.{update_all}
use network_poller.Loop.{one_round}
use network_poller.Connector.{
  connecting, Job, Connector, Attempt, Net, start, start_in_loop, exec, close, connect, Watching,
  Reported, start_in_loop-gives_up, failed_attempt-Watching, handle_attempt, writing_only,
}
use network_poller.Examples.Kernel.{table_epoll, table_room, list_queue}
use network_poller.Examples.Worlds.{
  fresh, registered, idle_world, watching_world, watching-Registry, seven-IsKnown,
}

abbrev quiet : Option ℕ → Connector
quiet channel = record {
  state = connecting;
  channel = channel;
  has_callback = true;
  handed = [];
  closed = [];
  errno = 11;
}

-- The usual answer of a socket that does not block, and a refusal.
abbrev in_progress : Attempt
in_progress = record { fd = 6; error = some 115; address = 9; garbage = 0 }

abbrev refused : Attempt
refused = record { fd = 6; error = some 111; address = 9; garbage = 0 }

abbrev at_first : Net table_epoll (list_queue Job)
at_first = idle_world Job (quiet none)

abbrev reported : Net table_epoll (list_queue Job)
reported = watching_world Job (quiet (some 7)) writing_only

reported-Reported : Reported table_epoll table_room (list_queue Job) 1 7 reported
reported-Reported = record {
  trying = record {
    here = refl;
    state = refl;
    registry = watching-Registry Job (quiet (some 7)) writing_only;
  };
  channel = refl;
  known = seven-IsKnown Job (quiet (some 7)) writing_only;
  may = refl;
}

not_six : (j : ℕ) → (reported.heap j).fd ≢ 6
not_six =
    update_all (λ j (c : Channel). c.fd ≢ 6) fresh 7 (registered writing_only) (omega arith)
      (λ j ne. omega arith)

start_in_loop-gives_up_example :
    (w' : Net table_epoll (list_queue Job)) × (start_in_loop table_epoll
        (list_queue Job)
        1
        refused
        at_first
      ≡ ok w')
    × (w'
        ≡ close table_epoll
            (list_queue Job)
            6
            (connect table_epoll (list_queue Job) refused at_first))
    × ((handle : ℕ → Net table_epoll (list_queue Job) → Result (Net table_epoll (list_queue Job)))
          (other_thread : ℕ) (spurious : Bool) (again : Attempt)
        → start table_epoll (list_queue Job) other_thread handle spurious again w' ≡ ok w')
start_in_loop-gives_up_example =
    start_in_loop-gives_up table_epoll table_room (list_queue Job) 1 refused at_first refl refl refl

-- What epoll says of a connection that was refused.
abbrev refusal : Ready
refusal = record {
  readable = true;
  urgent = false;
  writable = true;
  failed = true;
  hung_up = true;
  invalid = false;
  peer_closed = true;
}

abbrev others : ℕ → Net table_epoll (list_queue Job) → Result (Net table_epoll (list_queue Job))
others id w = ok w

failed_attempt-Watching_example :
    (w1 w2 : Net table_epoll (list_queue Job)) × (one_round table_epoll
        (list_queue Job)
        (exec table_epoll (list_queue Job) 1 in_progress)
        (handle_attempt table_epoll table_room (list_queue Job) 1 others 7 111)
        1
        (happened ((report refusal, 7) ∷ []))
        reported
      ≡ ok w1)
    × (one_round table_epoll
          (list_queue Job)
          (exec table_epoll (list_queue Job) 1 in_progress)
          (handle_attempt table_epoll table_room (list_queue Job) 1 others 7 111)
          1
          (happened [])
          w1
        ≡ ok w2)
    × Watching table_epoll table_room
        (list_queue Job)
        1
        in_progress
        (record w1 { queue = w2.queue; active_list = []; active = none })
        w2
    × (w2.rest.closed ≡ 5 ∷ [])
    × (w2.queue ≡ [])
failed_attempt-Watching_example =
    failed_attempt-Watching table_epoll table_room (list_queue Job) 1 7 reported 111 in_progress
      others refusal
      (record {
        trying = reported-Reported.trying;
        channel = refl;
        known = seven-IsKnown Job (quiet (some 7)) writing_only;
      })
      refl (omega arith) refl refl (λ j ne known. not_six j) refl
