-- ===== src/Examples/System.antt =====
-- A server on the loop at address 9, alone and with one worker loop, at address 10. The connection at
-- address 70 comes with descriptor 7, is established, and is closed.
use network_poller.Prelude.{ℕ, sym, ◌+◌, ◌≡◌, refl, inl, [], ◌∷◌, false, arith}
use network_poller.Result.{ok, fault, assertion}
use network_poller.Pool.{
  initialize, new_pool, start_from, get_elem?, get_event_loop_from_pool_for_hash,
}
use network_poller.Connection.{Task, disconnecting, close_handler, tell_closed}
use network_poller.Examples.Kernel.{table_epoll, table_room}
use network_poller.Examples.Worlds.{watching_world, watching-Registry, seven-IsKnown}
use network_poller.Examples.Connected.{reading, tasks, Sample, hooks, connection, ready-IsValid}
use network_poller.Server.{destroys, new_server, set_thread_num, start, new_connected}
use network_poller.Server.System.{
  up_of_added, Reachable-closed_twice, System, Move, arrives, runs, shuts, closes, do_move, arrive,
  run_task, dequeue, do_post, establish, disconnect, update_channel, update_as, begin, Reachable,
  starts, next, produce, shut_peer, Sound, Reachable-Sound, Shows, closing, handle-Shows,
}

abbrev after : Move → System ℕ → System ℕ
after m s = elim (do_move ℕ m s) [ ok s' ↦ s' | fault _ ↦ s ]

abbrev new_threads : ℕ → ℕ
new_threads i = 10 + i

-- With no thread of its own, and with one.
abbrev started_with : ℕ → System ℕ
started_with num = after (runs 9) (begin ℕ 9 4 num new_threads)

abbrev arrived : System ℕ
arrived = after (arrives 7 70) (started_with 0)

abbrev established : System ℕ
established = after (runs 9) arrived

abbrev shut_down : System ℕ
shut_down = after (shuts 9 false 70) established

abbrev closed : System ℕ
closed = after (closes 70) shut_down

reach : Reachable ℕ 9 4 0 new_threads shut_down
unfolding do_move arrive run_task dequeue do_post establish update_channel update_as start
    set_thread_num new_server initialize new_pool start_from new_connected produce shut_peer
    get_event_loop_from_pool_for_hash get_elem?
reach =
    next (shuts 9 false 70)
      (next (runs 9)
        (next (arrives 7 70) (next (runs 9) starts tt refl)
          (
            record { unposted = refl; unknown = refl },
            λ k. inl record { unposted = refl; unknown = refl },
          )
          refl)
        tt refl)
      refl refl

Reachable-closed_twice_example :
    (s1 s2 s3 : System ℕ) × (do_move ℕ (closes 70) shut_down ≡ ok s1)
    × (do_move ℕ (closes 70) s1 ≡ ok s2)
    × (s2.server.posted ≡ (9, destroys 70) ∷ (9, destroys 70) ∷ [])
    × (do_post ℕ 9 (destroys 70) s2 ≡ ok s3)
    × (do_post ℕ 9 (destroys 70) s3 ≡ fault assertion)
unfolding do_move arrive run_task dequeue do_post establish update_channel update_as start
    set_thread_num new_server initialize new_pool start_from new_connected produce shut_peer
    get_event_loop_from_pool_for_hash get_elem?
Reachable-closed_twice_example =
    Reachable-closed_twice ℕ 9 4 0 new_threads (omega arith) 70 reach refl refl

-- The same with a worker's loop, at address 10.
abbrev arrived_away : System ℕ
arrived_away = after (arrives 7 70) (started_with 1)

abbrev away : System ℕ
away = after (runs 10) arrived_away

shut_down-Sound : Sound ℕ shut_down
shut_down-Sound = Reachable-Sound ℕ 9 4 0 new_threads (omega arith) reach

abbrev half_closed : Sample
half_closed = watching_world Task (connection disconnecting []) reading

handle-Shows_example :
    (w : Sample) × (s : System ℕ) × (close_handler table_epoll tasks hooks 1 half_closed
      ≡ tell_closed table_epoll table_room tasks hooks 1 w)
    × (disconnect ℕ 70 shut_down ≡ ok s)
    × Shows table_epoll tasks ℕ 70 s w
unfolding do_move arrive run_task dequeue do_post establish update_channel update_as start
    set_thread_num new_server initialize new_pool start_from new_connected produce shut_peer
    get_event_loop_from_pool_for_hash get_elem?
handle-Shows_example =
    handle-Shows table_epoll table_room tasks hooks 1 ℕ closing 70 shut_down shut_down-Sound
      half_closed
      (
        up_of_added (shut_down-Sound.stage 70) (sym (shut_down-Sound.at 70).status),
        reading,
        record {
          here = refl;
          registry = watching-Registry Task (connection disconnecting []) reading;
          known = seven-IsKnown Task (connection disconnecting []) reading;
          mask = refl;
          valid = ready-IsValid;
        },
      )
      record { state = refl; status = refl; wants = refl; known = refl }

abbrev at_rest : System ℕ
at_rest = after (runs 9) closed
