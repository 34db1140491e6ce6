-- ===== src/Examples/Server.antt =====
-- A server on the loop at address 9, with three worker loops and callbacks that are numbers.
use network_poller.Prelude.{ℕ, ◌+◌, ◌≡◌, refl, true, false, some, none, List, [], ◌∷◌}
use network_poller.Result.{ok}
use network_poller.Pool.{Pool, new_pool, initialize, start_from, get_event_loop_from_pool_for_hash}
use network_poller.Server.{
  Server, new_server, start, set_write_complete_cb, serve, new_connected, Request,
  sets_write_complete, starts, connects, serve_each, joined, post, listens,
  serve_each-unset_written,
}

abbrev three : Pool
three = record { thread_num = 3; main_loop = 9; next_index = 0; loops = 10 ∷ 11 ∷ 12 ∷ [] }

abbrev running : Server ℕ
running = record (new_server ℕ 9) {
  thread_num = 3;
  started = true;
  pool = some three;
  connections = λ _. none;
  server_loop = 9;
  posted = [];
}

abbrev requests : List (Request ℕ)
requests = sets_write_complete 5 ∷ starts false (λ i. 10 + i) ∷ connects true 7 70 ∷ []

abbrev served : Server ℕ
served = joined ℕ 9 7 70 (
    post ℕ 9 listens (record (new_server ℕ 9) {
      wrote_cb = some 5;
      started = true;
      pool = some (record { thread_num = 0; main_loop = 9; next_index = 0; loops = [] });
    }))

all_served : serve_each ℕ requests (new_server ℕ 9) ≡ ok served
unfolding serve_each serve new_server start set_write_complete_cb new_connected initialize new_pool
    start_from get_event_loop_from_pool_for_hash
all_served = refl

serve_each-unset_written_example : (served.slots 70).written ≡ none
serve_each-unset_written_example = serve_each-unset_written ℕ requests 9 served all_served 70
