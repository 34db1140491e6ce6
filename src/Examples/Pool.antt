-- ===== src/Examples/Pool.antt =====
-- A pool of three loops.
use network_poller.Prelude.{ℕ, ◌%◌, ◌≡◌, ◌⊎◌, some, List, [], ◌∷◌, arith, true, false, length, drop}
use network_poller.Pool.{
  Pool, is_nil, get_event_loop_from_pool_for_hash, get_event_loop_from_pool_for_hash-total,
}

abbrev three : Pool
three = record { thread_num = 3; main_loop = 9; next_index = 1; loops = 10 ∷ 11 ∷ 12 ∷ [] }

get_event_loop_from_pool_for_hash-total_example :
    ((is_nil three.loops ≡ true) × (get_event_loop_from_pool_for_hash 7 three ≡ some 9))
    ⊎ ((is_nil three.loops ≡ false)
        × (x : ℕ) × (rest : List ℕ) × (drop (7 % length three.loops) three.loops ≡ x ∷ rest)
        × (get_event_loop_from_pool_for_hash 7 three ≡ some x))
get_event_loop_from_pool_for_hash-total_example =
    get_event_loop_from_pool_for_hash-total 7 three (omega arith)
