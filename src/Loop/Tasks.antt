-- ===== src/Loop/Tasks.antt =====
-- The task queue of event_loop.cpp: order, service and the quit flag.
use network_poller.Prelude.{
  ℕ, ◌≡◌, ◌≢◌, refl, sym, ap, ◌∙◌, Bool, true, false, inl, inr, ◌⊎◌, List, [], ◌∷◌, ◌++◌,
  append_assoc, append-nil, ==_refl, ==_ne,
}
use network_poller.Result.{Result, ok}
use network_poller.Poller.Epoll.{Epoll, same_or_not}
use network_poller.Loop.External.{TaskQueue}
use network_poller.Loop.Defs.{World, queue_in_loop, is_in_loop_thread}
use network_poller.Loop.Run.{
  Round, run_in_loop, run_task_funcs, arrive, interfere, while_not_quit, loop,
}

module _ (e : Epoll) {Task : Type 0} (tq : TaskQueue Task) {R : Type 0} where
  -- Tasks that arrive stand behind those that wait, in their order, and change nothing else.
  pub arrive_lem :
      (tasks : List Task) (w : World e tq R)
      → (q : tq.Queue) × (arrive e tq tasks w ≡ record w { queue = q })
        × (tq.items q ≡ tq.items w.queue ++ tasks)
  unfolding arrive queue_in_loop
  arrive_lem [] w = (w.queue, refl, sym (append-nil (tq.items w.queue)))
  arrive_lem (task ∷ tasks) w =
      let (q, same, items) = arrive_lem tasks (record w { queue = tq.enqueue task w.queue }) in
      (
        q,
        same,
        items
            ∙ ap (λ ts. ts ++ tasks) (tq.enqueue_lem task w.queue)
            ∙ append_assoc (tq.items w.queue) (task ∷ []) tasks,
      )

module _ (e : Epoll) {Task : Type 0} (tq : TaskQueue Task) {R : Type 0}
    (exec : Task → World e tq R → Result (World e tq R))
    (handle : ℕ → World e tq R → Result (World e tq R)) where
  -- RunTaskFuncs takes the first task and runs it.
  pub run_task_funcs-first :
      (task : Task) (ts : List Task) (w : World e tq R)
      → tq.items w.queue ≡ task ∷ ts
      → (q : tq.Queue) × (tq.items q ≡ ts)
        × (run_task_funcs e tq exec handle w ≡ exec task (record w { queue = q }))
  unfolding run_task_funcs
  run_task_funcs-first task ts w waiting =
      let (q, got, items) = tq.dequeue_some w.queue task ts waiting in
      (q, items, rw (got, run_task_funcs) refl)

  -- Loop clears the quit flag first: a Quit that came before it has no effect on the run.
  pub loop_forgets_quit :
      (this_thread : ℕ) (rs : List (Round Task)) (b : Bool) (w : World e tq R)
      → loop e tq exec handle this_thread rs (record w { quit = b })
        ≡ loop e tq exec handle this_thread rs w
  unfolding loop
  loop_forgets_quit this_thread rs b w = refl

  -- A Quit that another thread makes before the round's test ends the loop at that test: no
  -- further round runs, and `looping_` is cleared.
  pub loop_quits :
      (this_thread : ℕ) (r : Round Task) (rs : List (Round Task)) (w : World e tq R)
      → r.asked_to_quit ≡ true
      → (w' : World e tq R) × (loop e tq exec handle this_thread (r ∷ rs) w ≡ ok (true, w'))
        × (w'.looping ≡ false)
        × (tq.items w'.queue ≡ tq.items w.queue ++ r.arrived)
        × (w'.rest ≡ w.rest)
  unfolding loop while_not_quit interfere
  loop_quits this_thread r rs w asked =
      let start : World e tq R = record w { looping = true; quit = false } in
      let (q, same, items) = arrive_lem e tq r.arrived start in
      (
        record w { looping = false; quit = true; queue = q },
        rw (same, asked) refl,
        refl,
        items,
        refl,
      )

  -- RunInLoop runs a task at once on the loop's own thread; from any other thread it only puts it
  -- behind the tasks that wait.
  pub run_in_loop_cases :
      (this_thread : ℕ) (task : Task) (w : World e tq R)
      → ((this_thread ≡ w.thread_id)
          × (run_in_loop e tq exec handle this_thread task w ≡ exec task w))
        ⊎ ((this_thread ≢ w.thread_id)
            × (w' : World e tq R) × (run_in_loop e tq exec handle this_thread task w ≡ ok w')
            × (tq.items w'.queue ≡ tq.items w.queue ++ task ∷ [])
            × (w' ≡ record w { queue = w'.queue }))
  unfolding run_in_loop is_in_loop_thread queue_in_loop
  run_in_loop_cases this_thread task w = elim (same_or_not this_thread w.thread_id) [
    | inl same ↦ inl (same, rw (same, ==_refl w.thread_id) refl)
    | inr ne ↦ inr (
      ne,
      record w { queue = tq.enqueue task w.queue },
      rw (==_ne this_thread w.thread_id ne) refl,
      tq.enqueue_lem task w.queue,
      refl,
    )
  ]
