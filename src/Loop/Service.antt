-- ===== src/Loop/Service.antt =====
-- Every queued task is run: one in each round of `EventLoop::Loop`, in the order of the queue.
use network_poller.Prelude.{
  ℕ, ◌≤◌, ◌≡◌, refl, sym, ap, ◌∙◌, false, ◌||◌, List, [], ◌∷◌, ◌++◌, arith, length, append_assoc,
  append-nil,
}
use network_poller.Result.{Result, ok}
use network_poller.Poller.Epoll.{Epoll}
use network_poller.Loop.External.{TaskQueue}
use network_poller.Loop.Defs.{World}
use network_poller.Loop.Run.{Round, interfere, while_not_quit}
use network_poller.Loop.Tasks.{arrive_lem}
use network_poller.Loop.Rounds.{Orderly, idle_round-Told, one_round-Told}

module _ (e : Epoll) {Task : Type 0} (tq : TaskQueue Task) {R : Type 0}
    (exec : Task → World e tq R → Result (World e tq R))
    (handle : ℕ → World e tq R → Result (World e tq R)) (log : R → List Task) where
  module _ (orderly : Orderly e tq exec handle log) where
    -- No round is asked to quit.
    abbrev pub Undisturbed : List (Round Task) → Type 0
    Undisturbed [] = Unit {0}
    Undisturbed (r ∷ rs) = (r.asked_to_quit ≡ false) × Undisturbed rs

    -- Before a round that nobody asks to quit, tasks only arrive.
    interfere-calm :
        (r : Round Task) (w : World e tq R)
        → r.asked_to_quit ≡ false
        → w.quit ≡ false
        → (q : tq.Queue) × (interfere e tq r w ≡ record w { quit = false; queue = q })
          × (tq.items q ≡ tq.items w.queue ++ r.arrived)
    unfolding interfere
    interfere-calm r w calm running =
        let (q, same, items) = arrive_lem e tq r.arrived w in
        let still : w.quit || r.asked_to_quit ≡ false = ground arith in
        (q, rw same (ap (λ b. record w { quit = b; queue = q }) still), items)

    -- If tasks and handlers return, only ever enqueue, and nobody quits the loop, then whatever
    -- arrives and whatever epoll reports, the tasks that stand at the front of the queue have all
    -- been run, in their order and before any other, after as many rounds as there are of them, and
    -- the loop is still running.
    pub while_not_quit-serves :
        (rs : List (Round Task)) (w : World e tq R) (ts extra : List Task)
        → Undisturbed rs
        → w.quit ≡ false
        → tq.items w.queue ≡ ts ++ extra
        → length ts ≤ length rs
        → (w' : World e tq R) × (later : List Task) × (while_not_quit e tq exec handle
              w.poller.thread_id rs w
            ≡ ok (false, w'))
          × (log w'.rest ≡ (log w.rest ++ ts) ++ later)
    unfolding while_not_quit
    while_not_quit-serves [] w [] extra calm running waiting enough =
        (w, [], refl, sym (append-nil (log w.rest ++ []) ∙ append-nil (log w.rest)))
    while_not_quit-serves [] w (task ∷ ts) extra calm running waiting enough = absurd (omega arith)
    while_not_quit-serves (r ∷ rs) w [] extra calm running waiting enough =
        let (q, same, items) = interfere-calm r w calm.0 running in
        let (w1, ran, called, t) =
          idle_round-Told e tq exec handle log orderly r.waited
            (record w { quit = false; queue = q }) in
        let (w2, later, rest, logged) =
          while_not_quit-serves rs w1 [] (tq.items w1.queue) calm.1 t.same_quit refl
            (omega arith) in
        (
          w2,
          ran ++ later,
          rw (same, called)
              (ap (λ n. while_not_quit e tq exec handle n rs w1) (sym t.same_thread) ∙ rest),
          logged
              ∙ ap (λ xs. xs ++ later) (append-nil (log w1.rest) ∙ t.logged)
              ∙ append_assoc (log w.rest) ran later
              ∙ ap (λ xs. xs ++ (ran ++ later)) (sym (append-nil (log w.rest))),
        )
    while_not_quit-serves (r ∷ rs) w (task ∷ ts) extra calm running waiting enough =
        let (q, same, items) = interfere-calm r w calm.0 running in
        let (w1, called, t) =
          one_round-Told e tq exec handle log orderly r.waited
            (record w { quit = false; queue = q }) task ts (extra ++ r.arrived)
            (items
              ∙ ap (λ xs. xs ++ r.arrived) waiting
              ∙ ap (◌∷◌ task) (append_assoc ts extra r.arrived)) in
        let (w2, later, rest, logged) =
          while_not_quit-serves rs w1 ts t.more calm.1 t.same_quit t.queued (omega arith) in
        (
          w2,
          later,
          rw (same, called)
              (ap (λ n. while_not_quit e tq exec handle n rs w1) (sym t.same_thread) ∙ rest),
          logged
              ∙ ap (λ xs. (xs ++ ts) ++ later) t.logged
              ∙ ap (λ xs. xs ++ later) (append_assoc (log w.rest) (task ∷ []) ts),
        )
