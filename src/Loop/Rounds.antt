-- ===== src/Loop/Rounds.antt =====
-- One round of `EventLoop::Loop` in event_loop.cpp: what it does to the queue, and which task it runs.
use network_poller.Prelude.{
  ℕ, ◌≡◌, refl, sym, ap, ◌∙◌, none, some, List, [], ◌∷◌, ◌++◌, append_assoc, append-nil,
}
use network_poller.Result.{Result, ok}
use network_poller.Poller.Epoll.{Epoll}
use network_poller.Poller.{WaitResult, poll_total}
use network_poller.Loop.External.{TaskQueue}
use network_poller.Loop.Defs.{World}
use network_poller.Loop.Run.{handle_each, handle_event_context, run_task_funcs, one_round}

module _ (e : Epoll) {Task : Type 0} (tq : TaskQueue Task) {R : Type 0}
    (exec : Task → World e tq R → Result (World e tq R))
    (handle : ℕ → World e tq R → Result (World e tq R)) (log : R → List Task) where
  -- What a task or a handler may do to the loop: enqueue tasks, and no more. `ran` is what it adds
  -- to the log.
  pub record Adds (w w' : World e tq R) (ran : List Task) : Type 0 where
    pub posted : List Task
    pub queued : tq.items w'.queue ≡ tq.items w.queue ++ posted
    pub logged : log w'.rest ≡ log w.rest ++ ran
    pub same_quit : w'.quit ≡ w.quit
    pub same_thread : w'.poller.thread_id ≡ w.poller.thread_id

  -- Tasks log themselves, handlers log nothing, and both return.
  pub record Orderly : Type 0 where
    pub runs :
        (task : Task) (w : World e tq R)
        → (w' : World e tq R) × (exec task w ≡ ok w') × Adds w w' (task ∷ [])
    pub handles :
        (id : ℕ) (w : World e tq R) → (w' : World e tq R) × (handle id w ≡ ok w') × Adds w w' []

  -- `ts` waits at the front of the queue afterwards, and `ran` has been run.
  pub record Told (w w' : World e tq R) (ts ran : List Task) : Type 0 where
    pub more : List Task
    pub queued : tq.items w'.queue ≡ ts ++ more
    pub logged : log w'.rest ≡ log w.rest ++ ran
    pub same_quit : w'.quit ≡ w.quit
    pub same_thread : w'.poller.thread_id ≡ w.poller.thread_id

  module _ (orderly : Orderly) where
    handle_each-Told :
        (ids : List ℕ) (w : World e tq R)
        → (w' : World e tq R) × (handle_each e tq exec handle ids w ≡ ok w')
          × Told w w' (tq.items w.queue) []
    unfolding handle_each
    handle_each-Told [] w = (
      w,
      refl,
      record {
        more = [];
        queued = sym (append-nil (tq.items w.queue));
        logged = sym (append-nil (log w.rest));
        same_quit = refl;
        same_thread = refl;
      },
    )
    handle_each-Told (id ∷ ids) w =
        let (w1, ran, a) = orderly.handles id (record w { active = some id }) in
        let (w2, rest, t) = handle_each-Told ids w1 in
        (
          w2,
          rw ran rest,
          record {
            more = a.posted ++ t.more;
            queued =
                t.queued
                ∙ ap (λ ts. ts ++ t.more) a.queued
                ∙ append_assoc (tq.items w.queue) a.posted t.more;
            logged = t.logged ∙ append-nil (log w1.rest) ∙ a.logged;
            same_quit = t.same_quit ∙ a.same_quit;
            same_thread = t.same_thread ∙ a.same_thread;
          },
        )

    -- Without a task at hand, whatever is run leaves the log longer.
    idle-Told :
        (w : World e tq R) (ts : List Task)
        → tq.items w.queue ≡ ts
        → (w' : World e tq R) × (ran : List Task) × (run_task_funcs e tq exec handle w ≡ ok w')
          × Told w w' [] ran
    unfolding run_task_funcs
    idle-Told w [] none_left = (
      w,
      [],
      rw (tq.dequeue_none w.queue none_left, run_task_funcs) refl,
      record {
        more = tq.items w.queue;
        queued = refl;
        logged = sym (append-nil (log w.rest));
        same_quit = refl;
        same_thread = refl;
      },
    )
    idle-Told w (task ∷ ts) waiting =
        let (q, taken, left) = tq.dequeue_some w.queue task ts waiting in
        let (w', ran, a) = orderly.runs task (record w { queue = q }) in
        (
          w',
          task ∷ [],
          rw (taken, run_task_funcs) ran,
          record {
            more = tq.items w'.queue;
            queued = refl;
            logged = a.logged;
            same_quit = a.same_quit;
            same_thread = a.same_thread;
          },
        )

    -- The task at the front is run, and those behind it move up.
    run_task_funcs-Told :
        (w : World e tq R) (task : Task) (ts extra : List Task)
        → tq.items w.queue ≡ task ∷ (ts ++ extra)
        → (w' : World e tq R) × (run_task_funcs e tq exec handle w ≡ ok w')
          × Told w w' ts (task ∷ [])
    unfolding run_task_funcs
    run_task_funcs-Told w task ts extra waiting =
        let (q, taken, left) = tq.dequeue_some w.queue task (ts ++ extra) waiting in
        let (w', ran, a) = orderly.runs task (record w { queue = q }) in
        (
          w',
          rw (taken, run_task_funcs) ran,
          record {
            more = extra ++ a.posted;
            queued = a.queued ∙ ap (λ xs. xs ++ a.posted) left ∙ append_assoc ts extra a.posted;
            logged = a.logged;
            same_quit = a.same_quit;
            same_thread = a.same_thread;
          },
        )

    -- One round with tasks at hand, and one with none.
    pub one_round-Told :
        (waited : WaitResult) (w : World e tq R) (task : Task) (ts extra : List Task)
        → tq.items w.queue ≡ task ∷ (ts ++ extra)
        → (w' : World e tq R) × (one_round e tq exec handle w.poller.thread_id waited w ≡ ok w')
          × Told w w' ts (task ∷ [])
    unfolding one_round handle_event_context
    one_round-Told waited w task ts extra waiting =
        let (out, polled, thread) = poll_total e waited w.poller w.heap [] in
        let w0 : World e tq R = record w {
          poller = out.0;
          heap = out.1;
          active_list = out.2;
          active = none;
        } in
        let (w1, handled, t1) = handle_each-Told out.2 w0 in
        let (w2, ran, t2) =
          run_task_funcs-Told (record w1 { active = none }) task ts (extra ++ t1.more)
            (t1.queued
              ∙ ap (λ xs. xs ++ t1.more) waiting
              ∙ ap (◌∷◌ task) (append_assoc ts extra t1.more)) in
        (
          w2,
          rw (polled, handled) ran,
          record {
            more = t2.more;
            queued = t2.queued;
            logged = t2.logged ∙ ap (λ xs. xs ++ task ∷ []) (t1.logged ∙ append-nil (log w.rest));
            same_quit = t2.same_quit ∙ t1.same_quit;
            same_thread = t2.same_thread ∙ t1.same_thread ∙ thread;
          },
        )

    pub idle_round-Told :
        (waited : WaitResult) (w : World e tq R)
        → (w' : World e tq R) × (ran : List Task) × (one_round e tq exec handle w.poller.thread_id
              waited w
            ≡ ok w')
          × Told w w' [] ran
    unfolding one_round handle_event_context
    idle_round-Told waited w =
        let (out, polled, thread) = poll_total e waited w.poller w.heap [] in
        let w0 : World e tq R = record w {
          poller = out.0;
          heap = out.1;
          active_list = out.2;
          active = none;
        } in
        let (w1, handled, t1) = handle_each-Told out.2 w0 in
        let (w2, ran, called, t2) =
          idle-Told (record w1 { active = none }) (tq.items w1.queue) refl in
        (
          w2,
          ran,
          rw (polled, handled) called,
          record {
            more = t2.more;
            queued = t2.queued;
            logged = t2.logged ∙ ap (λ xs. xs ++ ran) (t1.logged ∙ append-nil (log w.rest));
            same_quit = t2.same_quit ∙ t1.same_quit;
            same_thread = t2.same_thread ∙ t1.same_thread ∙ thread;
          },
        )
