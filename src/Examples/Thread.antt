-- ===== src/Examples/Thread.antt =====
-- Runs of an owner and the thread that it starts.
use network_poller.Prelude.{◌≡◌, ◌≢◌, refl, Bool, true, false}
use network_poller.Thread.{
  free, got, joining, published, looping, finished, Thread, OwnerStep, WorkerStep, of_owner,
  of_worker, now, next, Reach, Reach-got, quit_before_loop-hangs,
}

-- GetLoopInThread has returned, and the new thread is about to call Loop.
abbrev ready : Thread
ready = record {
  owner = got true;
  worker = published;
  created = true;
  started_flag = true;
  quited = false;
  loop_set = true;
  quit = false;
  base_lock = free;
  loop_lock = free;
}

-- The owner sleeps in GetLoopInThread when the loop is published.
ready-Reach : Reach false ready
ready-Reach =
    next
      (next
        (next
          (next
            (next
              (next
                (next
                  (next
                    (next
                      (next (next now (of_owner (OwnerStep.locks_base refl refl refl)))
                        (of_owner (OwnerStep.creates_thread refl)))
                      (of_owner (OwnerStep.sets_started refl)))
                    (of_owner (OwnerStep.locks_loop refl refl)))
                  (of_owner (OwnerStep.sleeps refl refl)))
                (of_worker (WorkerStep.enters refl refl)))
              (of_worker (WorkerStep.goes_on refl refl)))
            (of_worker (WorkerStep.locks_loop refl refl refl)))
          (of_worker (WorkerStep.publishes refl refl)))
        (of_owner (OwnerStep.locks_again refl refl)))
      (of_owner (OwnerStep.returns_loop refl))

Reach-got_example : ◌≡◌ {A = Bool} true true
Reach-got_example = Reach-got ready-Reach refl

-- The destructor, and then the first line of Loop.
abbrev hung : Thread
hung = record ready { owner = joining; worker = looping; quited = true; quit = false }

quit_before_loop-hangs_example : (hung.owner ≡ joining) × (hung.worker ≢ finished)
quit_before_loop-hangs_example =
    quit_before_loop-hangs {b = false} ready {t = hung} refl refl refl
      (next now (of_worker (WorkerStep.clears_quit refl))) refl
