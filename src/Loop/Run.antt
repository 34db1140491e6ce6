-- ===== src/Loop/Run.antt =====
-- EventLoop of core/net/event/event_loop.cpp in motion: its construction, the rounds of `Loop`, the
-- task queue, `Quit` and the wake-up descriptor.
use network_poller.Prelude.{
  ℕ, Bool, true, false, ◌||◌, Option, none, some, List, [], ◌∷◌, ◌==◌, if◌then◌else◌,
}
use network_poller.Result.{Result, ok, ◌>>=◌, ◌>>◌, assert_that}
use network_poller.Channel.{Channel, new_event_channel}
use network_poller.Poller.Epoll.{Epoll, update}
use network_poller.Poller
use network_poller.Poller.{WaitResult}
use network_poller.Loop.External.{TaskQueue, EventFd, IoResult, count, io_failed}
use network_poller.Loop.Defs.{
  World, is_in_loop_thread, queue_in_loop, enable_reading, disable_all, remove_from_loop,
}

-- What the other threads have done since the last test of `quit_`, and what `epoll_wait` returns in
-- the round that follows.
pub record Round (Task : Type 0) : Type 0 where
  pub arrived : List Task
  pub asked_to_quit : Bool
  pub waited : WaitResult

module _ (fd : EventFd) where
  open fd use {Counter}

  abbrev is_count : ℕ → IoResult → Bool
  is_count n (count m) = n == m
  is_count n (io_failed _ _) = false

  -- Wakeup: four bytes of an uninitialised `one`. The Boolean is whether it logs an error.
  unfoldable pub wakeup : ℕ → Counter → Bool × Counter
  wakeup one c = let (n, c') = fd.write 4 one c in (if is_count 4 n then false else true, c')

  -- HandleWakeupEvent.
  unfoldable pub handle_wakeup_event : Counter → Bool × Counter
  handle_wakeup_event c = let (n, c') = fd.read 4 c in (if is_count 4 n then false else true, c')

module _ (e : Epoll) {Task : Type 0} (tq : TaskQueue Task) {R : Type 0} where
  -- The constructor: `existing` is `evt_loop_this_thread`, `wakeup_channel` and `wakeup_fd` the
  -- address and the descriptor of the new channel, `garbage` its uninitialised members.
  unfoldable pub new_event_loop :
      ℕ
      → Option ℕ
      → ℕ
      → e.Kernel
      → tq.Queue
      → (ℕ → Channel)
      → ℕ
      → ℕ
      → ℕ
      → Option ℕ
      → R
      → Result (World e tq R)
  new_event_loop this_thread existing self created queue heap wakeup_channel wakeup_fd garbage
        active r =
      do
        poller ← Poller.new_poller e this_thread this_thread created
        let w : World e tq R = record {
          self = self;
          thread_id = this_thread;
          quit = false;
          looping = false;
          poller = poller;
          active_list = [];
          active = active;
          queue = queue;
          heap =
              update heap wakeup_channel (new_event_channel wakeup_channel self wakeup_fd garbage);
          rest = r;
        }
        assert_that (Poller.is_none existing)
        enable_reading e tq this_thread wakeup_channel w

  -- The destructor, up to the closing of the descriptor.
  unfoldable pub close_event_loop : ℕ → ℕ → World e tq R → Result (World e tq R)
  close_event_loop this_thread wakeup_channel w = do
    w1 ← disable_all e tq this_thread wakeup_channel w
    remove_from_loop e tq this_thread wakeup_channel w1

  -- Quit: a thread other than the loop's also calls Wakeup.
  unfoldable pub quit_loop :
      (fd : EventFd) → ℕ → ℕ → fd.Counter → World e tq R → World e tq R × fd.Counter
  quit_loop fd one this_thread c w = (
    record w { quit = true },
    if is_in_loop_thread e tq this_thread w then c else (wakeup fd one c).1,
  )

  -- Other threads enqueue tasks and ask the loop to quit.
  unfoldable pub arrive : List Task → World e tq R → World e tq R
  arrive [] w = w
  arrive (task ∷ tasks) w = arrive tasks (queue_in_loop e tq task w)

  unfoldable pub interfere : Round Task → World e tq R → World e tq R
  unfolding arrive
  interfere r w = let w' = arrive r.arrived w in record w' { quit = w'.quit || r.asked_to_quit }

  -- What running a task does, and `HandleEvent` of the channel at an address.
  module _ (exec : Task → World e tq R → Result (World e tq R))
      (handle : ℕ → World e tq R → Result (World e tq R)) where
    unfoldable pub run_in_loop : ℕ → Task → World e tq R → Result (World e tq R)
    run_in_loop this_thread task w =
        if is_in_loop_thread e tq this_thread w then exec task w else ok (queue_in_loop e tq task w)

    unfoldable pub handle_each : List ℕ → World e tq R → Result (World e tq R)
    handle_each [] w = ok w
    handle_each (id ∷ ids) w = do w' ← handle id (record w { active = some id }); handle_each ids w'

    unfoldable pub handle_event_context : List ℕ → World e tq R → Result (World e tq R)
    unfolding handle_each
    handle_event_context ids w = do
      w' ← handle_each ids (record w { active = none })
      ok (record w' { active = none })

    -- One task at most.
    unfoldable pub run_task_funcs : World e tq R → Result (World e tq R)
    run_task_funcs w = elim (tq.try_dequeue w.queue) [
      | none ↦ ok w
      | some (task, q) ↦ exec task (record w { queue = q })
    ]

    -- The body of the loop.
    unfoldable pub one_round : ℕ → WaitResult → World e tq R → Result (World e tq R)
    one_round this_thread waited w = do
      (p, heap, active_list) ← Poller.poll e this_thread waited w.poller w.heap []
      w1 ←
          handle_event_context active_list
            (record w { poller = p; heap = heap; active_list = active_list })
      run_task_funcs w1

    -- The while loop over the rounds given. The Boolean is whether it ended; otherwise the rounds
    -- are used up, and it goes on from that state.
    unfoldable pub while_not_quit :
        ℕ → List (Round Task) → World e tq R → Result (Bool × World e tq R)
    while_not_quit this_thread [] w = ok (false, w)
    while_not_quit this_thread (r ∷ rs) w =
        let w' = interfere r w in
        let go_on : Result (Bool × World e tq R) =
          one_round this_thread r.waited w' >>= while_not_quit this_thread rs in
        if w'.quit then ok (true, w') else go_on

    -- Loop.
    unfoldable pub loop : ℕ → List (Round Task) → World e tq R → Result (Bool × World e tq R)
    loop this_thread rs w = do
      (ended, w') ← while_not_quit this_thread rs (record w { looping = true; quit = false })
      ok (ended, if ended then record w' { looping = false } else w')
