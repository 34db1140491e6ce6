-- ===== src/Loop/Reports.antt =====
-- Rounds of `EventLoop::Loop` in which epoll reports one channel, or none.
use network_poller.Prelude.{ℕ, ◌≡◌, refl, sym, ap, ◌∙◌, subst, none, some, List, [], ◌∷◌, ==_refl}
use network_poller.Result.{Result, ok, fault, ◌>>=◌}
use network_poller.Channel.{Channel, Status, new_channel, added_channel, delete_channel}
use network_poller.Poller.Epoll.{Epoll}
use network_poller.Poller
use network_poller.Poller.{Poller, Agrees, Synced, happened, poll-happened, last_report, grown}
use network_poller.Loop.External.{TaskQueue}
use network_poller.Loop.Defs.{World}
use network_poller.Loop.Invariant.{Registry}
use network_poller.Loop.Run.{handle_each, handle_event_context, run_task_funcs, one_round}

module _ (e : Epoll) where
  grown-Agrees :
      (s : Status) (p : Poller e) (capacity fd id events : ℕ)
      → Agrees e s p fd id events
      → Agrees e s (record p { capacity = capacity }) fd id events
  grown-Agrees new_channel p capacity fd id events h = h
  grown-Agrees added_channel p capacity fd id events h = h
  grown-Agrees delete_channel p capacity fd id events h = h

module _ (e : Epoll) {Task : Type 0} (tq : TaskQueue Task) {R : Type 0} where
  -- The world in which the loop handles a report for one channel.
  pub record Single (events id : ℕ) (w w' : World e tq R) : Type 0 where
    pub received : (w'.heap id).received_events ≡ events
    pub same :
        (j : ℕ) → w'.heap j ≡ record (w.heap j) { received_events = (w'.heap j).received_events }
    pub frame : w' ≡ record w {
      poller = record w.poller { capacity = w'.poller.capacity };
      heap = w'.heap;
      active_list = id ∷ [];
      active = some id;
    }

  -- Storing reports keeps the registry.
  Single-Registry-of :
      (w : World e tq R) (capacity : ℕ) (heap : ℕ → Channel)
      → ((j : ℕ) → heap j ≡ record (w.heap j) { received_events = (heap j).received_events })
      → Registry e tq w
      → Registry e tq (record w { poller = record w.poller { capacity = capacity }; heap = heap })
  Single-Registry-of w capacity heap same reg = record {
    address = λ i. ap (λ c. c.id) (same i) ∙ reg.address i;
    owner = λ i. ap (λ c. c.event_loop) (same i) ∙ reg.owner i;
    thread = reg.thread;
    synced = λ i known. rw (same i) (
        grown-Agrees e (w.heap i).status w.poller capacity (w.heap i).fd (w.heap i).id
          (w.heap i).events (reg.synced i (λ is. known (ap (λ c. c.status) (same i) ∙ is))));
    exclusive = λ i j known_i known_j at.
        reg.exclusive i j (λ is. known_i (ap (λ c. c.status) (same i) ∙ is))
          (λ is. known_j (ap (λ c. c.status) (same j) ∙ is))
          (sym (ap (λ c. c.fd) (same i)) ∙ at ∙ ap (λ c. c.fd) (same j));
    vacant = λ fd unused. reg.vacant fd (λ i known at.
        unused i (λ is. known (sym (ap (λ c. c.status) (same i)) ∙ is))
          (ap (λ c. c.fd) (same i) ∙ at));
  }

  pub Single-Registry :
      {events id : ℕ} {w w' : World e tq R}
      → Single events id w w'
      → Registry e tq w
      → Registry e tq w'
  Single-Registry {events} {id} {w} {w'} single reg =
      subst (Registry e tq) (sym single.frame) (record {
        address = grown_reg.address;
        owner = grown_reg.owner;
        thread = grown_reg.thread;
        synced = grown_reg.synced;
        exclusive = grown_reg.exclusive;
        vacant = grown_reg.vacant;
      })
    where
      grown_reg :
          Registry e tq (record w {
            poller = record w.poller { capacity = w'.poller.capacity };
            heap = w'.heap;
          })
      grown_reg = Single-Registry-of w w'.poller.capacity w'.heap single.same reg

  bind_both :
      (m : Result (World e tq R)) (k : World e tq R → Result (World e tq R))
      → (((m >>= λ v. ok v) >>= λ v. ok (record v { active = none })) >>= k)
        ≡ (m >>= λ v. k (record v { active = none }))
  bind_both (ok v) k = refl
  bind_both (fault f) k = refl

  -- The registry looks neither at the active list nor at the active channel.
  pub calm-Registry :
      (w : World e tq R) (ids : List ℕ) (q : tq.Queue) (r : R)
      → Registry e tq w
      → Registry e tq (record w { active_list = ids; active = none; queue = q; rest = r })
  calm-Registry w ids q r reg = record {
    address = reg.address;
    owner = reg.owner;
    thread = reg.thread;
    synced = reg.synced;
    exclusive = reg.exclusive;
    vacant = reg.vacant;
  }

  module _ (exec : Task → World e tq R → Result (World e tq R))
      (handle : ℕ → World e tq R → Result (World e tq R)) where
    -- A round with one report on the loop's thread handles that channel's events in a world that
    -- differs in the report alone, and then runs a task.
    pub one_round-Single :
        (this_thread events id : ℕ) (w : World e tq R)
        → this_thread ≡ w.poller.thread_id
        → (w' : World e tq R) × Single events id w w'
          × (one_round e tq exec handle this_thread (happened ((events, id) ∷ [])) w ≡ (
              handle id w' >>= λ v. run_task_funcs e tq exec handle (record v { active = none })))
    unfolding one_round handle_event_context handle_each last_report
    one_round-Single this_thread events id w here =
        let (heap, polled, marked) = poll-happened e w.poller (events, id) [] w.heap [] in
        let w' : World e tq R = record w {
          poller = record w.poller { capacity = grown e 1 w.poller.capacity };
          heap = heap;
          active_list = id ∷ [];
          active = some id;
        } in
        let polled' : Poller.poll e this_thread (happened ((events, id) ∷ [])) w.poller w.heap []
            ≡ ok (w'.poller, heap, id ∷ []) =
          ap (λ t. Poller.poll e t (happened ((events, id) ∷ [])) w.poller w.heap []) here
          ∙ polled in
        (
          w',
          record {
            received = ap (λ (c : Channel). c.received_events) (marked id) ∙ rw (==_refl id) refl;
            same = λ j.
                marked j
                ∙ ap {A = ℕ} {B = Channel} (λ r. record (w.heap j) { received_events = r })
                    (sym (ap (λ (c : Channel). c.received_events) (marked j)));
            frame = refl;
          },
          rw polled' (bind_both (handle id w') (run_task_funcs e tq exec handle)),
        )

    -- A round without a report runs a task.
    pub one_round-idle :
        (this_thread : ℕ) (w : World e tq R)
        → this_thread ≡ w.poller.thread_id
        → one_round e tq exec handle this_thread (happened []) w
          ≡ run_task_funcs e tq exec handle (record w { active_list = []; active = none })
    unfolding one_round handle_event_context handle_each Poller.poll
    one_round-idle this_thread w here = rw (here, ==_refl w.poller.thread_id) refl
