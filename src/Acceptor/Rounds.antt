-- ===== src/Acceptor/Rounds.antt =====
-- A round of the loop that serves an acceptor: a report of epoll, HandleEvent, and AcceptHandle of
-- tcp_acceptor.cpp.
use network_poller.Prelude.{
  ℕ, ◌≡◌, refl, sym, ap, ◌∙◌, Bool, true, false, not, ◌&&◌, bit_or, List, [], ◌∷◌, ◌++◌, none, some,
  ◌==◌, ==_refl, if◌then◌else◌,
}
use network_poller.Result.{Result, ok, ◌>>=◌}
use network_poller.Channel.Flags.{
  has, poll_in, poll_pri, poll_out, poll_err, poll_hup, poll_nval, poll_rdhup,
}
use network_poller.Channel.{Callbacks, handle_event, Ready, report, reads_lem}
use network_poller.Poller.{happened}
use network_poller.Poller.Epoll.{Epoll}
use network_poller.Loop.External.{TaskQueue}
use network_poller.Loop.{World, is_in_loop_thread, one_round, run_task_funcs, one_round-Single}
use network_poller.Acceptor.Files.{Files}
use network_poller.Acceptor.Defs.{Acceptor, Attempt, accept_loop, accept_handle}
use network_poller.Acceptor.Accepting.{connections, Takes, accept_loop-connections}

module _ (files : Files) (e : Epoll) {Task : Type 0} (tq : TaskQueue Task) (this_thread : ℕ) where
  abbrev pub Net : Type 0
  Net = World e tq (Acceptor files)

  -- AcceptHandle as a callback, as far as the attempts go.
  unfoldable pub take_arrivals : List Attempt → Net → Result Net
  take_arrivals xs w = accept_handle files e tq this_thread xs w >>= λ out. ok out.1

  -- The callback that the constructor sets.
  unfoldable pub acceptor_callbacks : List Attempt → Callbacks Net
  unfolding take_arrivals
  acceptor_callbacks xs = record {
    read_event_cb = some (take_arrivals xs);
    write_event_cb = none;
    close_event_cb = none;
    error_event_cb = none;
  }

  -- HandleEvent of the channel at an address: the acceptor's own, or one of the others.
  unfoldable pub handle_arrivals : (ℕ → Net → Result Net) → ℕ → List Attempt → ℕ → Net → Result Net
  unfolding acceptor_callbacks
  handle_arrivals others own xs id w =
      if id == own
      then handle_event (acceptor_callbacks xs) (λ v. (v.heap own).received_events) w
      else others id w

  skips : (b : Bool) (w : Net) → ◌≡◌ {A = Result Net} (if b then ok w else ok w) (ok w)
  skips true w = refl
  skips false w = refl

  take_arrivals_lem :
      (xs : List Attempt) (w : Net) (done : Bool) (a : Acceptor files)
      → this_thread ≡ w.thread_id
      → accept_loop files xs w.rest ≡ (done, a)
      → take_arrivals xs w ≡ ok (record w { rest = a })
  unfolding take_arrivals accept_handle is_in_loop_thread
  take_arrivals_lem xs w done a here ran = rw (ran, here, ==_refl w.thread_id) refl

  handle_arrivals-reads :
      (others : ℕ → Net → Result Net) (own : ℕ) (xs : List Attempt) (r : Ready) (w w' : Net)
      → r.readable ≡ true
      → (w.heap own).received_events ≡ report r
      → take_arrivals xs w ≡ ok w'
      → handle_arrivals others own xs own w ≡ ok w'
  unfolding handle_arrivals acceptor_callbacks handle_event
  handle_arrivals-reads others own xs r w w' readable at ran =
      let last = (w.heap own).received_events in
      let does_read : has last (bit_or (bit_or poll_in poll_pri) poll_rdhup) ≡ true =
        rw at (reads_lem r ∙ rw readable refl) in
      rw
        (
          ==_refl own,
          skips (has last poll_hup && not (has poll_in last)) w,
          skips (has last (bit_or poll_err poll_nval)) w,
          does_read,
          ran,
        )
        (skips (has (w'.heap own).received_events poll_out) w')

  -- If epoll reports that the listening socket can be read, and the descriptor table has room for all
  -- connections that wait, one round of the loop, before it runs a task, gives each of them to the
  -- callback, in the order of their arrival.
  pub one_round-connections :
      (exec : Task → Net → Result Net) (others : ℕ → Net → Result Net) (r : Ready) (fds : List ℕ)
      (again : Bool) (t : files.Table) (w : Net)
      → r.readable ≡ true
      → this_thread ≡ w.thread_id
      → this_thread ≡ w.poller.thread_id
      → w.rest.has_callback ≡ true
      → Takes files fds w.rest.table t
      → (w' : Net) × (one_round e tq exec
            (handle_arrivals others w.rest.channel (connections fds again))
            this_thread
            (happened ((report r, w.rest.channel) ∷ []))
            w
          ≡ run_task_funcs e tq exec
              (handle_arrivals others w.rest.channel (connections fds again))
              w')
        × (w'.rest ≡ record w.rest { handed = w.rest.handed ++ fds; table = t })
  one_round-connections exec others r fds again t w readable here thread set takes =
      let xs = connections fds again in
      let handle = handle_arrivals others w.rest.channel xs in
      let (w0, single, ran) =
        one_round-Single e tq exec handle this_thread (report r) w.rest.channel w thread in
      let a : Acceptor files = record w.rest { handed = w.rest.handed ++ fds; table = t } in
      let all : accept_loop files xs w0.rest ≡ (true, a) =
        ap (λ v. accept_loop files xs v.rest) single.frame
        ∙ accept_loop-connections files fds again w.rest t set takes in
      let taken =
        take_arrivals_lem xs w0 true a (here ∙ sym (ap (λ v. v.thread_id) single.frame)) all in
      (
        record w0 { rest = a; active = none },
        ran
            ∙ ap
                (λ m.
                  m >>= λ (v : Net). run_task_funcs e tq exec handle (record v { active = none }))
                (handle_arrivals-reads others w.rest.channel xs r w0 (record w0 { rest = a })
                  readable single.received taken),
        refl,
      )
