-- ===== src/Connector/Retrying.antt =====
-- Rounds of the loop that serve a connector: a report of epoll, HandleEvent, WriteEventHandler of
-- tcp_connector.cpp, and the tasks that it queues.
use network_poller.Prelude.{
  ℕ, ◌≡◌, ◌≢◌, refl, sym, ap, ◌∙◌, subst, Bool, true, false, not, ◌&&◌, ◌||◌, bit_or, inl, inr,
  none, some, ◌∷◌, [], ◌++◌, ◌==◌, ==_refl, if◌then◌else◌,
}
use network_poller.Result.{Result, ok, ◌>>=◌}
use network_poller.Channel.Flags.{
  has, poll_in, poll_pri, poll_out, poll_err, poll_hup, poll_nval, poll_rdhup,
}
use network_poller.Channel.{
  Channel, Callbacks, handle_event, new_channel, Ready, report, writes_lem,
}
use network_poller.Poller.{happened}
use network_poller.Poller.Epoll.{Epoll, HasRoom, same_or_not}
use network_poller.Loop.External.{TaskQueue}
use network_poller.Loop.{
  may_remove, one_round, run_task_funcs, run_task_funcs-first, IsKnown, IsUnused, Single,
  Single-Registry, one_round-Single, one_round-idle, calm-Registry,
}
use network_poller.Connector.Defs.{
  Job, starts, resets_channel_ptr, Connector, Attempt, errno_after, goes_on, Net,
  write_event_handler, error_event_handler, point_to, reset_channel_ptr, exec,
}
use network_poller.Connector.Starting.{Trying, Watching, start_in_loop-Watching}
use network_poller.Connector.Established.{Reported, write_event_handler-retries}

module _ (e : Epoll) (room : HasRoom e) (tq : TaskQueue Job) (this_thread : ℕ) where
  -- The callbacks that StartInLoop sets; `error` is what `SocketError` returns.
  unfoldable pub attempt_callbacks : ℕ → Callbacks (Net e tq)
  attempt_callbacks error = record {
    read_event_cb = none;
    write_event_cb = some (write_event_handler e tq this_thread error);
    close_event_cb = none;
    error_event_cb = some (error_event_handler e tq this_thread);
  }

  -- HandleEvent of the channel at an address: the connector's own, or one of the others.
  unfoldable pub handle_attempt :
      (ℕ → Net e tq → Result (Net e tq)) → ℕ → ℕ → ℕ → Net e tq → Result (Net e tq)
  unfolding attempt_callbacks
  handle_attempt others own error id w =
      if id == own
      then handle_event (attempt_callbacks error) (λ v. (v.heap own).received_events) w
      else others id w

  skips : (b : Bool) (w : Net e tq) → ◌≡◌ {A = Result (Net e tq)} (if b then ok w else ok w) (ok w)
  skips true w = refl
  skips false w = refl

  handle_attempt-writes :
      (others : ℕ → Net e tq → Result (Net e tq)) (id error : ℕ) (r : Ready) (w : Net e tq)
      → r.writable ≡ true
      → (w.heap id).received_events ≡ report r
      → handle_attempt others id error id w ≡ write_event_handler e tq this_thread error w
  unfolding handle_attempt attempt_callbacks handle_event error_event_handler
  handle_attempt-writes others id error r w writable at =
      let last = (w.heap id).received_events in
      let writes : has last poll_out ≡ true = rw at (writes_lem r ∙ writable) in
      rw
        (
          ==_refl id,
          skips (has last poll_hup && not (has poll_in last)) w,
          skips (has last (bit_or poll_err poll_nval)) w,
          skips (has last (bit_or (bit_or poll_in poll_pri) poll_rdhup)) w,
          writes,
        )
        refl

  -- The connector's channel is known, and the loop runs on this thread.
  pub record Awaiting (id : ℕ) (w : Net e tq) : Type 0 where
    pub trying : Trying e room tq this_thread w
    pub channel : w.rest.channel ≡ some id
    pub known : IsKnown e tq w id

  Single-Reported :
      (id events : ℕ) (w w' : Net e tq)
      → Awaiting id w
      → Single e tq events id w w'
      → Reported e room tq this_thread id w'
  Single-Reported id events w w' a single = record {
    trying = record {
      here = a.trying.here ∙ sym (ap (λ v. v.thread_id) single.frame);
      state = ap (λ v. v.rest.state) single.frame ∙ a.trying.state;
      registry = Single-Registry e tq single a.trying.registry;
    };
    channel = ap (λ v. v.rest.channel) single.frame ∙ a.channel;
    known = λ is. a.known (sym (ap (λ c. c.status) (single.same id)) ∙ is);
    may =
        ap (λ v. may_remove v.active id v.active_list) single.frame
        ∙ ap (λ b. b || not (id == id || false)) (==_refl id);
  }

  -- What the round with the report leaves: the socket is closed, its channel forgotten, and a new
  -- StartInLoop waits.
  record Retrying (id : ℕ) (w w' : Net e tq) : Type 0 where
    trying : Trying e room tq this_thread w'
    forgotten : (w'.heap id).status ≡ new_channel
    same_status : (j : ℕ) → id ≢ j → (w'.heap j).status ≡ (w.heap j).status
    same_fd : (j : ℕ) → id ≢ j → (w'.heap j).fd ≡ (w.heap j).fd
    closed : w'.rest.closed ≡ w.rest.closed ++ (w.heap id).fd ∷ []
    errno : w'.rest.errno ≡ w.rest.errno
    queued : tq.items w'.queue ≡ starts ∷ []

  one_round-Retrying :
      (id : ℕ) (w : Net e tq) (error : ℕ) (attempt : Attempt)
      (others : ℕ → Net e tq → Result (Net e tq)) (r : Ready)
      → Awaiting id w
      → r.writable ≡ true
      → error ≢ 0
      → tq.items w.queue ≡ []
      → (w1 : Net e tq) × (one_round e tq
            (exec e tq this_thread attempt)
            (handle_attempt others id error)
            this_thread
            (happened ((report r, id) ∷ []))
            w
          ≡ ok w1)
        × Retrying id w w1
  unfolding exec reset_channel_ptr
  one_round-Retrying id w error attempt others r a writable failed alone =
      let run = exec e tq this_thread attempt in
      let handle = handle_attempt others id error in
      let (w0, single, round1) =
        one_round-Single e tq run handle this_thread (report r) id w
          (a.trying.here ∙ sym a.trying.registry.thread) in
      let rep = Single-Reported id (report r) w w0 a single in
      let (wa, ran, l, rest, items) =
        write_event_handler-retries e room tq this_thread id w0 error rep failed in
      let (q, queued, first) =
        run_task_funcs-first e tq run handle resets_channel_ptr (starts ∷ [])
          (record wa { active = none })
          (items
            ∙ ap (λ v. tq.items v.queue ++ resets_channel_ptr ∷ starts ∷ []) single.frame
            ∙ ap (λ ts. ts ++ resets_channel_ptr ∷ starts ∷ []) alone) in
      let w1 = point_to e tq none (record wa { active = none; queue = q }) in
      (
        w1,
        round1
            ∙ ap
                (λ m. m >>= λ (v : Net e tq).
                  run_task_funcs e tq run handle (record v { active = none }))
                (handle_attempt-writes others id error r w0 writable single.received ∙ ran)
            ∙ first,
        record {
          trying = record {
            here = rep.trying.here ∙ sym l.same_thread;
            state = ap (λ (c : Connector). c.state) rest ∙ rep.trying.state;
            registry = calm-Registry e tq wa wa.active_list q w1.rest l.registry;
          };
          forgotten = l.forgotten;
          same_status = λ j ne. ap (λ c. c.status) (l.others j ne ∙ single.same j);
          same_fd = λ j ne. ap (λ c. c.fd) (l.others j ne ∙ single.same j);
          closed =
              ap (λ (c : Connector). c.closed) rest
              ∙ ap (λ v. v.rest.closed ++ (w0.heap id).fd ∷ []) single.frame
              ∙ ap (λ (c : Channel). w.rest.closed ++ c.fd ∷ []) (single.same id);
          errno = ap (λ (c : Connector). c.errno) rest ∙ ap (λ v. v.rest.errno) single.frame;
          queued = queued;
        },
      )

  -- The round after it, which reports nothing.
  one_round-Watching :
      (w : Net e tq) (attempt : Attempt) (handle : ℕ → Net e tq → Result (Net e tq))
      → Trying e room tq this_thread w
      → tq.items w.queue ≡ starts ∷ []
      → (w.heap attempt.address).status ≡ new_channel
      → IsUnused e tq w attempt.fd
      → goes_on (errno_after attempt.error w.rest.errno) ≡ true
      → (w' : Net e tq) × (one_round e tq
            (exec e tq this_thread attempt)
            handle
            this_thread
            (happened [])
            w
          ≡ ok w')
        × Watching e room tq this_thread attempt
            (record w { queue = w'.queue; active_list = []; active = none })
            w'
        × (tq.items w'.queue ≡ [])
  unfolding exec
  one_round-Watching w attempt handle t queued spare unused going =
      let run = exec e tq this_thread attempt in
      let calm : Net e tq = record w { active_list = []; active = none } in
      let (q, none_left, first) = run_task_funcs-first e tq run handle starts [] calm queued in
      let (w', ran, watching) =
        start_in_loop-Watching e room tq this_thread attempt (record calm { queue = q })
          (record {
            here = t.here;
            state = t.state;
            registry = calm-Registry e tq w [] q w.rest t.registry;
          })
          spare unused going in
      (
        w',
        one_round-idle e tq run handle this_thread w (t.here ∙ sym t.registry.thread) ∙ first ∙ ran,
        subst
            (λ q.
              Watching e room tq this_thread attempt
                (record w { queue = q; active_list = []; active = none }) w')
            (sym (ap (λ v. v.queue) watching.frame)) watching,
        ap (λ v. tq.items v.queue) watching.frame ∙ none_left,
      )

  -- After the first round, a channel that is not known is not known, and a descriptor that no other
  -- channel had, none has.
  Retrying-new :
      (id address : ℕ) (w w' : Net e tq)
      → Retrying id w w'
      → (w.heap address).status ≡ new_channel
      → (w'.heap address).status ≡ new_channel
  Retrying-new id address w w' f spare = elim (same_or_not id address) [
    | inl here ↦ subst (λ k. (w'.heap k).status ≡ new_channel) here f.forgotten
    | inr ne ↦ f.same_status address ne ∙ spare
  ]

  Retrying-IsUnused :
      (id fd : ℕ) (w w' : Net e tq)
      → Retrying id w w'
      → ((j : ℕ) → id ≢ j → IsKnown e tq w j → (w.heap j).fd ≢ fd)
      → IsUnused e tq w' fd
  Retrying-IsUnused id fd w w' f unused j known at = elim (same_or_not id j) [
    | inl here ↦ known (ap (λ k. (w'.heap k).status) (sym here) ∙ f.forgotten)
    | inr ne ↦ unused j ne (λ is. known (f.same_status j ne ∙ is)) (sym (f.same_fd j ne) ∙ at)
  ]

  -- Two rounds after a failed attempt. Epoll reports that the connector's socket can be written, with
  -- any other conditions, and the socket has an error; no task waits. In that round the old socket is
  -- closed and its channel taken out of the poller and of epoll, and in the next, which reports
  -- nothing, a new socket is made that the kernel watches for writing; no task is left. The
  -- conditions on the new socket: `connect` leaves an `errno` on which StartInLoop goes on, the new
  -- channel's address is not that of a known one, and no known channel but the old one has its
  -- descriptor.
  pub failed_attempt-Watching :
      (id : ℕ) (w : Net e tq) (error : ℕ) (attempt : Attempt)
      (others : ℕ → Net e tq → Result (Net e tq)) (r : Ready)
      → Awaiting id w
      → r.writable ≡ true
      → error ≢ 0
      → tq.items w.queue ≡ []
      → (w.heap attempt.address).status ≡ new_channel
      → ((j : ℕ) → id ≢ j → IsKnown e tq w j → (w.heap j).fd ≢ attempt.fd)
      → goes_on (errno_after attempt.error w.rest.errno) ≡ true
      → (w1 w2 : Net e tq) × (one_round e tq
            (exec e tq this_thread attempt)
            (handle_attempt others id error)
            this_thread
            (happened ((report r, id) ∷ []))
            w
          ≡ ok w1)
        × (one_round e tq
              (exec e tq this_thread attempt)
              (handle_attempt others id error)
              this_thread
              (happened [])
              w1
            ≡ ok w2)
        × Watching e room tq this_thread attempt
            (record w1 { queue = w2.queue; active_list = []; active = none })
            w2
        × (w2.rest.closed ≡ w.rest.closed ++ (w.heap id).fd ∷ [])
        × (tq.items w2.queue ≡ [])
  failed_attempt-Watching id w error attempt others r a writable failed alone spare unused going =
      let (w1, ran1, f) = one_round-Retrying id w error attempt others r a writable failed alone in
      let (w2, ran2, watching, none_left) =
        one_round-Watching w1 attempt (handle_attempt others id error) f.trying f.queued
          (Retrying-new id attempt.address w w1 f spare)
          (Retrying-IsUnused id attempt.fd w w1 f unused)
          (ap (λ k. goes_on (errno_after attempt.error k)) f.errno ∙ going) in
      (w1, w2, ran1, ran2, watching, ap (λ v. v.rest.closed) watching.frame ∙ f.closed, none_left)
