-- ===== src/Connection/Rounds.antt =====
-- A connection of tcp_connection.cpp in the rounds of its loop in event_loop.cpp: from the report of
-- epoll and from the task queue down to the bytes.
use network_poller.Prelude.{
  ℕ, ◌+◌, ◌<◌, ◌≡◌, ◌≢◌, refl, sym, ap, ◌∙◌, subst, true, false, not, ◌&&◌, bit_or, List, [], ◌∷◌,
  ◌++◌, none, arith, length, Bool-cases, inl, inr, ◌==◌, ==_refl, ==_ne, if◌then◌else◌,
}
use network_poller.Result.{Result, ok, ◌>>=◌}
use network_poller.Buffer.{IsValid, u32_mod, ReadResult}
use network_poller.Channel.{Ready, report, handle_event, closes, closes_lem, reads_lem, writes_lem}
use network_poller.Channel.Flags.{
  has, poll_in, poll_pri, poll_out, poll_err, poll_hup, poll_nval, poll_rdhup,
}
use network_poller.Poller.Epoll.{Epoll, HasRoom}
use network_poller.Poller.{happened}
use network_poller.Loop.External.{TaskQueue, IoResult}
use network_poller.Loop.{
  is_in_loop_thread, queue_in_loop, one_round, run_task_funcs, one_round-Single,
}
use network_poller.Connection.Defs.{
  Task, sends, disconnected, Conn, Net, Hooks, channel_of, read_handler, error_handler,
}
use network_poller.Connection.Api.{exec, send, handle_channel, channel_callbacks}
use network_poller.Connection.Attached.{Base-rest, in_loop_lem}
use network_poller.Connection.Stream.{stream, Sound, Sent}
use network_poller.Connection.Send.{Healthy, send_in_loop-Sent}
use network_poller.Connection.Reading.{reads_of, arrived, Reader, input, read_loop-input}

module _ (e : Epoll) (tq : TaskQueue Task) (hooks : Hooks e tq) (this_thread : ℕ) where
  abbrev pub last_received : Net e tq → ℕ
  last_received w = (channel_of e tq w).received_events

  -- HandleEvent of the channel at an address: the connection's own, or one of the others.
  unfoldable pub handle :
      (ℕ → Net e tq → Result (Net e tq))
      → List ReadResult
      → IoResult
      → ℕ
      → Net e tq
      → Result (Net e tq)
  handle others got written id w =
      if id == w.rest.channel
      then handle_channel e tq hooks this_thread got written w
      else others id w

  module _ (f : Conn → List ℕ) (reader : Reader e tq hooks this_thread (λ w. f w.rest))
      (keeps : (w w' : Net e tq) → reader.cb w ≡ ok w' → last_received w' ≡ last_received w) where
    -- A report with data to read and no room to write runs ReadHandler, and no other handler that
    -- does more than log.
    handle_channel-input :
        (r : Ready) (got : List (ℕ × List ℕ)) (written : IoResult) (w : Net e tq)
        → r.readable ≡ true
        → r.writable ≡ false
        → last_received w ≡ report r
        → this_thread ≡ w.thread_id
        → IsValid w.rest.read_buffer
        → w.rest.read_buffer.write_index + length (arrived got) < u32_mod
        → (w' : Net e tq) × (handle_channel e tq hooks this_thread (reads_of got) written w ≡ ok w')
          × (input e tq hooks this_thread (λ v. f v.rest) w'
              ≡ input e tq hooks this_thread (λ v. f v.rest) w ++ arrived got)
          × IsValid w'.rest.read_buffer
    unfolding handle_channel channel_callbacks handle_event error_handler read_handler
    handle_channel-input r got written w readable full at here v fits =
        let (w', ran, more, valid, kept) =
          read_loop-input e tq hooks this_thread (λ v. f v.rest) reader
            (λ v. last_received v ≡ report r) (λ b v k. k) (λ v v' k called. keeps v v' called ∙ k)
            got w at v fits in
        let handled : read_handler e tq hooks this_thread (reads_of got) w ≡ ok w' =
          rw (in_loop_lem e tq this_thread w here) ran in
        let stays : (has (last_received w) poll_hup && not (has poll_in (last_received w)))
            ≡ false =
          rw at (closes_lem r ∙ no_close r readable) in
        let does_read : has (last_received w) (bit_or (bit_or poll_in poll_pri) poll_rdhup) ≡ true =
          rw at (reads_lem r ∙ rw readable refl) in
        let quiet : has (last_received w') poll_out ≡ false = rw kept (writes_lem r ∙ full) in
        (
          w',
          elim (Bool-cases (has (last_received w) (bit_or poll_err poll_nval))) [
            | inl logs ↦ rw (stays, logs, does_read, handled, quiet) refl
            | inr well ↦ rw (stays, well, does_read, handled, quiet) refl
          ],
          more,
          valid,
        )
      where
        no_close : (r : Ready) → r.readable ≡ true → closes r ≡ false
        no_close r h = ground arith

    -- If epoll reports to a connection that there is data to read and no room to write, with any other
    -- conditions, and the reads return data each time until one fails with EAGAIN, so that neither an
    -- end of file nor another error is met, then one round of the loop, before it runs a task, takes
    -- all bytes that the reads hand over to the message callback or the read buffer, in order and once
    -- each; the callback has to take bytes in order, to return, and to leave the report alone.
    pub one_round-input :
        (others : ℕ → Net e tq → Result (Net e tq)) (r : Ready) (got : List (ℕ × List ℕ))
        (written : IoResult) (w : Net e tq)
        → r.readable ≡ true
        → r.writable ≡ false
        → this_thread ≡ w.thread_id
        → this_thread ≡ w.poller.thread_id
        → IsValid w.rest.read_buffer
        → w.rest.read_buffer.write_index + length (arrived got) < u32_mod
        → (w' : Net e tq) × (one_round e tq
              (exec e tq hooks this_thread written)
              (handle others (reads_of got) written)
              this_thread
              (happened ((report r, w.rest.channel) ∷ []))
              w
            ≡ run_task_funcs e tq
                (exec e tq hooks this_thread written)
                (handle others (reads_of got) written)
                w')
          × (input e tq hooks this_thread (λ v. f v.rest) w'
              ≡ input e tq hooks this_thread (λ v. f v.rest) w ++ arrived got)
          × IsValid w'.rest.read_buffer
    unfolding handle
    one_round-input others r got written w readable full here thread v fits =
        let run = exec e tq hooks this_thread written in
        let serve = handle others (reads_of got) written in
        let (w0, single, ran) =
          one_round-Single e tq run serve this_thread (report r) w.rest.channel w thread in
        let same : w0.rest ≡ w.rest = ap (λ v. v.rest) single.frame in
        let at : last_received w0 ≡ report r =
          ap (λ (c : Conn). (w0.heap c.channel).received_events) same ∙ single.received in
        let own : (w.rest.channel == w0.rest.channel) ≡ true =
          ap (λ (c : Conn). w.rest.channel == c.channel) same ∙ ==_refl w.rest.channel in
        let (w1, handled, more, valid) =
          handle_channel-input r got written w0 readable full at
            (here ∙ sym (ap (λ v. v.thread_id) single.frame))
            (subst (λ (c : Conn). IsValid c.read_buffer) (sym same) v)
            (subst (λ (c : Conn). c.read_buffer.write_index + length (arrived got) < u32_mod)
              (sym same) fits) in
        (
          record w1 { active = none },
          ran
              ∙ ap
                  (λ m. m >>= λ (x : Net e tq).
                    run_task_funcs e tq run serve (record x { active = none }))
                  (ap
                      (λ b.
                        if b
                        then handle_channel e tq hooks this_thread (reads_of got) written w0
                        else others w.rest.channel w0)
                      own
                    ∙ handled),
          more
              ∙ ap (λ x. input e tq hooks this_thread (λ y. f y.rest) x ++ arrived got)
                  single.frame,
          valid,
        )

  -- A Send from another thread, with an empty task queue: the next task that the loop runs hands the
  -- bytes to the stream, at its end, in order and once each.
  pub send-run_task_funcs :
      (room : HasRoom e) (other_thread : ℕ) (others : ℕ → Net e tq → Result (Net e tq))
      (got : List ReadResult) (before written : IoResult) (bytes : List ℕ) (w : Net e tq)
      → other_thread ≢ w.thread_id
      → tq.items w.queue ≡ []
      → Sound e tq this_thread w
      → w.rest.state ≢ disconnected
      → w.rest.write_buffer.write_index + length bytes < u32_mod
      → Healthy written bytes
      → (queued w' : Net e tq) × (send e tq hooks other_thread before bytes w ≡ ok queued)
        × (stream e tq this_thread queued ≡ stream e tq this_thread w)
        × (run_task_funcs e tq
              (exec e tq hooks this_thread written)
              (handle others got written)
              queued
            ≡ ok w')
        × Sent e tq this_thread w w' bytes
  unfolding send run_task_funcs is_in_loop_thread queue_in_loop exec
  send-run_task_funcs room other_thread others got before written bytes w elsewhere idle s up fits
        healthy =
      let q = tq.enqueue (sends bytes) w.queue in
      let waiting : tq.items q ≡ sends bytes ∷ [] =
        tq.enqueue_lem (sends bytes) w.queue ∙ ap (λ ts. ts ++ sends bytes ∷ []) idle in
      let (q', taken, _) = tq.dequeue_some q (sends bytes) [] waiting in
      let w0 : Net e tq = record w { queue = q' } in
      let s0 : Sound e tq this_thread w0 = record {
        wants = s.wants;
        base = Base-rest e tq this_thread q' w.rest s.base refl s.base.valid;
        pending = s.pending;
      } in
      let (w', ran, sent) =
        send_in_loop-Sent e room tq hooks this_thread written bytes w0 s0 up fits healthy in
      (
        record w { queue = q },
        w',
        rw (==_ne other_thread w.thread_id elsewhere) refl,
        refl,
        rw (taken, run_task_funcs) ran,
        record {
          sound = sent.sound;
          added = sent.added;
          same_state = sent.same_state;
          limit = sent.limit;
        },
      )
