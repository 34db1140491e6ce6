-- ===== src/Connection/Drain.antt =====
-- `TcpConnection::WriteHandler`: bytes that waited go to the socket, and what follows when none is
-- left.
use network_poller.Prelude.{
  ℕ, ◌≤◌, ◌<◌, ◌≡◌, refl, sym, ap, ◌∙◌, true, false, not, [], ◌++◌, arith, if◌then◌else◌, length,
  take, drop, take-append-drop, append_assoc, length-drop, lt→ltb, take_all, drop_all,
}
use network_poller.Result.{Result, ok, ◌>>=◌}
use network_poller.Buffer.{
  IsValid, contents, is_empty, clear_read_index, contents-clear_read_index,
  clear_read_index-IsValid, write-clear_read_index-le, is_empty_lem,
}
use network_poller.Channel.Flags.{Interest}
use network_poller.Channel.{is_writing, call}
use network_poller.Poller.Epoll.{Epoll, HasRoom}
use network_poller.Loop.External.{TaskQueue, count}
use network_poller.Loop.{disables_writing, perform, apply}
use network_poller.Connection.Defs.{
  is_disconnecting, Task, shuts_down, writes_complete, Conn, Net, Hooks, channel_of,
  set_write_buffer, accept, is_set, shutdown_in_loop,
}
use network_poller.Connection.Sending.{run_in_loop, drained, write_handler}
use network_poller.Connection.Attached.{Base, Base-Tested, Base-rest, perform-Base, in_loop_lem}
use network_poller.Connection.Stream.{stream, Sound, not-empty}

module _ (e : Epoll) (room : HasRoom e) (tq : TaskQueue Task) (hooks : Hooks e tq)
    (this_thread : ℕ) where
  -- The connection after `write` took `n` of the bytes that wait.
  abbrev written : ℕ → Net e tq → Net e tq
  written n w =
      set_write_buffer e tq (clear_read_index w.rest.write_buffer n)
        (accept e tq (take n (contents w.rest.write_buffer)) w)

  written-Base :
      (n : ℕ) (w : Net e tq) (i : Interest)
      → Base e tq this_thread w i
      → Base e tq this_thread (written n w) i
  written-Base n w i b =
      Base-rest e tq this_thread w.queue (written n w).rest b refl
        (clear_read_index-IsValid n b.valid)

  stream-written :
      (n : ℕ) (w : Net e tq)
      → IsValid w.rest.write_buffer
      → stream e tq this_thread (written n w) ≡ stream e tq this_thread w
  stream-written n w v =
      ap (λ xs. (w.rest.sent ++ take n (contents w.rest.write_buffer)) ++ xs)
        (contents-clear_read_index n v)
      ∙ append_assoc w.rest.sent (take n (contents w.rest.write_buffer))
          (drop n (contents w.rest.write_buffer))
      ∙ ap (λ xs. w.rest.sent ++ xs) (take-append-drop n (contents w.rest.write_buffer))

  -- On the loop's thread, for a sound connection of which the socket takes some of the waiting bytes
  -- and not all, WriteHandler moves exactly those bytes from the buffer to the socket: the stream and
  -- the state are what they were, the others still wait, the write index does not grow, and the
  -- invariant is kept.
  pub write_handler-partly :
      (n : ℕ) (w : Net e tq)
      → Sound e tq this_thread w
      → 0 < n
      → n < length (contents w.rest.write_buffer)
      → (w' : Net e tq) × (write_handler e tq hooks this_thread (count n) w ≡ ok w')
        × Sound e tq this_thread w'
        × (stream e tq this_thread w' ≡ stream e tq this_thread w)
        × (contents w'.rest.write_buffer ≡ drop n (contents w.rest.write_buffer))
        × (w'.rest.state ≡ w.rest.state)
        × (w'.rest.write_buffer.write_index ≤ w.rest.write_buffer.write_index)
  unfolding write_handler
  write_handler-partly n w s some_taken some_left = (
    written n w,
    rw (in_loop_lem e tq this_thread w s.base.here, asked, lt→ltb 0 n some_taken, still) refl,
    record {
      wants = s.wants;
      base = written-Base n w s.wants s.base;
      pending = s.pending ∙ ap not (was_full ∙ sym still);
    },
    stream-written n w s.base.valid,
    contents-clear_read_index n s.base.valid,
    refl,
    write-clear_read_index-le w.rest.write_buffer n,
  )
    where
      was_full : is_empty w.rest.write_buffer ≡ false
      was_full = not-empty e tq this_thread s.base.valid (λ h. omega (arith, ap length h))

      still : is_empty (clear_read_index w.rest.write_buffer n) ≡ false
      still = not-empty e tq this_thread (clear_read_index-IsValid n s.base.valid) (λ h. omega (
        arith,
        length-drop n (contents w.rest.write_buffer),
        ap length (sym (contents-clear_read_index n s.base.valid) ∙ h),
      ))

      asked : is_writing (channel_of e tq w) ≡ true
      asked = (Base-Tested e tq this_thread s.base).writing ∙ s.pending ∙ ap not was_full

  -- What WriteHandler does after the last byte has gone and the mask has been cleared.
  abbrev pub finish : Net e tq → Result (Net e tq)
  finish w =
      if is_disconnecting w.rest.state
      then run_in_loop e tq hooks this_thread shuts_down (shutdown_in_loop e tq hooks this_thread) w
      else ok w

  abbrev pub after_drain : Net e tq → Result (Net e tq)
  after_drain w =
      (if is_set e tq hooks.written_cb
        then run_in_loop e tq hooks this_thread writes_complete (call hooks.written_cb) w
        else ok w)
      >>= finish

  -- A sound connection all of whose bytes are with the socket, and which no longer asks to write.
  pub record Drained (w w' : Net e tq) : Type 0 where
    pub sound : Sound e tq this_thread w'
    pub all_sent : w'.rest.sent ≡ stream e tq this_thread w
    pub nothing_waits : contents w'.rest.write_buffer ≡ []
    pub not_writing : is_writing (channel_of e tq w') ≡ false
    pub same_state : w'.rest.state ≡ w.rest.state
    pub same_shut : w'.rest.write_shut ≡ w.rest.write_shut
    pub limit : w'.rest.write_buffer.write_index ≤ w.rest.write_buffer.write_index

  module _ (n : ℕ) (w : Net e tq) (s : Sound e tq this_thread w)
      (some_wait : 0 < length (contents w.rest.write_buffer))
      (all_taken : length (contents w.rest.write_buffer) ≤ n) where
    emptied : contents (written n w).rest.write_buffer ≡ []
    emptied =
        contents-clear_read_index n s.base.valid
        ∙ drop_all n (contents w.rest.write_buffer) all_taken

    pub drained-Drained :
        (w1 : Net e tq) × (drained e tq hooks this_thread (written n w) ≡ after_drain w1)
        × Drained w w1
    unfolding drained perform apply
    drained-Drained =
        let (w1, ran, b, frame) =
          perform-Base e tq this_thread room disables_writing (written n w) s.wants
            (written-Base n w s.wants s.base) in
        let same : w1.rest ≡ (written n w).rest = ap (λ v. v.rest) frame in
        let empty_now : contents w1.rest.write_buffer ≡ [] =
          ap (λ (c : Conn). contents c.write_buffer) same ∙ emptied in
        (
          w1,
          rw ran refl,
          record {
            sound = record {
              wants = apply disables_writing s.wants;
              base = b;
              pending = ap not (sym ((is_empty_lem b.valid).1 empty_now));
            };
            all_sent =
                ap (λ (c : Conn). c.sent) same
                ∙ ap (λ xs. w.rest.sent ++ xs)
                    (take_all n (contents w.rest.write_buffer) all_taken);
            nothing_waits = empty_now;
            not_writing = (Base-Tested e tq this_thread b).writing;
            same_state = ap (λ (c : Conn). c.state) same;
            same_shut = ap (λ (c : Conn). c.write_shut) same;
            limit = omega (
              arith,
              ap (λ (c : Conn). c.write_buffer.write_index) same,
              write-clear_read_index-le w.rest.write_buffer n,
            );
          },
        )

    asked_all : is_writing (channel_of e tq w) ≡ true
    asked_all =
        (Base-Tested e tq this_thread s.base).writing
        ∙ s.pending
        ∙ ap not (not-empty e tq this_thread s.base.valid (λ h. omega (arith, ap length h)))

    pub write_handler-all :
        (w1 : Net e tq) × (write_handler e tq hooks this_thread (count n) w ≡ after_drain w1)
        × Drained w w1
    unfolding write_handler
    write_handler-all =
        let (w1, ran, d) = drained-Drained in
        let empty_now : is_empty (clear_read_index w.rest.write_buffer n) ≡ true =
          (is_empty_lem (clear_read_index-IsValid n s.base.valid)).1 emptied in
        (
          w1,
          rw
              (
                in_loop_lem e tq this_thread w s.base.here,
                asked_all,
                lt→ltb 0 n (omega (arith, some_wait, all_taken)),
                empty_now,
              )
              ran,
          d,
        )
