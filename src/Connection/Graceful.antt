-- ===== src/Connection/Graceful.antt =====
-- Shutdown of tcp_connection.cpp: the sending direction is closed only after the last byte.
use network_poller.Prelude.{
  ℕ, ◌≤◌, ◌<◌, ◌≡◌, ◌≢◌, refl, ap, ◌∙◌, Bool, true, false, not, [], ◌∷◌, ◌++◌, inl, inr, ◌⊎◌, arith,
  if◌then◌else◌, Bool-cases, length, append_assoc,
}
use network_poller.Result.{Result, ok}
use network_poller.Buffer.{contents, is_empty, is_empty_lem}
use network_poller.Channel.{is_writing, call}
use network_poller.Poller.Epoll.{Epoll, HasRoom}
use network_poller.Loop.External.{TaskQueue, count}
use network_poller.Loop.{is_in_loop_thread, queue_in_loop}
use network_poller.Connection.Defs.{
  ConnState, connecting, connected, disconnecting, disconnected, is_connected, is_disconnecting,
  Task, shuts_down, force_closes, Net, Hooks, channel_of, is_set, shutdown_in_loop,
}
use network_poller.Connection.Sending.{write_handler}
use network_poller.Connection.Api.{shutdown, force_close, exchange}
use network_poller.Connection.Attached.{Base-Tested, Base-rest, in_loop_lem}
use network_poller.Connection.Stream.{stream, Sound}
use network_poller.Connection.Drain.{Drained, after_drain, write_handler-all}

module _ (e : Epoll) (tq : TaskQueue Task) where
  state-cases :
      (s : ConnState)
      → (s ≡ connected) ⊎ ((s ≡ disconnecting) ⊎ ((s ≢ connected) × (s ≢ disconnecting)))
  state-cases connecting = inr (inr (λ q. cc, λ q. cc))
  state-cases connected = inl refl
  state-cases disconnecting = inr (inl refl)
  state-cases disconnected = inr (inr (λ q. cc, λ q. cc))

  -- Shutdown acts on a connected connection alone: it moves it to DISCONNECTING and queues one
  -- ShutdownInLoop, unless the exchange fails for no reason, and then it does nothing. In any other
  -- state it does nothing.
  pub shutdown_cases :
      (spurious : Bool) (w : Net e tq)
      → ((w.rest.state ≢ connected) × (shutdown e tq spurious w ≡ w))
        ⊎ ((w.rest.state ≡ connected)
            × ((shutdown e tq false w).rest.state ≡ disconnecting)
            × (tq.items (shutdown e tq false w).queue ≡ tq.items w.queue ++ shuts_down ∷ [])
            × (shutdown e tq true w ≡ w))
  unfolding shutdown exchange queue_in_loop
  shutdown_cases spurious w = elim (state-cases w.rest.state) [
    | inl up ↦ inr (
      up,
      rw (ap is_connected up) refl,
      rw (ap is_connected up) (tq.enqueue_lem shuts_down w.queue),
      refl,
    )
    | inr (inl down) ↦ inl (λ up. cc, ground arith)
    | inr (inr (not_up, not_down)) ↦ inl (not_up, ground arith)
  ]

  -- ForceClose of a connected connection makes it DISCONNECTING and queues ForceCloseInLoop once for
  -- each of its two exchanges, but once only if the second fails for no reason; if the first does, it
  -- does nothing. Of a disconnecting one it queues it once, or not at all if the second exchange fails
  -- for no reason; of any other it does nothing.
  pub force_close_counts :
      (spurious1 spurious2 : Bool) (w : Net e tq)
      → ((w.rest.state ≡ connected)
          × ((force_close e tq false spurious2 w).rest.state ≡ disconnecting)
          × (tq.items (force_close e tq false spurious2 w).queue
              ≡ tq.items w.queue ++ force_closes ∷ (if spurious2 then [] else force_closes ∷ []))
          × (force_close e tq true spurious2 w ≡ w))
        ⊎ (((w.rest.state ≡ disconnecting)
              × (tq.items (force_close e tq spurious1 false w).queue
                  ≡ tq.items w.queue ++ force_closes ∷ [])
              × (force_close e tq spurious1 true w ≡ w))
            ⊎ ((w.rest.state ≢ connected)
                × (w.rest.state ≢ disconnecting)
                × (force_close e tq spurious1 spurious2 w ≡ w)))
  unfolding force_close exchange queue_in_loop
  force_close_counts spurious1 spurious2 w = elim (state-cases w.rest.state) [
    | inl up ↦
        let (state, items, nothing) = connected_lem spurious2 up in inl (up, state, items, nothing)
    | inr (inl down) ↦
        let (items, nothing) = disconnecting_lem spurious1 down in inr (inl (down, items, nothing))
    | inr (inr (not_up, not_down)) ↦ inr (inr (not_up, not_down, ground arith))
  ]
    where
      connected_lem :
          (spurious2 : Bool)
          → w.rest.state ≡ connected
          → ((force_close e tq false spurious2 w).rest.state ≡ disconnecting)
            × (tq.items (force_close e tq false spurious2 w).queue
                ≡ tq.items w.queue ++ force_closes ∷ (if spurious2 then [] else force_closes ∷ []))
            × (force_close e tq true spurious2 w ≡ w)
      connected_lem false up = (
        rw (ap is_connected up) refl,
        rw (ap is_connected up) (
            tq.enqueue_lem force_closes (tq.enqueue force_closes w.queue)
            ∙ ap (λ ts. ts ++ force_closes ∷ []) (tq.enqueue_lem force_closes w.queue)
            ∙ append_assoc (tq.items w.queue) (force_closes ∷ []) (force_closes ∷ [])),
        rw (ap is_disconnecting up) refl,
      )
      connected_lem true up = (
        rw (ap is_connected up) refl,
        rw (ap is_connected up) (tq.enqueue_lem force_closes w.queue),
        refl,
      )

      disconnecting_lem :
          (spurious1 : Bool)
          → w.rest.state ≡ disconnecting
          → (tq.items (force_close e tq spurious1 false w).queue
              ≡ tq.items w.queue ++ force_closes ∷ [])
            × (force_close e tq spurious1 true w ≡ w)
      disconnecting_lem false down = (
        rw (ap is_connected down, ap is_disconnecting down) (tq.enqueue_lem force_closes w.queue),
        rw (ap is_connected down) refl,
      )
      disconnecting_lem true down =
          (rw (ap is_disconnecting down) (tq.enqueue_lem force_closes w.queue), refl)

module _ (e : Epoll) (room : HasRoom e) (tq : TaskQueue Task) (hooks : Hooks e tq)
    (this_thread : ℕ) where
  -- ShutdownInLoop closes the sending direction of a sound connection exactly if no byte waits, and
  -- changes nothing else.
  pub shutdown_in_loop_lem :
      (w : Net e tq)
      → Sound e tq this_thread w
      → shutdown_in_loop e tq hooks this_thread w
        ≡ ok (
            if is_empty w.rest.write_buffer
            then record w { rest = record w.rest { write_shut = true } }
            else w)
  unfolding shutdown_in_loop
  shutdown_in_loop_lem w s =
      let asks : is_writing (channel_of e tq w) ≡ not (is_empty w.rest.write_buffer) =
        (Base-Tested e tq this_thread s.base).writing ∙ s.pending in
      rw (in_loop_lem e tq this_thread w s.base.here, asks)
        (flip (is_empty w.rest.write_buffer) w
          (record w { rest = record w.rest { write_shut = true } }))
    where
      flip :
          (b : Bool) (x v : Net e tq)
          → ◌≡◌ {A = Result (Net e tq)} (ok (if not b then x else v)) (ok (if b then v else x))
      flip true x v = refl
      flip false x v = refl

  -- If the write callback leaves the connection alone, the last byte that waits goes to the socket,
  -- and the connection is disconnecting, then WriteHandler closes the sending direction, after all
  -- bytes of the stream. If it is not disconnecting, the direction stays as it was. The invariant and
  -- the state are kept, and the write index does not grow.
  pub write_handler-shuts :
      (n : ℕ) (w : Net e tq)
      → Sound e tq this_thread w
      → 0 < length (contents w.rest.write_buffer)
      → length (contents w.rest.write_buffer) ≤ n
      → ((v : Net e tq) → call hooks.written_cb v ≡ ok v)
      → (w' : Net e tq) × (write_handler e tq hooks this_thread (count n) w ≡ ok w')
        × (w'.rest.sent ≡ stream e tq this_thread w)
        × (contents w'.rest.write_buffer ≡ [])
        × (w'.rest.write_shut ≡ (if is_disconnecting w.rest.state then true else w.rest.write_shut))
        × Sound e tq this_thread w'
        × (w'.rest.state ≡ w.rest.state)
        × (w'.rest.write_buffer.write_index ≤ w.rest.write_buffer.write_index)
  write_handler-shuts n w s some_wait all_taken calm =
      let (w1, ran, d) = write_handler-all e room tq hooks this_thread n w s some_wait all_taken in
      let on_thread = in_loop_lem e tq this_thread w1 d.sound.base.here in
      elim (Bool-cases (is_disconnecting w.rest.state)) [
        | inl closing ↦ (
          record w1 { rest = record w1.rest { write_shut = true } },
          ran ∙ quiet w1 on_thread ∙ shut w1 d closing,
          d.all_sent,
          d.nothing_waits,
          rw closing refl,
          record {
            wants = d.sound.wants;
            base =
                Base-rest e tq this_thread w1.queue (record w1.rest { write_shut = true })
                  d.sound.base refl d.sound.base.valid;
            pending = d.sound.pending;
          },
          d.same_state,
          d.limit,
        )
        | inr staying ↦ (
          w1,
          ran ∙ quiet w1 on_thread ∙ rw (ap is_disconnecting d.same_state ∙ staying) refl,
          d.all_sent,
          d.nothing_waits,
          rw staying d.same_shut,
          d.sound,
          d.same_state,
          d.limit,
        )
      ]
    where
      shut :
          (v : Net e tq)
          → Drained e room tq hooks this_thread w v
          → is_disconnecting w.rest.state ≡ true
          → (if is_disconnecting v.rest.state
              then shutdown_in_loop e tq hooks this_thread v
              else ok v)
            ≡ ok (record v { rest = record v.rest { write_shut = true } })
      shut v d closing =
          let empty_now : is_empty v.rest.write_buffer ≡ true =
            (is_empty_lem d.sound.base.valid).1 d.nothing_waits in
          rw (ap is_disconnecting d.same_state ∙ closing)
            (shutdown_in_loop_lem v d.sound ∙ rw empty_now refl)

      quiet :
          (v : Net e tq)
          → is_in_loop_thread e tq this_thread v ≡ true
          → after_drain e room tq hooks this_thread v ≡ (
              if is_disconnecting v.rest.state
              then shutdown_in_loop e tq hooks this_thread v
              else ok v)
      quiet v on_thread = elim (Bool-cases (is_set e tq hooks.written_cb)) [
        | inl there ↦ rw (there, on_thread, calm v, on_thread) refl
        | inr absent ↦ rw (absent, on_thread) refl
      ]
