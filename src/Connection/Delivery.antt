-- ===== src/Connection/Delivery.antt =====
-- `TcpConnection::SendInLoop` and `TcpConnection::WriteHandler` in any order: what the loop does with
-- the bytes that a user hands over, from the first Send to the last byte.
use network_poller.Prelude.{
  ℕ, ◌+◌, ◌≤◌, ◌<◌, ◌≡◌, ◌≢◌, refl, sym, ap, ◌∙◌, true, List, [], ◌∷◌, ◌++◌, append-nil,
  append_assoc, inl, inr, arith, length, length-append, nil_of_length, map,
}
use network_poller.Result.{Result, ok, ◌>>=◌}
use network_poller.Buffer.{contents, u32_mod}
use network_poller.Poller.Epoll.{Epoll, HasRoom}
use network_poller.Loop.External.{TaskQueue, IoResult, count}
use network_poller.Connection.Defs.{disconnected, is_disconnecting, Task, Net, Hooks}
use network_poller.Connection.Sending.{send_in_loop, write_handler}
use network_poller.Connection.Stream.{stream, Sound}
use network_poller.Connection.Send.{Healthy, send_in_loop-Sent}
use network_poller.Connection.Written.{
  eq_or_pos, Calm, waiting, nothing-Written, write_handler-Written,
}

-- A call of SendInLoop, with what `write` returns if it is called, or of WriteHandler, for which
-- `write` takes `n` bytes.
pub data Output : Type 0 where
  sends_in_loop : (written : IoResult) (bytes : List ℕ) → Output
  writes_out : (n : ℕ) → Output

-- The bytes that the calls are given, in order.
abbrev pub handed_over : List Output → List ℕ
handed_over [] = []
handed_over (sends_in_loop written bytes ∷ os) = bytes ++ handed_over os
handed_over (writes_out n ∷ os) = handed_over os

-- `write` takes no more than it is given, and never reports a broken connection.
abbrev pub AllHealthy : List Output → Type 0
AllHealthy [] = Unit
AllHealthy (sends_in_loop written bytes ∷ os) = Healthy written bytes × AllHealthy os
AllHealthy (writes_out n ∷ os) = AllHealthy os

-- The socket takes something each time.
abbrev pub AllPositive : List ℕ → Type 0
AllPositive [] = Unit
AllPositive (n ∷ ns) = (0 < n) × AllPositive ns

module _ (e : Epoll) (room : HasRoom e) (tq : TaskQueue Task) (hooks : Hooks e tq)
    (this_thread : ℕ) where
  unfoldable pub do_output : Output → Net e tq → Result (Net e tq)
  do_output (sends_in_loop written bytes) w = send_in_loop e tq hooks this_thread written bytes w
  do_output (writes_out n) w = write_handler e tq hooks this_thread (count n) w

  unfoldable pub do_outputs : List Output → Net e tq → Result (Net e tq)
  unfolding do_output
  do_outputs [] w = ok w
  do_outputs (o ∷ os) w = do_output o w >>= do_outputs os

  -- For a sound connection that is not disconnected, with room for 32-bit indices, a socket that does
  -- not report a broken connection and a write callback that leaves the connection alone: whatever
  -- calls of SendInLoop and WriteHandler follow each other, all return, and the stream, what the socket
  -- took and then what waits, has grown by exactly the bytes that the calls were given, in their order
  -- and once each. The invariant and the state are kept.
  pub do_outputs-stream :
      (os : List Output) (w : Net e tq)
      → Sound e tq this_thread w
      → w.rest.state ≢ disconnected
      → w.rest.write_buffer.write_index + length (handed_over os) < u32_mod
      → AllHealthy os
      → Calm e room tq hooks this_thread
      → (w' : Net e tq) × (do_outputs os w ≡ ok w')
        × Sound e tq this_thread w'
        × (stream e tq this_thread w' ≡ stream e tq this_thread w ++ handed_over os)
        × (w'.rest.state ≡ w.rest.state)
  unfolding do_outputs do_output
  do_outputs-stream [] w s on fits healthy calm =
      (w, refl, s, sym (append-nil (stream e tq this_thread w)), refl)
  do_outputs-stream (sends_in_loop written bytes ∷ os) w s on fits (healthy, rest) calm =
      let (w1, ran, sent) =
        send_in_loop-Sent e room tq hooks this_thread written bytes w s on
          (omega (arith, length-append bytes (handed_over os))) healthy in
      let (w', ran', s', grown, state) =
        do_outputs-stream os w1 sent.sound (λ off. on (sym sent.same_state ∙ off))
          (omega (arith, length-append bytes (handed_over os), sent.limit)) rest calm in
      (
        w',
        rw ran ran',
        s',
        grown
            ∙ ap (λ xs. xs ++ handed_over os) sent.added
            ∙ append_assoc (stream e tq this_thread w) bytes (handed_over os),
        state ∙ sent.same_state,
      )
  do_outputs-stream (writes_out n ∷ os) w s on fits healthy calm =
      let (w1, ran, wrote) = write_handler-Written e room tq hooks this_thread n w s calm in
      let (w', ran', s', grown, state) =
        do_outputs-stream os w1 wrote.sound (λ off. on (sym wrote.same_state ∙ off))
          (omega (arith, wrote.limit)) healthy calm in
      (
        w',
        rw ran ran',
        s',
        grown ∙ ap (λ xs. xs ++ handed_over os) wrote.same_stream,
        state ∙ wrote.same_state,
      )

  -- With nothing to write, any number of write events changes nothing.
  idle_events :
      (ns : List ℕ) (w : Net e tq)
      → Sound e tq this_thread w
      → waiting e room tq hooks this_thread w ≡ 0
      → do_outputs (map writes_out ns) w ≡ ok w
  unfolding do_outputs do_output
  idle_events [] w s none = refl
  idle_events (n ∷ ns) w s none =
      let (ran, _) = nothing-Written e room tq hooks this_thread n w s (inr none) in
      ap (λ r. r >>= do_outputs (map writes_out ns)) ran ∙ idle_events ns w s none

  -- For a sound connection whose write callback leaves it alone, if the socket takes at least one byte
  -- at each write event and there are as many events as bytes that wait, then WriteHandler returns each
  -- time, and after the last event the socket has all bytes of the stream and none waits. If bytes
  -- waited and the connection is disconnecting, its sending direction has been closed.
  pub write_events-deliver :
      (ns : List ℕ) (w : Net e tq)
      → Sound e tq this_thread w
      → Calm e room tq hooks this_thread
      → AllPositive ns
      → length (contents w.rest.write_buffer) ≤ length ns
      → (w' : Net e tq) × (do_outputs (map writes_out ns) w ≡ ok w')
        × (w'.rest.sent ≡ stream e tq this_thread w)
        × (contents w'.rest.write_buffer ≡ [])
        × (is_disconnecting w.rest.state ≡ true
            → 0 < length (contents w.rest.write_buffer)
            → w'.rest.write_shut ≡ true)
  unfolding do_outputs do_output
  write_events-deliver [] w s calm pos enough =
      let none = nil_of_length (contents w.rest.write_buffer) (omega arith) in
      (
        w,
        refl,
        sym (ap (λ xs. w.rest.sent ++ xs) none ∙ append-nil w.rest.sent),
        none,
        λ _ some_wait. absurd (omega arith),
      )
  write_events-deliver (n ∷ ns) w s calm (one, pos) enough =
      let (w1, ran, wrote) = write_handler-Written e room tq hooks this_thread n w s calm in
      elim (eq_or_pos (length (contents w1.rest.write_buffer))) [
        | inl none ↦
            let empty = nil_of_length (contents w1.rest.write_buffer) none in
            (
              w1,
              rw ran (idle_events ns w1 wrote.sound none),
              sym (ap (λ xs. w1.rest.sent ++ xs) empty ∙ append-nil w1.rest.sent)
                  ∙ wrote.same_stream,
              empty,
              λ closing some_wait. wrote.shut closing some_wait none,
            )
        | inr still ↦
            let (w', ran', sent, empty, shut) =
              write_events-deliver ns w1 wrote.sound calm pos (omega (arith, wrote.waits)) in
            (
              w',
              rw ran ran',
              sent ∙ wrote.same_stream,
              empty,
              λ closing _. shut (ap is_disconnecting wrote.same_state ∙ closing) still,
            )
      ]
