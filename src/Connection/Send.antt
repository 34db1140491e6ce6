-- ===== src/Connection/Send.antt =====
-- `TcpConnection::SendInLoop` on each of its branches.
use network_poller.Prelude.{
  ℕ, ◌+◌, ◌-◌, ◌≤◌, ◌<◌, ◌≡◌, ◌≢◌, refl, sym, ap, ◌∙◌, true, false, not, ◌&&◌, List, [], ◌∷◌, ◌++◌,
  inl, inr, arith, ◌==◌, Bool-cases, length, take, drop, take-append-drop, append_assoc, append-nil,
  length-drop, nil_of_length, lt→ltb,
}
use network_poller.Result.{ok}
use network_poller.Buffer.{contents, u32_mod, readable_bytes, readable_bytes_lem, length-contents}
use network_poller.Channel.{is_writing}
use network_poller.Poller.Epoll.{Epoll, HasRoom}
use network_poller.Loop.External.{TaskQueue, IoResult, count, io_failed}
use network_poller.Loop.{is_in_loop_thread}
use network_poller.Connection.Defs.{
  ConnState, disconnected, is_disconnected, Task, writes_complete, Net, Hooks, channel_of, accept,
  is_set, close_handler,
}
use network_poller.Connection.Sending.{is_fault, send_rest, send_directly, send_in_loop}
use network_poller.Connection.Attached.{Base-rest, in_loop_lem}
use network_poller.Connection.Stream.{stream, Sound, Sent, queue_if_lem, buffer_rest-Sent}

-- `write` takes no more than it was given, and does not fail as on a broken connection.
abbrev pub Healthy : IoResult → List ℕ → Type 0
Healthy (count n) bytes = n ≤ length bytes
Healthy (io_failed errno logged) bytes = is_fault errno logged ≡ false

disconnected-cases : (s : ConnState) → s ≢ disconnected → is_disconnected s ≡ false
disconnected-cases s ne = ground arith

module _ (e : Epoll) (room : HasRoom e) (tq : TaskQueue Task) (hooks : Hooks e tq)
    (this_thread : ℕ) where
  send_rest-Sent :
      (rest : List ℕ) (w : Net e tq)
      → Sound e tq this_thread w
      → w.rest.write_buffer.write_index + length rest < u32_mod
      → (w' : Net e tq) × (send_rest e tq hooks this_thread rest w ≡ ok w')
        × Sent e tq this_thread w w' rest
  send_rest-Sent [] w s fits = (
    w,
    refl,
    record {
      sound = s;
      added = sym (append-nil (stream e tq this_thread w));
      same_state = refl;
      limit = omega arith;
    },
  )
  send_rest-Sent (byte ∷ rest) w s fits =
      let (w', ran, sent) =
        buffer_rest-Sent e tq this_thread room hooks (byte ∷ rest) w s.wants s.base (omega arith)
          fits in
      (w', rw (lt→ltb 0 (length (byte ∷ rest)) (omega arith)) ran, sent)

  -- The queue and the bytes accepted do not touch the invariant.
  accepted-Sound :
      (w : Net e tq) (q : tq.Queue) (bytes : List ℕ)
      → Sound e tq this_thread w
      → Sound e tq this_thread (record (accept e tq bytes w) { queue = q })
  accepted-Sound w q bytes s = record {
    wants = s.wants;
    base = Base-rest e tq this_thread q (accept e tq bytes w).rest s.base refl s.base.valid;
    pending = s.pending;
  }

  send_directly-Sent :
      (written : IoResult) (bytes : List ℕ) (w : Net e tq)
      → Sound e tq this_thread w
      → contents w.rest.write_buffer ≡ []
      → w.rest.write_buffer.write_index + length bytes < u32_mod
      → Healthy written bytes
      → (w' : Net e tq) × (send_directly e tq hooks this_thread written bytes w ≡ ok w')
        × Sent e tq this_thread w w' bytes
  unfolding send_directly
  send_directly-Sent (io_failed errno logged) bytes w s none fits healthy =
      let (w', ran, sent) = send_rest-Sent bytes w s fits in (w', rw healthy ran, sent)
  send_directly-Sent (count n) bytes w s none fits healthy =
      let all_sent = (length bytes - n == 0) && is_set e tq hooks.written_cb in
      let (q, queued) =
        queue_if_lem e tq this_thread all_sent writes_complete (accept e tq (take n bytes) w) in
      let w1 : Net e tq = record (accept e tq (take n bytes) w) { queue = q } in
      let (w', ran, sent) =
        send_rest-Sent (drop n bytes) w1 (accepted-Sound w q (take n bytes) s)
          (omega (arith, length-drop n bytes)) in
      (
        w',
        rw queued ran,
        record {
          sound = sent.sound;
          added = sent.added ∙ joined;
          same_state = sent.same_state;
          limit = omega (arith, sent.limit, length-drop n bytes);
        },
      )
    where
      joined :
          ((w.rest.sent ++ take n bytes) ++ contents w.rest.write_buffer) ++ drop n bytes
          ≡ (w.rest.sent ++ contents w.rest.write_buffer) ++ bytes
      joined = rw none (
          simp (append-nil, append_assoc) (ap (λ xs. w.rest.sent ++ xs) (take-append-drop n bytes)))

  -- On the loop's thread, with a sound connection that is not disconnected and room for 32-bit
  -- indices: if `write`, should it be called, does not report a broken connection, SendInLoop returns
  -- with the bytes at the end of the stream, in order and once each, whatever part the socket took at
  -- once; the invariant and the state are kept.
  pub send_in_loop-Sent :
      (written : IoResult) (bytes : List ℕ) (w : Net e tq)
      → Sound e tq this_thread w
      → w.rest.state ≢ disconnected
      → w.rest.write_buffer.write_index + length bytes < u32_mod
      → Healthy written bytes
      → (w' : Net e tq) × (send_in_loop e tq hooks this_thread written bytes w ≡ ok w')
        × Sent e tq this_thread w w' bytes
  unfolding send_in_loop
  send_in_loop-Sent written bytes w s up fits healthy =
      elim (Bool-cases
        (not (is_writing (channel_of e tq w)) && (readable_bytes w.rest.write_buffer == 0))) [
          | inl direct ↦
              let none : contents w.rest.write_buffer ≡ [] =
                nil_of_length (contents w.rest.write_buffer)
                  (ground (arith, readable_bytes_lem s.base.valid, length-contents s.base.valid)) in
              let (w', ran, sent) = send_directly-Sent written bytes w s none fits healthy in
              (w', rw (on_thread, not_down, direct) ran, sent)
          | inr buffered ↦
              let (w', ran, sent) = send_rest-Sent bytes w s fits in
              (w', rw (on_thread, not_down, buffered) ran, sent)
        ]
    where
      on_thread : is_in_loop_thread e tq this_thread w ≡ true
      on_thread = in_loop_lem e tq this_thread w s.base.here

      not_down : is_disconnected w.rest.state ≡ false
      not_down = disconnected-cases w.rest.state up

  -- After the connection is down SendInLoop drops the bytes and changes nothing.
  pub send_in_loop-disconnected :
      (written : IoResult) (bytes : List ℕ) (w : Net e tq)
      → this_thread ≡ w.thread_id
      → w.rest.state ≡ disconnected
      → send_in_loop e tq hooks this_thread written bytes w ≡ ok w
  unfolding send_in_loop
  send_in_loop-disconnected written bytes w here down =
      rw (in_loop_lem e tq this_thread w here, ap is_disconnected down) refl

  -- A direct write that reports a broken connection closes it, and stores none of the bytes.
  pub send_in_loop-broken :
      (errno logged : ℕ) (bytes : List ℕ) (w : Net e tq)
      → this_thread ≡ w.thread_id
      → w.rest.state ≢ disconnected
      → is_writing (channel_of e tq w) ≡ false
      → readable_bytes w.rest.write_buffer ≡ 0
      → is_fault errno logged ≡ true
      → send_in_loop e tq hooks this_thread (io_failed errno logged) bytes w
        ≡ close_handler e tq hooks this_thread w
  unfolding send_in_loop send_directly
  send_in_loop-broken errno logged bytes w here up idle none_left broken =
      rw
        (
          in_loop_lem e tq this_thread w here,
          disconnected-cases w.rest.state up,
          idle,
          none_left,
          broken,
        )
        refl
