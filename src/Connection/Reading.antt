-- ===== src/Connection/Reading.antt =====
-- `TcpConnection::ReadHandler`: what the peer sends reaches the message callback.
use network_poller.Prelude.{
  ℕ, ◌+◌, ◌≤◌, ◌<◌, ◌≡◌, refl, sym, ap, ◌∙◌, List, [], ◌∷◌, ◌++◌, some, arith, length, append_assoc,
  append-nil, length-append,
}
use network_poller.Result.{Result, ok}
use network_poller.Buffer.{
  Buffer, IsValid, contents, u32_mod, ReadResult, received, failed, read_from_fd-received,
  read_from_fd-failed,
}
use network_poller.Poller.Epoll.{Epoll}
use network_poller.Loop.External.{TaskQueue}
use network_poller.Connection.Defs.{
  Task, Net, Hooks, eagain, set_read_buffer, read_loop, read_handler,
}
use network_poller.Connection.Attached.{in_loop_lem}

-- Reads that return data each time, until the socket has none left.
abbrev pub reads_of : List (ℕ × List ℕ) → List ReadResult
reads_of [] = failed eagain ∷ []
reads_of ((byte, bytes) ∷ rest) = received (byte ∷ bytes) ∷ reads_of rest

-- All bytes of the reads, in order.
unfoldable pub arrived : List (ℕ × List ℕ) → List ℕ
arrived [] = []
arrived ((byte, bytes) ∷ rest) = (byte ∷ bytes) ++ arrived rest

module _ (e : Epoll) (tq : TaskQueue Task) (hooks : Hooks e tq) (this_thread : ℕ)
    (seen : Net e tq → List ℕ) where
  -- The bytes that the client has taken over, then those that wait in the read buffer.
  abbrev pub input : Net e tq → List ℕ
  input w = seen w ++ contents w.rest.read_buffer

  -- A message callback that takes some of the bytes that wait, in order, or none, and returns.
  -- `seen` is what it has taken so far.
  pub record Reader : Type 0 where
    pub cb : Net e tq → Result (Net e tq)
    pub installed : hooks.msg_cb ≡ some cb
    pub blind : (b : Buffer) (w : Net e tq) → seen (set_read_buffer e tq b w) ≡ seen w
    pub takes :
        (w : Net e tq)
        → IsValid w.rest.read_buffer
        → (w' : Net e tq) × (cb w ≡ ok w')
          × (input w' ≡ input w)
          × IsValid w'.rest.read_buffer
          × (w'.rest.read_buffer.write_index ≤ w.rest.read_buffer.write_index)

  module _ (reader : Reader) where
    -- `Keep` is any property that a new read buffer and the callback leave alone.
    module _ (Keep : Net e tq → Type 0)
        (buffered : (b : Buffer) (w : Net e tq) → Keep w → Keep (set_read_buffer e tq b w))
        (called : (w w' : Net e tq) → Keep w → reader.cb w ≡ ok w' → Keep w') where
      pub read_loop-input :
          (reads : List (ℕ × List ℕ)) (w : Net e tq)
          → Keep w
          → IsValid w.rest.read_buffer
          → w.rest.read_buffer.write_index + length (arrived reads) < u32_mod
          → (w' : Net e tq) × (read_loop e tq hooks this_thread (reads_of reads) w ≡ ok w')
            × (input w' ≡ input w ++ arrived reads)
            × IsValid w'.rest.read_buffer
            × Keep w'
      unfolding read_loop arrived
      read_loop-input [] w kept v fits = (
        w,
        rw (read_from_fd-failed w.rest.read_buffer eagain) refl,
        sym (append-nil (input w)),
        v,
        kept,
      )
      read_loop-input ((byte, bytes) ∷ rest) w kept v fits =
          let (b, ran, stored) =
            read_from_fd-received (byte ∷ bytes) v
              (omega (arith, length-append (byte ∷ bytes) (arrived rest))) in
          let w0 = set_read_buffer e tq b w in
          let (w1, answered, same, valid, writing) = reader.takes w0 stored.valid in
          let (w2, rest_ran, more, last, kept2) =
            read_loop-input rest w1 (called w0 w1 (buffered b w kept) answered) valid
              (omega (arith, length-append (byte ∷ bytes) (arrived rest), stored.writing)) in
          let step : input w0 ≡ input w ++ (byte ∷ bytes) =
            rw (reader.blind b w, stored.added)
              (sym (append_assoc (seen w) (contents w.rest.read_buffer) (byte ∷ bytes))) in
          (
            w2,
            rw (ran, reader.installed, answered) rest_ran,
            more
                ∙ ap (λ xs. xs ++ arrived rest) (same ∙ step)
                ∙ append_assoc (input w) (byte ∷ bytes) (arrived rest),
            last,
            kept2,
          )

    -- On the loop's thread, with a message callback that takes bytes in order and returns, and room
    -- for 32-bit indices: if the reads return data each time until one fails with EAGAIN, so that
    -- neither an end of file nor another error is met, ReadHandler returns, and what the callback has taken, followed by what still waits, has grown by exactly the bytes
    -- read, in order.
    pub read_handler-input :
        (reads : List (ℕ × List ℕ)) (w : Net e tq)
        → this_thread ≡ w.thread_id
        → IsValid w.rest.read_buffer
        → w.rest.read_buffer.write_index + length (arrived reads) < u32_mod
        → (w' : Net e tq) × (read_handler e tq hooks this_thread (reads_of reads) w ≡ ok w')
          × (input w' ≡ input w ++ arrived reads)
          × IsValid w'.rest.read_buffer
    unfolding read_handler
    read_handler-input reads w here v fits =
        let (w', ran, more, valid, _) =
          read_loop-input (λ _. Unit {0}) (λ _ _ _. tt) (λ _ _ _ _. tt) reads w tt v fits in
        (w', rw (in_loop_lem e tq this_thread w here) ran, more, valid)
