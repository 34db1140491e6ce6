-- ===== src/Connection/Stream.antt =====
-- The bytes that a connection of tcp_connection.cpp hands to the socket: SendInLoop and its parts.
use network_poller.Prelude.{
  ℕ, ◌+◌, ◌<◌, ◌≤◌, ◌≡◌, ◌≢◌, refl, sym, ap, ◌∙◌, subst, Bool, true, false, not, ◌&&◌, List, [],
  ◌++◌, inl, inr, arith, ltb, if◌then◌else◌, Bool-cases, length, append_assoc, length-append,
}
use network_poller.Result.{ok}
use network_poller.Buffer.{
  Buffer, IsValid, contents, u32_mod, readable_bytes, is_empty, append_lem, is_empty_lem,
}
use network_poller.Channel.Flags.{Interest}
use network_poller.Channel.{is_writing, Tested}
use network_poller.Poller.Epoll.{Epoll, HasRoom}
use network_poller.Loop.External.{TaskQueue}
use network_poller.Loop.{queue_in_loop, enable_writing, enables_writing, apply, perform}
use network_poller.Connection.Defs.{
  Task, high_water, high_water_mark, Conn, Net, Hooks, channel_of, set_write_buffer, is_set,
  queue_if,
}
use network_poller.Connection.Sending.{buffer_rest}
use network_poller.Connection.Attached.{Base, Base-Tested, Base-rest, perform-Base}

module _ (e : Epoll) (tq : TaskQueue Task) (this_thread : ℕ) where
  -- What the peer is to receive: the bytes that the socket has taken, then those that wait.
  abbrev pub stream : Net e tq → List ℕ
  stream w = w.rest.sent ++ contents w.rest.write_buffer

  -- A connection that can send. The kernel is asked to report room for writing exactly while bytes
  -- wait.
  pub record Sound (w : Net e tq) : Type 0 where
    pub wants : Interest
    pub base : Base e tq this_thread w wants
    pub pending : wants.writing ≡ not (is_empty w.rest.write_buffer)

  -- What a call that adds bytes to the stream leaves.
  pub record Sent (w w' : Net e tq) (bytes : List ℕ) : Type 0 where
    pub sound : Sound w'
    pub added : stream w' ≡ stream w ++ bytes
    pub same_state : w'.rest.state ≡ w.rest.state
    pub limit : w'.rest.write_buffer.write_index ≤ w.rest.write_buffer.write_index + length bytes

  pub not-empty : {b : Buffer} → IsValid b → contents b ≢ [] → is_empty b ≡ false
  not-empty {b} v some_left = elim (Bool-cases (is_empty b)) [
    | inl empty ↦ absurd (some_left ((is_empty_lem v).0 empty))
    | inr full ↦ full
  ]

  append-ne : (xs ys : List ℕ) → 0 < length ys → xs ++ ys ≢ []
  append-ne xs ys h e = omega (arith, ap length e, length-append xs ys)

  -- A functor in the queue changes nothing that the connection's invariant speaks of.
  pub queue_if_lem :
      (test : Bool) (task : Task) (w : Net e tq)
      → (q : tq.Queue) × (queue_if e tq test task w ≡ record w { queue = q })
  unfolding queue_in_loop
  queue_if_lem true task w = (tq.enqueue task w.queue, refl)
  queue_if_lem false task w = (w.queue, refl)

  module _ (room : HasRoom e) (hooks : Hooks e tq) where
    -- The bytes are stored and the kernel is asked to report room for writing.
    ask_to_write :
        (w : Net e tq) (i : Interest)
        → Base e tq this_thread w i
        → contents w.rest.write_buffer ≢ []
        → (w' : Net e tq) × ((if is_writing (channel_of e tq w)
              then ok w
              else enable_writing e tq this_thread w.rest.channel w)
            ≡ ok w')
          × Sound w'
          × (w'.rest ≡ w.rest)
    unfolding perform apply
    ask_to_write w i b waits = elim (Bool-cases (is_writing (channel_of e tq w))) [
      | inl already ↦ (
        w,
        rw already refl,
        record {
          wants = i;
          base = b;
          pending = sym (Base-tests.writing) ∙ already ∙ ap not (sym (not-empty b.valid waits));
        },
        refl,
      )
      | inr not_yet ↦
          let (w', ran, b', frame) = perform-Base e tq this_thread room enables_writing w i b in
          let same : w'.rest ≡ w.rest = ap (λ v. v.rest) frame in
          (
            w',
            rw not_yet ran,
            record {
              wants = apply enables_writing i;
              base = b';
              pending =
                  subst (λ c. true ≡ not (is_empty c.write_buffer)) (sym same)
                    (ap not (sym (not-empty b.valid waits)));
            },
            same,
          )
    ]
      where
        Base-tests : Tested (channel_of e tq w) i
        Base-tests = Base-Tested e tq this_thread b

    -- Bytes that cannot be written now go behind those that wait.
    pub buffer_rest-Sent :
        (rest : List ℕ) (w : Net e tq) (i : Interest)
        → Base e tq this_thread w i
        → 0 < length rest
        → w.rest.write_buffer.write_index + length rest < u32_mod
        → (w' : Net e tq) × (buffer_rest e tq hooks this_thread rest w ≡ ok w') × Sent w w' rest
    unfolding buffer_rest
    buffer_rest-Sent rest w i b some_left fits =
        let above =
          ltb high_water_mark (readable_bytes w.rest.write_buffer + length rest)
          && is_set e tq hooks.high_water_cb in
        let (q, queued) = queue_if_lem above (high_water w.rest.high_water_size) w in
        let (b', grown, stored) = append_lem rest b.valid fits in
        let w2 : Net e tq = set_write_buffer e tq b' (record w { queue = q }) in
        let (w', ran, sound, same) =
          ask_to_write w2 i (Base-rest e tq this_thread q w2.rest b refl stored.valid) (λ none.
            append-ne (contents w.rest.write_buffer) rest some_left (sym stored.added ∙ none)) in
        (
          w',
          rw (queued, grown) ran,
          record {
            sound = sound;
            added =
                ap (λ (c : Conn). c.sent ++ contents c.write_buffer) same
                ∙ ap (λ xs. w.rest.sent ++ xs) stored.added
                ∙ sym (append_assoc w.rest.sent (contents w.rest.write_buffer) rest);
            same_state = ap (λ (c : Conn). c.state) same;
            limit =
                omega (arith, stored.writing, ap (λ (c : Conn). c.write_buffer.write_index) same);
          },
        )
