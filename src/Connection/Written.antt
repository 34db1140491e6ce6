-- ===== src/Connection/Written.antt =====
-- `TcpConnection::WriteHandler` of a sound connection, whatever the socket takes.
use network_poller.Prelude.{
  ℕ, zero, suc, ◌-◌, ◌≤◌, ◌<◌, ◌≡◌, ◌⊎◌, refl, ap, ◌∙◌, true, false, not, ◌&&◌, ◌++◌, append-nil,
  inl, inr, arith, length, length-drop, nil_of_length, ltb,
}
use network_poller.Result.{ok}
use network_poller.Buffer.{contents, is_empty, is_empty_lem}
use network_poller.Channel.{is_writing, call}
use network_poller.Poller.Epoll.{Epoll, HasRoom}
use network_poller.Loop.External.{TaskQueue, count}
use network_poller.Connection.Defs.{is_disconnecting, Task, Net, Hooks, channel_of}
use network_poller.Connection.Sending.{write_handler}
use network_poller.Connection.Attached.{Base-Tested, in_loop_lem}
use network_poller.Connection.Stream.{stream, Sound}
use network_poller.Connection.Drain.{write_handler-partly}
use network_poller.Connection.Graceful.{write_handler-shuts}

pub eq_or_pos : (n : ℕ) → (n ≡ 0) ⊎ (0 < n)
eq_or_pos zero = inl refl
eq_or_pos (suc n) = inr (omega arith)

lt_or_le : (m n : ℕ) → (m < n) ⊎ (n ≤ m)
lt_or_le m n = omega arith

module _ (e : Epoll) (room : HasRoom e) (tq : TaskQueue Task) (hooks : Hooks e tq)
    (this_thread : ℕ) where
  -- The write callback leaves the connection alone.
  abbrev pub Calm : Type 0
  Calm = (v : Net e tq) → call hooks.written_cb v ≡ ok v

  abbrev pub waiting : Net e tq → ℕ
  waiting w = length (contents w.rest.write_buffer)

  -- What WriteHandler does to a sound connection, whatever the socket takes.
  pub record Written (n : ℕ) (w w' : Net e tq) : Type 0 where
    pub sound : Sound e tq this_thread w'
    pub same_stream : stream e tq this_thread w' ≡ stream e tq this_thread w
    pub waits : length (contents w'.rest.write_buffer) ≡ length (contents w.rest.write_buffer) - n
    pub same_state : w'.rest.state ≡ w.rest.state
    pub limit : w'.rest.write_buffer.write_index ≤ w.rest.write_buffer.write_index
    pub shut :
        is_disconnecting w.rest.state ≡ true
        → 0 < length (contents w.rest.write_buffer)
        → length (contents w'.rest.write_buffer) ≡ 0
        → w'.rest.write_shut ≡ true
    pub idle : length (contents w.rest.write_buffer) ≡ 0 → w' ≡ w

  -- With nothing to write, or no room for it, WriteHandler does nothing.
  pub nothing-Written :
      (n : ℕ) (w : Net e tq)
      → Sound e tq this_thread w
      → (n ≡ 0) ⊎ (length (contents w.rest.write_buffer) ≡ 0)
      → (write_handler e tq hooks this_thread (count n) w ≡ ok w) × Written n w w
  unfolding write_handler
  nothing-Written n w s why = (
    rw (in_loop_lem e tq this_thread w s.base.here, off why) refl,
    record {
      sound = s;
      same_stream = refl;
      waits = elim why [ inl none ↦ omega arith | inr none ↦ omega arith ];
      same_state = refl;
      limit = omega arith;
      shut = λ _ some_wait none_waits. absurd (omega arith);
      idle = λ _. refl;
    },
  )
    where
      off :
          (n ≡ 0) ⊎ (length (contents w.rest.write_buffer) ≡ 0)
          → (is_writing (channel_of e tq w) && ltb 0 n) ≡ false
      off (inl none) = ground arith
      off (inr none) =
          let empty_now : is_empty w.rest.write_buffer ≡ true =
            (is_empty_lem s.base.valid).1 (nil_of_length (contents w.rest.write_buffer) none) in
          let not_asked : is_writing (channel_of e tq w) ≡ false =
            (Base-Tested e tq this_thread s.base).writing ∙ s.pending ∙ ap not empty_now in
          rw not_asked refl

  pub write_handler-Written :
      (n : ℕ) (w : Net e tq)
      → Sound e tq this_thread w
      → Calm
      → (w' : Net e tq) × (write_handler e tq hooks this_thread (count n) w ≡ ok w')
        × Written n w w'
  write_handler-Written n w s calm = elim (eq_or_pos n) [
    | inl none ↦ let (ran, kept) = nothing-Written n w s (inl none) in (w, ran, kept)
    | inr some_taken ↦ elim (eq_or_pos (waiting w)) [
      | inl none ↦ let (ran, kept) = nothing-Written n w s (inr none) in (w, ran, kept)
      | inr some_wait ↦ elim (lt_or_le n (waiting w)) [
        | inl less ↦
            let (w', ran, sound, same, left, state, limit) =
              write_handler-partly e room tq hooks this_thread n w s some_taken less in
            (
              w',
              ran,
              record {
                sound = sound;
                same_stream = same;
                waits = ap length left ∙ length-drop n (contents w.rest.write_buffer);
                same_state = state;
                limit = limit;
                shut = λ _ _ none_waits.
                    absurd
                      (omega (arith, ap length left, length-drop n (contents w.rest.write_buffer)));
                idle = λ none. absurd (omega arith);
              },
            )
        | inr all ↦
            let (w', ran, sent, empty, shut, sound, state, limit) =
              write_handler-shuts e room tq hooks this_thread n w s some_wait all calm in
            (
              w',
              ran,
              record {
                sound = sound;
                same_stream = ap (λ xs. w'.rest.sent ++ xs) empty ∙ append-nil w'.rest.sent ∙ sent;
                waits = omega (arith, ap length empty);
                same_state = state;
                limit = limit;
                shut = λ closing _ _. shut ∙ rw closing refl;
                idle = λ none. absurd (omega arith);
              },
            )
      ]
    ]
  ]
