-- ===== src/Loop/Fresh.antt =====
-- `new EventChannel(loop, fd)` of event_channel.cpp, for a loop that has channels already.
use network_poller.Prelude.{ℕ, ◌≡◌, ◌≢◌, refl, sym, ap, ◌∙◌, inl, inr}
use network_poller.Channel.{Channel, new_channel, new_event_channel}
use network_poller.Poller.Epoll.{Epoll, update, update_self, update_ne, update_all, same_or_not}
use network_poller.Loop.External.{TaskQueue}
use network_poller.Loop.Defs.{World}
use network_poller.Loop.Invariant.{Registry, IsKnown, IsFree}

module _ (e : Epoll) {Task : Type 0} (tq : TaskQueue Task) {R : Type 0} where
  -- A new channel at an address; `garbage` is what stands in its uninitialised member.
  abbrev pub with_channel : ℕ → ℕ → ℕ → World e tq R → World e tq R
  with_channel address fd garbage w = record w {
    heap = update w.heap address (new_event_channel address w.self fd garbage);
  }

  -- No channel that the poller knows has the descriptor.
  abbrev pub IsUnused : World e tq R → ℕ → Type 0
  IsUnused w fd = (j : ℕ) → IsKnown e tq w j → (w.heap j).fd ≢ fd

  module _ (address fd garbage : ℕ) (w : World e tq R)
      (spare : (w.heap address).status ≡ new_channel) where
    made : World e tq R
    made = with_channel address fd garbage w

    IsKnown-before :
        (i : ℕ) → IsKnown e tq made i → (address ≢ i) × (made.heap i ≡ w.heap i) × IsKnown e tq w i
    unfolding made new_event_channel
    IsKnown-before i known = elim (same_or_not address i) [
      | inl here ↦ absurd (
          known (
            ap (λ k. (made.heap k).status) (sym here)
            ∙ ap (λ c. c.status)
                (update_self w.heap address (new_event_channel address w.self fd garbage))))
      | inr ne ↦
          let same = update_ne w.heap address (new_event_channel address w.self fd garbage) i ne in
          (ne, same, λ is. known (ap (λ c. c.status) same ∙ is))
    ]

    IsKnown-after : (i : ℕ) → IsKnown e tq w i → (made.heap i ≡ w.heap i) × IsKnown e tq made i
    unfolding made
    IsKnown-after i known =
        let same =
          update_ne w.heap address (new_event_channel address w.self fd garbage) i
            (λ here. known (ap (λ k. (w.heap k).status) (sym here) ∙ spare)) in
        (same, λ is. known (ap (λ c. c.status) (sym same) ∙ is))

    -- A new channel at an address that is no known channel's keeps the registry.
    pub with_channel-Registry : Registry e tq w → Registry e tq (with_channel address fd garbage w)
    unfolding made new_event_channel
    with_channel-Registry reg = record {
      address =
          update_all (λ i (c : Channel). c.id ≡ i) w.heap address
            (new_event_channel address w.self fd garbage) refl (λ j _. reg.address j);
      owner =
          update_all (λ _ (c : Channel). c.event_loop ≡ w.self) w.heap address
            (new_event_channel address w.self fd garbage) refl (λ j _. reg.owner j);
      thread = reg.thread;
      synced = λ i known.
          let (_, same, before) = IsKnown-before i known in rw same (reg.synced i before);
      exclusive = λ i j known_i known_j same.
          let (_, same_i, before_i) = IsKnown-before i known_i in
          let (_, same_j, before_j) = IsKnown-before j known_j in
          reg.exclusive i j before_i before_j
            (ap (λ c. c.fd) (sym same_i) ∙ same ∙ ap (λ c. c.fd) same_j);
      vacant = λ n unused. reg.vacant n (λ i known.
          let (same, after) = IsKnown-after i known in
          λ at. unused i after (ap (λ c. c.fd) same ∙ at));
    }

    -- Its descriptor is its own if no known channel has it.
    pub with_channel-IsFree :
        IsUnused w fd → IsFree e tq (with_channel address fd garbage w) address
    unfolding made new_event_channel
    with_channel-IsFree unused j ne known at =
        let (_, same, before) = IsKnown-before j known in
        unused j before (
          ap (λ c. c.fd) (sym same)
          ∙ at
          ∙ ap (λ c. c.fd)
              (update_self w.heap address (new_event_channel address w.self fd garbage)))
