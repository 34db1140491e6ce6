-- ===== src/Loop/Invariant.antt =====
-- event_loop.cpp, event_channel.cpp and epoll_poller.cpp together: every channel of a loop against
-- the poller's map and the kernel's interest list.
use network_poller.Prelude.{ℕ, ◌≡◌, ◌≢◌, refl, sym, ap, ◌∙◌, subst, none, inl, inr, ◌⊎◌}
use network_poller.Channel.{Channel, Status, new_channel, added_channel, delete_channel}
use network_poller.Poller.Epoll.{Epoll, update, update_self, update_ne, update_all, same_or_not}
use network_poller.Poller.{Poller, Agrees, Synced, Apart, SameChannel, Apart-Synced}
use network_poller.Loop.External.{TaskQueue}
use network_poller.Loop.Defs.{World}

Status-cases : (s : Status) → (s ≡ new_channel) ⊎ (s ≢ new_channel)
Status-cases new_channel = inl refl
Status-cases added_channel = inr (λ q. cc)
Status-cases delete_channel = inr (λ q. cc)

module _ (e : Epoll) {Task : Type 0} (tq : TaskQueue Task) {R : Type 0} where
  open e use {interest}

  -- The channel at this address has been handed to the poller and not been removed since.
  abbrev pub IsKnown : World e tq R → ℕ → Type 0
  IsKnown w i = (w.heap i).status ≢ new_channel

  -- Each channel knows its own address and its loop, and the poller runs on the loop's thread. Each
  -- known channel agrees with the map and with the kernel, two known channels have two descriptors,
  -- and at the descriptor of none the map and the interest list are empty.
  pub record Registry (w : World e tq R) : Type 0 where
    pub address : (i : ℕ) → (w.heap i).id ≡ i
    pub owner : (i : ℕ) → (w.heap i).event_loop ≡ w.self
    pub thread : w.poller.thread_id ≡ w.thread_id
    pub synced : (i : ℕ) → IsKnown w i → Synced e w.poller (w.heap i)
    pub exclusive : (i j : ℕ) → IsKnown w i → IsKnown w j → (w.heap i).fd ≡ (w.heap j).fd → i ≡ j
    pub vacant :
        (fd : ℕ)
        → ((i : ℕ) → IsKnown w i → (w.heap i).fd ≢ fd)
        → (w.poller.channels fd ≡ none) × (interest w.poller.kernel fd ≡ none)

  -- No other channel that the poller knows has this one's descriptor.
  abbrev pub IsFree : World e tq R → ℕ → Type 0
  IsFree w id = (j : ℕ) → id ≢ j → IsKnown w j → (w.heap j).fd ≢ (w.heap id).fd

  -- A known channel is the only one at its descriptor.
  pub known-IsFree : (w : World e tq R) (id : ℕ) → Registry w → IsKnown w id → IsFree w id
  known-IsFree w id reg known j ne other same = ne (reg.exclusive id j known other (sym same))

  -- The world with a channel replaced, as the calls leave it.
  abbrev pub replaced : World e tq R → ℕ → Poller e → Channel → World e tq R
  replaced w id p c = record w { poller = p; heap = update w.heap id c }

  module _ (w : World e tq R) (reg : Registry w) (id : ℕ) (free : IsFree w id) (p : Poller e)
      (c : Channel) (same_fd : c.fd ≡ (w.heap id).fd) (apart : Apart e w.poller p (w.heap id).fd)
      (synced : Synced e p c) where
    at_self : (replaced w id p c).heap id ≡ c
    at_self = update_self w.heap id c

    at_other : (j : ℕ) → id ≢ j → (replaced w id p c).heap j ≡ w.heap j
    at_other j ne = update_ne w.heap id c j ne

    other-Synced : (j : ℕ) → id ≢ j → IsKnown w j → Synced e p (w.heap j)
    other-Synced j ne known =
        Apart-Synced e w.poller p (w.heap id).fd (w.heap j) apart
          (λ same. free j ne known (sym same)) (reg.synced j known)

    replaced-Synced :
        (i : ℕ) → IsKnown (replaced w id p c) i → Synced e p ((replaced w id p c).heap i)
    replaced-Synced i known = elim (same_or_not id i) [
      | inl here ↦ subst (λ k. Synced e p ((replaced w id p c).heap k)) here (rw at_self synced)
      | inr ne ↦ rw (at_other i ne) (other-Synced i ne (rw (at_other i ne) at known))
    ]

    replaced-exclusive :
        (i j : ℕ)
        → IsKnown (replaced w id p c) i
        → IsKnown (replaced w id p c) j
        → ((replaced w id p c).heap i).fd ≡ ((replaced w id p c).heap j).fd
        → i ≡ j
    replaced-exclusive i j known_i known_j same = elim (same_or_not id i) [
      | inl here_i ↦ elim (same_or_not id j) [
        | inl here_j ↦ sym here_i ∙ here_j
        | inr ne_j ↦ absurd (
            free j ne_j (rw (at_other j ne_j) at known_j) (
              sym (ap (λ d. d.fd) (at_other j ne_j))
              ∙ sym same
              ∙ ap (λ k. ((replaced w id p c).heap k).fd) (sym here_i)
              ∙ ap (λ d. d.fd) at_self
              ∙ same_fd))
      ]
      | inr ne_i ↦ elim (same_or_not id j) [
        | inl here_j ↦ absurd (
            free i ne_i (rw (at_other i ne_i) at known_i) (
              sym (ap (λ d. d.fd) (at_other i ne_i))
              ∙ same
              ∙ ap (λ k. ((replaced w id p c).heap k).fd) (sym here_j)
              ∙ ap (λ d. d.fd) at_self
              ∙ same_fd))
        | inr ne_j ↦
            reg.exclusive i j (rw (at_other i ne_i) at known_i) (rw (at_other j ne_j) at known_j)
              (sym (ap (λ d. d.fd) (at_other i ne_i)) ∙ same ∙ ap (λ d. d.fd) (at_other j ne_j))
      ]
    ]

    new-vacant :
        c.status ≡ new_channel
        → (p.channels (w.heap id).fd ≡ none) × (interest p.kernel (w.heap id).fd ≡ none)
    new-vacant is =
        subst (λ fd. (p.channels fd ≡ none) × (interest p.kernel fd ≡ none)) same_fd
          (subst (λ s. Agrees e s p c.fd c.id c.events) is synced)

    old-vacant :
        (fd : ℕ)
        → ((i : ℕ) → IsKnown (replaced w id p c) i → ((replaced w id p c).heap i).fd ≢ fd)
        → (w.heap id).fd ≢ fd
        → (p.channels fd ≡ none) × (interest p.kernel fd ≡ none)
    old-vacant fd unused ne =
        let (no_entry, unwatched) = reg.vacant fd unused_before in
        (apart.same_map fd ne ∙ no_entry, apart.same_interest fd ne ∙ unwatched)
      where
        unused_before : (i : ℕ) → IsKnown w i → (w.heap i).fd ≢ fd
        unused_before i known same = elim (same_or_not id i) [
          | inl here ↦ ne (ap (λ k. (w.heap k).fd) here ∙ same)
          | inr other ↦
              unused i (rw (at_other i other) known) (ap (λ d. d.fd) (at_other i other) ∙ same)
        ]

    replaced-vacant :
        (fd : ℕ)
        → ((i : ℕ) → IsKnown (replaced w id p c) i → ((replaced w id p c).heap i).fd ≢ fd)
        → (p.channels fd ≡ none) × (interest p.kernel fd ≡ none)
    replaced-vacant fd unused = elim (Status-cases c.status) [
      | inr known ↦
          old-vacant fd unused
            (λ same. unused id (rw at_self known) (ap (λ d. d.fd) at_self ∙ same_fd ∙ same))
      | inl is_new ↦ elim (same_or_not (w.heap id).fd fd) [
        | inl same ↦
            subst (λ k. (p.channels k ≡ none) × (interest p.kernel k ≡ none)) same
              (new-vacant is_new)
        | inr ne ↦ old-vacant fd unused ne
      ]
    ]

  -- Replacing one channel by what a poller's call leaves keeps the registry.
  pub replaced-Registry :
      (w : World e tq R)
      → Registry w
      → (id : ℕ) → IsFree w id
      → (p : Poller e) (c d : Channel) → SameChannel e d c
      → (d.fd ≡ (w.heap id).fd)
      → (d.id ≡ (w.heap id).id)
      → (d.event_loop ≡ (w.heap id).event_loop)
      → Apart e w.poller p (w.heap id).fd
      → Synced e p c
      → Registry (replaced w id p c)
  replaced-Registry w reg id free p c d same fd_eq id_eq loop_eq apart synced = record {
    address =
        update_all (λ i k. k.id ≡ i) w.heap id c (same.same_id ∙ id_eq ∙ reg.address id)
          (λ j ne. reg.address j);
    owner =
        update_all (λ i k. k.event_loop ≡ w.self) w.heap id c
          (same.same_loop ∙ loop_eq ∙ reg.owner id) (λ j ne. reg.owner j);
    thread = apart.same_thread ∙ reg.thread;
    synced = replaced-Synced w reg id free p c (same.same_fd ∙ fd_eq) apart synced;
    exclusive = replaced-exclusive w reg id free p c (same.same_fd ∙ fd_eq) apart synced;
    vacant = replaced-vacant w reg id free p c (same.same_fd ∙ fd_eq) apart synced;
  }

  -- The registry looks neither at the queue nor at the objects that own the channels.
  pub beside-Registry :
      (w : World e tq R) (q : tq.Queue) (r : R)
      → Registry w
      → Registry (record w { queue = q; rest = r })
  beside-Registry w q r reg = record {
    address = reg.address;
    owner = reg.owner;
    thread = reg.thread;
    synced = reg.synced;
    exclusive = reg.exclusive;
    vacant = reg.vacant;
  }
