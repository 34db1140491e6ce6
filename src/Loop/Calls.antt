-- ===== src/Loop/Calls.antt =====
-- EnableReading, DisableReading, EnableWriting, DisableWriting, DisableAll and RemoveFromLoop of
-- event_channel.cpp, through event_loop.cpp down to epoll.
use network_poller.Prelude.{
  ℕ, ◌≡◌, ◌≢◌, refl, sym, ap, ◌∙◌, subst, true, none, inl, inr, arith, ◌==◌, ==_refl, Bool-cases,
}
use network_poller.Result.{ok, fault, assertion}
use network_poller.Channel.{
  Channel, Status, new_channel, added_channel, delete_channel, is_none_event,
}
use network_poller.Poller.Epoll.{Epoll, HasRoom, update_self, update_ne, update-update, same_or_not}
use network_poller.Poller
use network_poller.Poller.{
  Poller, Agrees, Synced, Watched, next_status, Apart, SameChannel, Registered, Removed,
  update_event_channel-Registered, remove_event_channel-Removed,
}
use network_poller.Loop.External.{TaskQueue}
use network_poller.Loop.Defs.{
  World, with_events, may_remove, update_event_channel, set_events, remove_event_channel,
}
use network_poller.Loop.Invariant.{
  Registry, IsKnown, IsFree, known-IsFree, replaced, replaced-Registry,
}

module _ (e : Epoll) (room : HasRoom e) {Task : Type 0} (tq : TaskQueue Task) {R : Type 0} where
  open e use {interest}

  -- What a change of a channel's mask leaves: the same world but for the poller and that channel,
  -- whose mask is the new one and whose status is no longer NEW.
  pub record Changed (assign : ℕ → ℕ) (id : ℕ) (w w' : World e tq R) : Type 0 where
    pub registry : Registry e tq w'
    pub known : IsKnown e tq w' id
    pub mask : (w'.heap id).events ≡ assign (w.heap id).events
    pub fd : (w'.heap id).fd ≡ (w.heap id).fd
    pub watched : Watched e w'.poller (w'.heap id)
    pub status :
        (w'.heap id).status ≡ next_status (w.heap id).status (0 == assign (w.heap id).events)
    pub others : (j : ℕ) → id ≢ j → w'.heap j ≡ w.heap j
    pub frame : w' ≡ record w { poller = w'.poller; heap = w'.heap }

  module _ (assign : ℕ → ℕ) (w : World e tq R) (reg : Registry e tq w) (id : ℕ)
      (free : IsFree e tq w id) where
    assigned : Channel
    assigned = with_events assign (w.heap id)

    -- Before the call the kernel has the mask that the channel had.
    told_before :
        (s : Status)
        → (w.heap id).status ≡ s
        → Agrees e s w.poller (w.heap id).fd (w.heap id).id (w.heap id).events
    told_before new_channel is = reg.vacant (w.heap id).fd unused
      where
        unused : (i : ℕ) → IsKnown e tq w i → (w.heap i).fd ≢ (w.heap id).fd
        unused i known same = elim (same_or_not id i) [
          | inl here ↦ known (ap (λ k. (w.heap k).status) (sym here) ∙ is)
          | inr ne ↦ free i ne known same
        ]
    told_before added_channel is =
        subst (λ s. Agrees e s w.poller (w.heap id).fd (w.heap id).id (w.heap id).events) is
          (reg.synced id (λ q. cc))
    told_before delete_channel is =
        subst (λ s. Agrees e s w.poller (w.heap id).fd (w.heap id).id (w.heap id).events) is
          (reg.synced id (λ q. cc))

    -- On the loop's thread, for a channel whose descriptor no other known channel has, any of the
    -- five calls that set the mask passes all assertions on the way down to epoll, keeps the
    -- registry, gives the channel the new mask and a status other than NEW, has the kernel watch it
    -- with that mask (or not have it at all if the mask is empty), and leaves the other channels and the rest of the world alone.
    pub set_events-Changed :
        (w' : World e tq R) × (set_events e tq assign w.thread_id id w ≡ ok w')
        × Changed assign id w w'
    unfolding set_events update_event_channel assigned
    set_events-Changed =
        let (out, ran, r) =
          update_event_channel-Registered e room w.poller assigned (w.heap id).events
            (told_before (w.heap id).status refl) in
        let ran' : Poller.update_event_channel e w.thread_id w.poller assigned ≡ ok out =
          ap (λ t. Poller.update_event_channel e t w.poller assigned) (sym reg.thread) ∙ ran in
        (
          replaced e tq w id out.0 out.1,
          rw (update_self w.heap id assigned, ran', update-update w.heap id assigned out.1) refl,
          record {
            registry =
                replaced-Registry e tq w reg id free out.0 out.1 assigned r.same refl refl refl
                  r.apart r.synced;
            known = rw (update_self w.heap id out.1) r.present;
            mask = rw (update_self w.heap id out.1) r.same.same_events;
            fd = rw (update_self w.heap id out.1) r.same.same_fd;
            watched = rw (update_self w.heap id out.1) r.watched;
            status = rw (update_self w.heap id out.1) r.status;
            others = λ j ne. update_ne w.heap id out.1 j ne;
            frame = refl;
          },
        )

  -- What a removal leaves: the channel is new again, and the poller no longer knows its descriptor.
  pub record Dropped (id : ℕ) (w w' : World e tq R) : Type 0 where
    pub registry : Registry e tq w'
    pub fd : (w'.heap id).fd ≡ (w.heap id).fd
    pub mask : (w'.heap id).events ≡ (w.heap id).events
    pub forgotten : (w'.heap id).status ≡ new_channel
    pub unwatched : interest w'.poller.kernel (w.heap id).fd ≡ none
    pub unmapped : w'.poller.channels (w.heap id).fd ≡ none
    pub others : (j : ℕ) → id ≢ j → w'.heap j ≡ w.heap j
    pub frame : w' ≡ record w { poller = w'.poller; heap = w'.heap }

  -- On the loop's thread, for a registered channel with an empty mask that the loop may remove now,
  -- RemoveFromLoop passes its assertions; the channel is new again, neither the map nor epoll knows
  -- its descriptor, every other channel stays, and the registry is kept.
  pub remove_event_channel-Dropped :
      (w : World e tq R)
      → Registry e tq w
      → (id : ℕ) → IsKnown e tq w id
      → is_none_event (w.heap id) ≡ true
      → may_remove w.active id w.active_list ≡ true
      → (w' : World e tq R) × (remove_event_channel e tq w.thread_id id w ≡ ok w') × Dropped id w w'
  unfolding remove_event_channel
  remove_event_channel-Dropped w reg id known idle may =
      let (out, ran, r) =
        remove_event_channel-Removed e room w.poller (w.heap id) (w.heap id).events
          (reg.synced id known) known idle in
      let ran' : Poller.remove_event_channel e w.thread_id w.poller (w.heap id) ≡ ok out =
        ap (λ t. Poller.remove_event_channel e t w.poller (w.heap id)) (sym reg.thread) ∙ ran in
      let owns : ((w.heap id).event_loop == w.self) ≡ true = ground (arith, reg.owner id) in
      let gone : Agrees e new_channel out.0 out.1.fd out.1.id out.1.events =
        subst (λ s. Agrees e s out.0 out.1.fd out.1.id out.1.events) r.absent r.synced in
      (
        replaced e tq w id out.0 out.1,
        rw (owns, ==_refl w.thread_id, may, ran') refl,
        record {
          registry =
              replaced-Registry e tq w reg id (known-IsFree e tq w id reg known) out.0 out.1
                (w.heap id) r.same refl refl refl r.apart r.synced;
          fd = rw (update_self w.heap id out.1) r.same.same_fd;
          mask = rw (update_self w.heap id out.1) r.same.same_events;
          forgotten = rw (update_self w.heap id out.1) r.absent;
          unwatched = ap (interest out.0.kernel) (sym r.same.same_fd) ∙ gone.1;
          unmapped = ap out.0.channels (sym r.same.same_fd) ∙ gone.0;
          others = λ j ne. update_ne w.heap id out.1 j ne;
          frame = refl;
        },
      )

  -- RemoveFromLoop stops the process where the poller's RemoveEventChannel does.
  pub remove_event_channel-stops :
      (this_thread id : ℕ) (w : World e tq R)
      → Poller.remove_event_channel e this_thread w.poller (w.heap id) ≡ fault assertion
      → remove_event_channel e tq this_thread id w ≡ fault assertion
  unfolding remove_event_channel
  remove_event_channel-stops this_thread id w stops =
      elim (Bool-cases ((w.heap id).event_loop == w.self)) [
        | inl owned ↦ elim (Bool-cases (this_thread == w.thread_id)) [
          | inl here ↦ elim (Bool-cases (may_remove w.active id w.active_list)) [
            | inl may ↦ rw (owned, here, may, stops) refl
            | inr not_now ↦ rw (owned, here, not_now) refl
          ]
          | inr elsewhere ↦ rw (owned, elsewhere) refl
        ]
        | inr foreign ↦ rw foreign refl
      ]

  -- So it does if the poller does not have the descriptor.
  pub remove_event_channel-unmapped :
      (this_thread id : ℕ) (w : World e tq R)
      → w.poller.channels (w.heap id).fd ≡ none
      → remove_event_channel e tq this_thread id w ≡ fault assertion
  unfolding Poller.remove_event_channel
  remove_event_channel-unmapped this_thread id w absent =
      remove_event_channel-stops this_thread id w
        (elim (Bool-cases (this_thread == w.poller.thread_id)) [
          | inl here ↦ rw (here, absent) refl
          | inr elsewhere ↦ rw elsewhere refl
        ])
