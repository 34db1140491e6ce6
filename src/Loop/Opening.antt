-- ===== src/Loop/Opening.antt =====
-- The constructor and the destructor of EventLoop in event_loop.cpp.
use network_poller.Prelude.{ℕ, ◌≡◌, refl, ap, true, false, Option, none, some, ==_refl, []}
use network_poller.Result.{ok, fault, assertion}
use network_poller.Channel.{Channel, new_channel, new_event_channel}
use network_poller.Channel.Flags.{Interest}
use network_poller.Poller.Epoll.{Epoll, HasRoom, update, update_self, update_all}
use network_poller.Poller
use network_poller.Loop.External.{TaskQueue}
use network_poller.Loop.Defs.{World, may_remove}
use network_poller.Loop.Invariant.{Registry, IsKnown}
use network_poller.Loop.Detach.{detach-Detached}
use network_poller.Loop.History.{apply, perform, enables_reading, Follows, perform-Follows}
use network_poller.Loop.Run.{new_event_loop, close_event_loop}

-- Channel objects of this loop that no call has registered yet.
pub record Unused (self : ℕ) (heap : ℕ → Channel) : Type 0 where
  pub address : (i : ℕ) → (heap i).id ≡ i
  pub owner : (i : ℕ) → (heap i).event_loop ≡ self
  pub new_yet : (i : ℕ) → (heap i).status ≡ new_channel

abbrev pub reading_wakeups : Interest
reading_wakeups = record { reading = true; writing = false }

module _ (e : Epoll) (room : HasRoom e) {Task : Type 0} (tq : TaskQueue Task) {R : Type 0} where
  open e use {Kernel, interest}

  module _ (this_thread self wakeup_channel wakeup_fd garbage : ℕ) (active : Option ℕ)
      (created : Kernel) (queue : tq.Queue) (heap : ℕ → Channel) (r : R) where
    -- The world before the wake-up channel is registered.
    abbrev before : World e tq R
    before = record {
      self = self;
      thread_id = this_thread;
      quit = false;
      looping = false;
      poller = record {
        thread_id = this_thread;
        channels = λ _. none;
        kernel = created;
        capacity = 16;
      };
      active_list = [];
      active = active;
      queue = queue;
      heap = update heap wakeup_channel (new_event_channel wakeup_channel self wakeup_fd garbage);
      rest = r;
    }

    module _ (unused : Unused self heap) (empty : (fd : ℕ) → interest created fd ≡ none) where
      none_known : (i : ℕ) → (before.heap i).status ≡ new_channel
      unfolding new_event_channel
      none_known =
          update_all (λ _ (c : Channel). c.status ≡ new_channel) heap wakeup_channel
            (new_event_channel wakeup_channel self wakeup_fd garbage) refl (λ j _. unused.new_yet j)

      before-Registry : Registry e tq before
      unfolding new_event_channel
      before-Registry = record {
        address =
            update_all (λ i (c : Channel). c.id ≡ i) heap wakeup_channel
              (new_event_channel wakeup_channel self wakeup_fd garbage) refl
              (λ j _. unused.address j);
        owner =
            update_all (λ _ (c : Channel). c.event_loop ≡ self) heap wakeup_channel
              (new_event_channel wakeup_channel self wakeup_fd garbage) refl
              (λ j _. unused.owner j);
        thread = refl;
        synced = λ i known. absurd (known (none_known i));
        exclusive = λ i j known _ _. absurd (known (none_known i));
        vacant = λ fd _. (refl, empty fd);
      }

      -- On a thread that has no loop yet, with a fresh epoll instance and channel objects that are not
      -- registered, the constructor passes its assertions: every channel agrees with the poller's map
      -- and with epoll, and the kernel watches the wake-up descriptor for reading. A second loop on
      -- the same thread stops at an assertion.
      pub new_event_loop-Follows :
          (other : ℕ)
          → (w : World e tq R) × (new_event_loop e tq this_thread none self created queue heap
                wakeup_channel wakeup_fd garbage active r
              ≡ ok w)
            × Follows e tq room wakeup_channel w reading_wakeups
            × (new_event_loop e tq this_thread
                  (some other)
                  self
                  created
                  queue
                  heap
                  wakeup_channel
                  wakeup_fd
                  garbage
                  active
                  r
                ≡ fault assertion)
      unfolding new_event_loop new_event_channel perform apply Poller.new_poller
      new_event_loop-Follows other =
          let (w, ran, follows, _) =
            perform-Follows e tq room wakeup_channel enables_reading before
              (record { reading = false; writing = false }) before-Registry
              (λ j _ known _. known (none_known j))
              (ap (λ (c : Channel). c.events)
                (update_self heap wakeup_channel
                  (new_event_channel wakeup_channel self wakeup_fd garbage))) in
          (w, rw (==_refl this_thread) ran, follows, rw (==_refl this_thread) refl)

  -- On the loop's thread, while no channel's events are being handled, the destructor takes the
  -- wake-up channel out of the poller's map and of epoll, whatever its mask was, and the registry of
  -- the other channels is kept.
  pub close_event_loop-forgets :
      (w : World e tq R) (id : ℕ)
      → Registry e tq w
      → IsKnown e tq w id
      → w.active ≡ none
      → (w' : World e tq R) × (close_event_loop e tq w.thread_id id w ≡ ok w')
        × Registry e tq w'
        × ((w'.heap id).status ≡ new_channel)
        × (w'.poller.channels (w.heap id).fd ≡ none)
        × (interest w'.poller.kernel (w.heap id).fd ≡ none)
  unfolding close_event_loop
  close_event_loop-forgets w id reg known calm =
      let (w1, w2, ran1, ran2, d) =
        detach-Detached e room tq w id reg known (ap (λ a. may_remove a id w.active_list) calm) in
      (w2, rw ran1 ran2, d.registry, d.forgotten, d.unmapped, d.unwatched)
