-- ===== src/Poller/Remove.antt =====
-- `EpollPoller::RemoveEventChannel`, what a refused epoll_ctl leaves, and the channels that a call
-- does not name.
use network_poller.Prelude.{
  ℕ, ◌≡◌, ◌≢◌, refl, ◌∙◌, true, false, ◌||◌, none, some, arith, ==_refl, if◌then◌else◌,
}
use network_poller.Result.{ok, fault, assertion}
use network_poller.Channel.{
  Channel, Status, new_channel, added_channel, delete_channel, is_none_event, set_status_in_poller,
}
use network_poller.Poller.Epoll.{Epoll, HasRoom, ctl_del, update, update_self, update_ne}
use network_poller.Poller.Defs.{
  Poller, is_added, is_deleted, update_epoll_ctrl, remove_event_channel,
}
use network_poller.Poller.Sync.{Agrees, Synced, SyncedBefore, Apart, SameChannel, del_lem}

module _ (e : Epoll) where
  open e use {Kernel, interest, ctl}

  -- What a removal leaves: the channel is new again, and neither the map nor the kernel knows it.
  pub record Removed (p : Poller e) (c : Channel) (out : Poller e × Channel) : Type 0 where
    pub synced : Synced e out.0 out.1
    pub same : SameChannel e c out.1
    pub apart : Apart e p out.0 c.fd
    pub absent : out.1.status ≡ new_channel

  -- A call on one channel leaves every channel with another descriptor in agreement.
  pub Apart-Synced :
      (p p' : Poller e) (fd : ℕ) (d : Channel)
      → Apart e p p' fd
      → fd ≢ d.fd
      → Synced e p d
      → Synced e p' d
  Apart-Synced p p' fd d apart ne = by_status d.status
    where
      by_status : (s : Status) → Agrees e s p d.fd d.id d.events → Agrees e s p' d.fd d.id d.events
      by_status new_channel (m, k) = (apart.same_map d.fd ne ∙ m, apart.same_interest d.fd ne ∙ k)
      by_status added_channel (m, k) = (apart.same_map d.fd ne ∙ m, apart.same_interest d.fd ne ∙ k)
      by_status delete_channel (m, k) =
          (apart.same_map d.fd ne ∙ m, apart.same_interest d.fd ne ∙ k)

  module _ (room : HasRoom e) where
    abbrev erased : Poller e → Channel → Poller e
    erased p c = record p { channels = update p.channels c.fd none }

    -- The two statuses that the assertion admits.
    remove_by_status :
        (s : Status) (p : Poller e) (c : Channel) (mask : ℕ)
        → s ≢ new_channel
        → Agrees e s p c.fd c.id mask
        → (is_added s || is_deleted s ≡ true)
          × (p.channels c.fd ≡ some c.id)
          × Removed p c (
            (if is_added s then update_epoll_ctrl e (erased p c) ctl_del c else erased p c),
            set_status_in_poller c new_channel,
          )
    unfolding update_epoll_ctrl set_status_in_poller
    remove_by_status new_channel p c mask old agrees = absurd (old refl)
    remove_by_status added_channel p c mask old (entered, watched) = (
      refl,
      entered,
      record {
        synced = (
          update_self p.channels c.fd none,
          untold c.fd ∙ update_self (interest p.kernel) c.fd none,
        );
        same = record {
          same_id = refl;
          same_fd = refl;
          same_events = refl;
          same_received = refl;
          same_loop = refl;
        };
        apart = record {
          same_map = λ j ne. update_ne p.channels c.fd none j ne;
          same_interest = λ j ne. untold j ∙ update_ne (interest p.kernel) c.fd none j ne;
          same_thread = refl;
        };
        absent = refl;
      },
    )
      where
        untold :
            (j : ℕ)
            → interest (update_epoll_ctrl e (erased p c) ctl_del c).kernel j
              ≡ update (interest p.kernel) c.fd none j
        untold = del_lem e room (erased p c) c (mask, c.id) watched
    remove_by_status delete_channel p c mask old (entered, unwatched) = (
      refl,
      entered,
      record {
        synced = (update_self p.channels c.fd none, unwatched);
        same = record {
          same_id = refl;
          same_fd = refl;
          same_events = refl;
          same_received = refl;
          same_loop = refl;
        };
        apart = record {
          same_map = λ j ne. update_ne p.channels c.fd none j ne;
          same_interest = λ j ne. refl;
          same_thread = refl;
        };
        absent = refl;
      },
    )

    -- On the loop's thread, a channel that agrees with the poller, was registered and has an empty
    -- mask is removed without a failed assertion: it is new again, gone from the map and from epoll,
    -- and nothing changes at any other descriptor.
    pub remove_event_channel-Removed :
        (p : Poller e) (c : Channel) (mask : ℕ)
        → SyncedBefore e mask p c
        → c.status ≢ new_channel
        → is_none_event c ≡ true
        → (out : Poller e × Channel) × (remove_event_channel e p.thread_id p c ≡ ok out)
          × Removed p c out
    unfolding remove_event_channel
    remove_event_channel-Removed p c mask synced old idle =
        let (admitted, entered, removed) = remove_by_status c.status p c mask old synced in
        (_, rw (==_refl p.thread_id, entered, ==_refl c.id, idle, admitted) refl, removed)

  -- RemoveEventChannel stops the process if the mask is not empty, whatever else holds.
  pub remove_event_channel-busy :
      (this_thread : ℕ) (p : Poller e) (c : Channel)
      → is_none_event c ≡ false
      → remove_event_channel e this_thread p c ≡ fault assertion
  unfolding remove_event_channel
  remove_event_channel-busy this_thread p c busy = ground arith
