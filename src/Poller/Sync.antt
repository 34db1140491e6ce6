-- ===== src/Poller/Sync.antt =====
-- The poller's map, the channels' statuses and the kernel's interest list agree.
use network_poller.Prelude.{
  ℕ, Bool, if◌then◌else◌, false, ap, ◌≡◌, ◌≢◌, ◌⊎◌, refl, sym, ◌∙◌, subst, true, none, some, inl,
  inr, ==_refl, Bool-cases,
}
use network_poller.Result.{ok}
use network_poller.Channel.{
  Channel, Status, new_channel, added_channel, delete_channel, is_none_event, set_status_in_poller,
}
use network_poller.Poller.Epoll.{
  Epoll, HasRoom, ctl_add, ctl_mod, ctl_del, update, update_self, update_ne,
}
use network_poller.Poller.Defs.{
  Poller, enter, update_epoll_ctrl, update_new, update_added, update_deleted, update_by_status,
  update_event_channel,
}

-- The status that an update leaves, by the one before it and whether the mask is empty.
abbrev pub next_status : Status → Bool → Status
next_status added_channel idle = if idle then delete_channel else added_channel
next_status _ idle = added_channel

module _ (e : Epoll) where
  open e use {Kernel, interest, ctl}

  -- The map and the interest list at a descriptor, as they must be in each status. The mask in the
  -- kernel is `mask`.
  abbrev pub Agrees : Status → Poller e → ℕ → ℕ → ℕ → Type 0
  Agrees new_channel p fd id mask = (p.channels fd ≡ none) × (interest p.kernel fd ≡ none)
  Agrees added_channel p fd id mask =
      (p.channels fd ≡ some id) × (interest p.kernel fd ≡ some (mask, id))
  Agrees delete_channel p fd id mask = (p.channels fd ≡ some id) × (interest p.kernel fd ≡ none)

  -- The kernel watches an added channel with the channel's own mask, and no other channel.
  abbrev pub Synced : Poller e → Channel → Type 0
  Synced p c = Agrees c.status p c.fd c.id c.events

  -- The same with the mask that the kernel was last told.
  abbrev pub SyncedBefore : ℕ → Poller e → Channel → Type 0
  SyncedBefore mask p c = Agrees c.status p c.fd c.id mask

  -- Nothing changes at other descriptors.
  pub record Apart (p p' : Poller e) (fd : ℕ) : Type 0 where
    pub same_map : (j : ℕ) → fd ≢ j → p'.channels j ≡ p.channels j
    pub same_interest : (j : ℕ) → fd ≢ j → interest p'.kernel j ≡ interest p.kernel j
    pub same_thread : p'.thread_id ≡ p.thread_id

  -- The channel after a call: its mask, descriptor and address stay.
  pub record SameChannel (c c' : Channel) : Type 0 where
    pub same_id : c'.id ≡ c.id
    pub same_fd : c'.fd ≡ c.fd
    pub same_events : c'.events ≡ c.events
    pub same_received : c'.received_events ≡ c.received_events
    pub same_loop : c'.event_loop ≡ c.event_loop

  -- The kernel reports to the channel what its mask asks for; with an empty mask it may also not
  -- have the descriptor at all.
  abbrev pub Watched : Poller e → Channel → Type 0
  Watched p c =
      (interest p.kernel c.fd ≡ some (c.events, c.id))
      ⊎ ((interest p.kernel c.fd ≡ none) × (is_none_event c ≡ true))

  -- What an update of a channel leaves.
  pub record Registered (p : Poller e) (c : Channel) (out : Poller e × Channel) : Type 0 where
    pub synced : Synced out.0 out.1
    pub same : SameChannel c out.1
    pub apart : Apart p out.0 c.fd
    pub present : out.1.status ≢ new_channel
    pub watched : Watched out.0 out.1
    pub status : out.1.status ≡ next_status c.status (is_none_event c)

  module _ (room : HasRoom e) where
    add_lem :
        (p : Poller e) (c : Channel)
        → interest p.kernel c.fd ≡ none
        → (j : ℕ)
        → interest (update_epoll_ctrl e p ctl_add c).kernel j
          ≡ update (interest p.kernel) c.fd (some (c.events, c.id)) j
    unfolding update_epoll_ctrl
    add_lem p c h =
        e.ctl_added c.fd c.events c.id p.kernel (room.adds c.fd c.events c.id p.kernel h)

    mod_lem :
        (p : Poller e) (c : Channel) (x : ℕ × ℕ)
        → interest p.kernel c.fd ≡ some x
        → (j : ℕ)
        → interest (update_epoll_ctrl e p ctl_mod c).kernel j
          ≡ update (interest p.kernel) c.fd (some (c.events, c.id)) j
    unfolding update_epoll_ctrl
    mod_lem p c x h =
        e.ctl_modified c.fd c.events c.id p.kernel (room.modifies c.fd c.events c.id p.kernel x h)

    pub del_lem :
        (p : Poller e) (c : Channel) (x : ℕ × ℕ)
        → interest p.kernel c.fd ≡ some x
        → (j : ℕ)
        → interest (update_epoll_ctrl e p ctl_del c).kernel j
          ≡ update (interest p.kernel) c.fd none j
    unfolding update_epoll_ctrl
    del_lem p c x h =
        e.ctl_deleted c.fd c.events c.id p.kernel (room.deletes c.fd c.events c.id p.kernel x h)

    -- Entering a channel in the map and in epoll, which a new and a deleted channel share.
    enter-Registered :
        (p : Poller e) (c : Channel)
        → interest p.kernel c.fd ≡ none
        → added_channel ≡ next_status c.status (is_none_event c)
        → Registered p c (
          update_epoll_ctrl e (enter e p c) ctl_add (set_status_in_poller c added_channel),
          set_status_in_poller c added_channel,
        )
    unfolding set_status_in_poller update_epoll_ctrl
    enter-Registered p c unwatched next = record {
      synced = (
        update_self p.channels c.fd (some c.id),
        told c.fd ∙ update_self (interest p.kernel) c.fd (some (c.events, c.id)),
      );
      same = record {
        same_id = refl;
        same_fd = refl;
        same_events = refl;
        same_received = refl;
        same_loop = refl;
      };
      apart = record {
        same_map = λ j ne. update_ne p.channels c.fd (some c.id) j ne;
        same_interest =
            λ j ne. told j ∙ update_ne (interest p.kernel) c.fd (some (c.events, c.id)) j ne;
        same_thread = refl;
      };
      present = λ q. cc;
      watched = inl (told c.fd ∙ update_self (interest p.kernel) c.fd (some (c.events, c.id)));
      status = next;
    }
      where
        told :
            (j : ℕ)
            → interest (update_epoll_ctrl e (enter e p c) ctl_add c).kernel j
              ≡ update (interest p.kernel) c.fd (some (c.events, c.id)) j
        told = add_lem (enter e p c) c unwatched

    update_added-Registered :
        (p : Poller e) (c : Channel) (mask : ℕ)
        → c.status ≡ added_channel
        → p.channels c.fd ≡ some c.id
        → interest p.kernel c.fd ≡ some (mask, c.id)
        → (out : Poller e × Channel) × (update_added e p c ≡ ok out) × Registered p c out
    unfolding update_added set_status_in_poller update_epoll_ctrl
    update_added-Registered p c mask status entered watched = elim (Bool-cases (is_none_event c)) [
      | inl idle ↦ (
        (update_epoll_ctrl e p ctl_del c, set_status_in_poller c delete_channel),
        rw (entered, ==_refl c.id, idle) refl,
        deleted idle,
      )
      | inr wanted ↦ (
        (update_epoll_ctrl e p ctl_mod c, c),
        rw (entered, ==_refl c.id, wanted) refl,
        modified wanted,
      )
    ]
      where
        untold :
            (j : ℕ)
            → interest (update_epoll_ctrl e p ctl_del c).kernel j
              ≡ update (interest p.kernel) c.fd none j
        untold = del_lem p c (mask, c.id) watched

        told :
            (j : ℕ)
            → interest (update_epoll_ctrl e p ctl_mod c).kernel j
              ≡ update (interest p.kernel) c.fd (some (c.events, c.id)) j
        told = mod_lem p c (mask, c.id) watched

        deleted :
            is_none_event c ≡ true
            → Registered p c
                (update_epoll_ctrl e p ctl_del c, set_status_in_poller c delete_channel)
        deleted idle = record {
          synced = (entered, untold c.fd ∙ update_self (interest p.kernel) c.fd none);
          same = record {
            same_id = refl;
            same_fd = refl;
            same_events = refl;
            same_received = refl;
            same_loop = refl;
          };
          apart = record {
            same_map = λ j ne. refl;
            same_interest = λ j ne. untold j ∙ update_ne (interest p.kernel) c.fd none j ne;
            same_thread = refl;
          };
          present = λ q. cc;
          watched = inr (untold c.fd ∙ update_self (interest p.kernel) c.fd none, idle);
          status = rw (status, idle) refl;
        }

        next : is_none_event c ≡ false → c.status ≡ next_status c.status (is_none_event c)
        next wanted =
            status
            ∙ sym (
                ap (λ s. next_status s (is_none_event c)) status
                ∙ ap (next_status added_channel) wanted)

        modified : is_none_event c ≡ false → Registered p c (update_epoll_ctrl e p ctl_mod c, c)
        modified wanted = record {
          synced =
              subst (λ s. Agrees s (update_epoll_ctrl e p ctl_mod c) c.fd c.id c.events)
                (sym status)
                (entered, told c.fd ∙ update_self (interest p.kernel) c.fd (some (c.events, c.id)));
          same = record {
            same_id = refl;
            same_fd = refl;
            same_events = refl;
            same_received = refl;
            same_loop = refl;
          };
          apart = record {
            same_map = λ j ne. refl;
            same_interest =
                λ j ne. told j ∙ update_ne (interest p.kernel) c.fd (some (c.events, c.id)) j ne;
            same_thread = refl;
          };
          present = λ q. cc;
          watched = inl (told c.fd ∙ update_self (interest p.kernel) c.fd (some (c.events, c.id)));
          status = next wanted;
        }

    update_by_status-Registered :
        (s : Status) (p : Poller e) (c : Channel) (mask : ℕ)
        → c.status ≡ s
        → Agrees s p c.fd c.id mask
        → (out : Poller e × Channel) × (update_by_status e s p c ≡ ok out) × Registered p c out
    unfolding update_by_status update_new update_deleted
    update_by_status-Registered new_channel p c mask is (absent, unwatched) =
        (_, rw absent refl, enter-Registered p c unwatched (rw is refl))
    update_by_status-Registered added_channel p c mask is (entered, watched) =
        update_added-Registered p c mask is entered watched
    update_by_status-Registered delete_channel p c mask is (entered, unwatched) =
        (_, rw entered refl, enter-Registered p c unwatched (rw is refl))

    -- On the loop's thread, for a channel whose status, map entry and epoll entry agree, whatever
    -- mask the kernel was last told, UpdateEventChannel passes all its assertions. Afterwards the
    -- kernel watches the channel with its present mask exactly if its status is ADDED, the map
    -- holds it, its mask is kept, and nothing changes at any other descriptor.
    pub update_event_channel-Registered :
        (p : Poller e) (c : Channel) (mask : ℕ)
        → SyncedBefore mask p c
        → (out : Poller e × Channel) × (update_event_channel e p.thread_id p c ≡ ok out)
          × Registered p c out
    unfolding update_event_channel
    update_event_channel-Registered p c mask synced =
        let (out, ran, registered) = update_by_status-Registered c.status p c mask refl synced in
        (out, rw (==_refl p.thread_id) ran, registered)
