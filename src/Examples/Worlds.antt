-- ===== src/Examples/Worlds.antt =====
-- Two concrete loops: one that knows no channel, and one that watches a channel for reading.
use network_poller.Prelude.{ℕ, ◌≡◌, ◌≢◌, refl, sym, ◌∙◌, true, false, none, some, []}
use network_poller.Channel.{Channel, new_channel, added_channel}
use network_poller.Channel.Flags.{Interest, encode}
use network_poller.Poller.{Poller, Synced}
use network_poller.Poller.Epoll.{update, update_ne, update_all}
use network_poller.Loop.{World, Registry, IsKnown, IsFree}
use network_poller.Examples.Kernel.{table_epoll, list_queue}

-- The channel at an address, before any call.
abbrev pub fresh : ℕ → Channel
fresh i = record {
  id = i;
  fd = 5;
  events = 0;
  received_events = 0;
  status = new_channel;
  event_loop = 100;
}

abbrev pub reading_only : Interest
reading_only = record { reading = true; writing = false }

-- The channel at address 7, registered with a mask.
abbrev pub registered : Interest → Channel
registered i = record (fresh 7) { events = encode i; status = added_channel }

abbrev pub empty_poller : Poller table_epoll
empty_poller = record { thread_id = 1; channels = λ _. none; kernel = λ _. none; capacity = 16 }

abbrev pub watching_poller : Interest → Poller table_epoll
watching_poller i = record empty_poller {
  channels = update (λ _. none) 5 (some 7);
  kernel = update (λ _. none) 5 (some (encode i, 7));
}

module _ (T : Type 0) {R : Type 0} (r : R) where
  abbrev pub idle_world : World table_epoll (list_queue T) R
  idle_world = record {
    self = 100;
    thread_id = 1;
    quit = false;
    looping = false;
    poller = empty_poller;
    active_list = [];
    active = none;
    queue = [];
    heap = fresh;
    rest = r;
  }

  pub idle-Registry : Registry table_epoll (list_queue T) idle_world
  idle-Registry = record {
    address = λ i. refl;
    owner = λ i. refl;
    thread = refl;
    synced = λ i known. absurd (known refl);
    exclusive = λ i j known other same. absurd (known refl);
    vacant = λ fd unused. (refl, refl);
  }

  pub idle-IsFree : (id : ℕ) → IsFree table_epoll (list_queue T) idle_world id
  idle-IsFree id j ne known same = known refl

  abbrev pub watching_world : Interest → World table_epoll (list_queue T) R
  watching_world i = record idle_world {
    poller = watching_poller i;
    heap = update fresh 7 (registered i);
  }

  known_is_seven :
      (i : Interest) (j : ℕ) → IsKnown table_epoll (list_queue T) (watching_world i) j → 7 ≡ j
  known_is_seven i =
      update_all (λ j (c : Channel). c.status ≢ new_channel → 7 ≡ j) fresh 7 (registered i)
        (λ known. refl) (λ j ne known. absurd (known refl))

  pub seven-IsKnown : (i : Interest) → IsKnown table_epoll (list_queue T) (watching_world i) 7
  seven-IsKnown i q = cc

  pub watching-Registry : (i : Interest) → Registry table_epoll (list_queue T) (watching_world i)
  watching-Registry i = record {
    address = update_all (λ j (c : Channel). c.id ≡ j) fresh 7 (registered i) refl (λ j ne. refl);
    owner =
        update_all (λ j (c : Channel). c.event_loop ≡ 100) fresh 7 (registered i) refl
          (λ j ne. refl);
    thread = refl;
    synced =
        update_all
          (λ j (c : Channel). c.status ≢ new_channel → Synced table_epoll (watching_poller i) c)
          fresh 7 (registered i) (λ known. (refl, refl)) (λ j ne known. absurd (known refl));
    exclusive = λ j k known other same. sym (known_is_seven i j known) ∙ known_is_seven i k other;
    vacant = λ fd unused. (
      update_ne (λ _. none) 5 (some 7) fd (unused 7 (seven-IsKnown i)),
      update_ne (λ _. none) 5 (some (encode i, 7)) fd (unused 7 (seven-IsKnown i)),
    );
  }
