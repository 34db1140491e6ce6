-- ===== src/Poller/Defs.antt =====
-- class Poller of core/net/poller/poller.cpp and class EpollPoller of
-- core/net/poller_impl/epoll_poller.cpp.
use network_poller.Prelude.{
  ℕ, ◌*◌, Bool, true, false, ◌||◌, Option, none, some, List, [], ◌∷◌, ◌++◌, ◌==◌, if◌then◌else◌,
  length,
}
use network_poller.Result.{Result, ok, ◌>>◌, assert_that}
use network_poller.Channel.{
  Channel, Status, new_channel, added_channel, delete_channel, is_none_event, set_received_event,
  set_status_in_poller,
}
use network_poller.Poller.Epoll.{Epoll, Ctl, ctl_add, ctl_mod, ctl_del, update}

abbrev pub is_some {ℓ} : {A : Type ℓ} → Option A → Bool
is_some none = false
is_some (some a) = true

abbrev pub is_none {ℓ} : {A : Type ℓ} → Option A → Bool
is_none none = true
is_none (some a) = false

-- `evt_channel_list_[fd] == evt_channel`; a missing entry reads as the null pointer.
abbrev pub points_to : Option ℕ → ℕ → Bool
points_to none id = false
points_to (some p) id = p == id

abbrev pub is_added : Status → Bool
is_added new_channel = false
is_added added_channel = true
is_added delete_channel = false

abbrev pub is_deleted : Status → Bool
is_deleted new_channel = false
is_deleted added_channel = false
is_deleted delete_channel = true

-- What `epoll_wait` hands back: events with their `data.ptr`, or `errno`.
pub data WaitResult : Type 0 where
  happened : List (ℕ × ℕ) → WaitResult
  wait_failed : ℕ → WaitResult

module _ (e : Epoll) where
  open e use {Kernel, ctl}

  -- `channels` is the map from descriptors to channel addresses, `capacity` the size of
  -- `events_ready`.
  pub record Poller : Type 0 where
    pub thread_id : ℕ
    pub channels : ℕ → Option ℕ
    pub kernel : Kernel
    pub capacity : ℕ

  -- Poll, UpdateEventChannel and RemoveEventChannel of the base class, which only test the thread.
  abbrev pub assert_owner : ℕ → Poller → Result (Unit {0})
  assert_owner this_thread p = assert_that (this_thread == p.thread_id)

  -- The constructors: the loop's thread must be the one that runs.
  unfoldable pub new_poller : ℕ → ℕ → Kernel → Result Poller
  new_poller this_thread owner created = do
    assert_that (this_thread == owner)
    ok (record { thread_id = owner; channels = λ _. none; kernel = created; capacity = 16 })

  -- The result of `epoll_ctl` is not looked at.
  unfoldable pub update_epoll_ctrl : Poller → Ctl → Channel → Poller
  update_epoll_ctrl p op c = record p { kernel = (ctl op c.fd c.events c.id p.kernel).1 }

  abbrev pub enter : Poller → Channel → Poller
  enter p c = record p { channels = update p.channels c.fd (some c.id) }

  unfoldable pub update_new : Poller → Channel → Result (Poller × Channel)
  update_new p c = do
    assert_that (is_none (p.channels c.fd))
    let c' = set_status_in_poller c added_channel
    ok (update_epoll_ctrl (enter p c) ctl_add c', c')

  unfoldable pub update_added : Poller → Channel → Result (Poller × Channel)
  update_added p c = do
    assert_that (is_some (p.channels c.fd))
    assert_that (points_to (p.channels c.fd) c.id)
    (if is_none_event c
        then ok (update_epoll_ctrl p ctl_del c, set_status_in_poller c delete_channel)
        else ok (update_epoll_ctrl p ctl_mod c, c))

  unfoldable pub update_deleted : Poller → Channel → Result (Poller × Channel)
  update_deleted p c = do
    assert_that (is_some (p.channels c.fd))
    let c' = set_status_in_poller c added_channel
    ok (update_epoll_ctrl (enter p c) ctl_add c', c')

  unfoldable pub update_by_status : Status → Poller → Channel → Result (Poller × Channel)
  unfolding update_new update_added update_deleted
  update_by_status new_channel p c = update_new p c
  update_by_status added_channel p c = update_added p c
  update_by_status delete_channel p c = update_deleted p c

  -- UpdateEventChannel.
  unfoldable pub update_event_channel : ℕ → Poller → Channel → Result (Poller × Channel)
  unfolding update_by_status
  update_event_channel this_thread p c = do
    assert_owner this_thread p
    update_by_status c.status p c

  -- RemoveEventChannel.
  unfoldable pub remove_event_channel : ℕ → Poller → Channel → Result (Poller × Channel)
  remove_event_channel this_thread p c = do
    assert_owner this_thread p
    assert_that (points_to (p.channels c.fd) c.id)
    assert_that (is_none_event c)
    assert_that (is_added c.status || is_deleted c.status)
    let erased = record p { channels = update p.channels c.fd none }
    let p' = if is_added c.status then update_epoll_ctrl erased ctl_del c else erased
    ok (p', set_status_in_poller c new_channel)

  -- The loop over the events: each is stored in its channel, which goes to the end of the active list.
  unfoldable pub collect : List (ℕ × ℕ) → (ℕ → Channel) → List ℕ → (ℕ → Channel) × List ℕ
  collect [] heap active = (heap, active)
  collect ((events, ptr) ∷ rest) heap active =
      collect rest (update heap ptr (set_received_event (heap ptr) events)) (active ++ ptr ∷ [])

  -- Poll, with what `epoll_wait` returned. The channels are found by their addresses.
  unfoldable pub poll :
      ℕ → WaitResult → Poller → (ℕ → Channel) → List ℕ → Result (Poller × (ℕ → Channel) × List ℕ)
  unfolding collect
  poll this_thread (happened []) p heap active = do assert_owner this_thread p; ok (p, heap, active)
  poll this_thread (happened (event ∷ rest)) p heap active = do
    assert_owner this_thread p
    let events = event ∷ rest
    let (heap', active') = collect events heap active
    ok (
      (if length events == p.capacity then record p { capacity = p.capacity * 2 } else p),
      heap',
      active',
    )
  poll this_thread (wait_failed errno) p heap active = do
    assert_owner this_thread p
    ok (p, heap, active)
