-- ===== src/Loop/Defs.antt =====
-- class EventLoop of core/net/event/event_loop.cpp, and the calls of event_channel.cpp that reach
-- the loop.
use network_poller.Prelude.{
  ℕ, Bool, true, false, not, ◌||◌, Option, none, some, List, [], ◌∷◌, ◌==◌,
}
use network_poller.Result.{Result, ok, ◌>>=◌, ◌>>◌, assert_that}
use network_poller.Channel.{
  Channel, with_reading, without_reading, with_writing, without_writing, without_all,
}
use network_poller.Poller.Epoll.{Epoll, update}
use network_poller.Poller.{Poller, WaitResult}
use network_poller.Poller
use network_poller.Loop.External.{TaskQueue}

abbrev pub member : ℕ → List ℕ → Bool
member a [] = false
member a (x ∷ xs) = a == x || member a xs

-- The assertion made while a channel's events are handled.
abbrev pub may_remove : Option ℕ → ℕ → List ℕ → Bool
may_remove none id active_list = true
may_remove (some active) id active_list = id == active || not (member id active_list)

abbrev pub with_events : (ℕ → ℕ) → Channel → Channel
with_events assign c = record c { events = assign c.events }

-- A `Functor` is a task of the type `Task`; `exec` in `Loop.Run` runs it.
module _ (e : Epoll) {Task : Type 0} (tq : TaskQueue Task) where
  -- The members of EventLoop, with the channel objects that its pointers reach and, in `rest`, the
  -- state of the objects that own them. `self` is the loop's address; `active_list` and `active` are
  -- `evt_channel_list_` and `evt_channel_active_`.
  pub record World (R : Type 0) : Type 0 where
    pub self : ℕ
    pub thread_id : ℕ
    pub quit : Bool
    pub looping : Bool
    pub poller : Poller e
    pub active_list : List ℕ
    pub active : Option ℕ
    pub queue : tq.Queue
    pub heap : ℕ → Channel
    pub rest : R

  module _ {R : Type 0} where
    unfoldable pub is_in_loop_thread : ℕ → World R → Bool
    is_in_loop_thread this_thread w = this_thread == w.thread_id

    unfoldable pub queue_in_loop : Task → World R → World R
    queue_in_loop task w = record w { queue = tq.enqueue task w.queue }

    -- UpdateEventChannel, with the channel object behind the pointer.
    unfoldable pub update_event_channel : ℕ → ℕ → World R → Result (World R)
    update_event_channel this_thread id w = do
      (p, c) ← Poller.update_event_channel e this_thread w.poller (w.heap id)
      ok (record w { poller = p; heap = update w.heap id c })

    -- RemoveEventChannel.
    unfoldable pub remove_event_channel : ℕ → ℕ → World R → Result (World R)
    remove_event_channel this_thread id w = do
      assert_that ((w.heap id).event_loop == w.self)
      assert_that (this_thread == w.thread_id)
      assert_that (may_remove w.active id w.active_list)
      (p, c) ← Poller.remove_event_channel e this_thread w.poller (w.heap id)
      ok (record w { poller = p; heap = update w.heap id c })

    -- `events_` is assigned, then the loop is told.
    unfoldable pub set_events : (ℕ → ℕ) → ℕ → ℕ → World R → Result (World R)
    unfolding update_event_channel
    set_events assign this_thread id w =
        update_event_channel this_thread id
          (record w { heap = update w.heap id (with_events assign (w.heap id)) })

    unfoldable pub enable_reading : ℕ → ℕ → World R → Result (World R)
    unfolding set_events
    enable_reading = set_events with_reading

    unfoldable pub disable_reading : ℕ → ℕ → World R → Result (World R)
    unfolding set_events
    disable_reading = set_events without_reading

    unfoldable pub enable_writing : ℕ → ℕ → World R → Result (World R)
    unfolding set_events
    enable_writing = set_events with_writing

    unfoldable pub disable_writing : ℕ → ℕ → World R → Result (World R)
    unfolding set_events
    disable_writing = set_events without_writing

    unfoldable pub disable_all : ℕ → ℕ → World R → Result (World R)
    unfolding set_events
    disable_all = set_events without_all

    unfoldable pub remove_from_loop : ℕ → ℕ → World R → Result (World R)
    unfolding remove_event_channel
    remove_from_loop = remove_event_channel
