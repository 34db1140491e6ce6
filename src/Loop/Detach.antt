-- ===== src/Loop/Detach.antt =====
-- DisableAll and then RemoveFromLoop of event_channel.cpp, as the destructors and RemoveChannel call
-- them.
use network_poller.Prelude.{ℕ, ◌≡◌, ◌≢◌, refl, sym, ap, ◌∙◌, true, none}
use network_poller.Result.{ok}
use network_poller.Channel.{new_channel, is_none_event, without_all}
use network_poller.Poller.Epoll.{Epoll, HasRoom}
use network_poller.Loop.External.{TaskQueue}
use network_poller.Loop.Defs.{
  World, may_remove, disable_all, remove_from_loop, remove_event_channel,
}
use network_poller.Loop.Invariant.{Registry, IsKnown, known-IsFree}
use network_poller.Loop.Calls.{set_events-Changed, remove_event_channel-Dropped}

module _ (e : Epoll) (room : HasRoom e) {Task : Type 0} (tq : TaskQueue Task) {R : Type 0} where
  open e use {interest}

  -- What the two calls leave.
  pub record Detached (id : ℕ) (w w' : World e tq R) : Type 0 where
    pub registry : Registry e tq w'
    pub fd : (w'.heap id).fd ≡ (w.heap id).fd
    pub forgotten : (w'.heap id).status ≡ new_channel
    pub unmapped : w'.poller.channels (w.heap id).fd ≡ none
    pub unwatched : interest w'.poller.kernel (w.heap id).fd ≡ none
    pub others : (j : ℕ) → id ≢ j → w'.heap j ≡ w.heap j
    pub frame : w' ≡ record w { poller = w'.poller; heap = w'.heap }

  -- On the loop's thread, for a registered channel with any mask that the loop may remove now, both
  -- calls pass their assertions.
  pub detach-Detached :
      (w : World e tq R) (id : ℕ)
      → Registry e tq w
      → IsKnown e tq w id
      → may_remove w.active id w.active_list ≡ true
      → (w1 w2 : World e tq R) × (disable_all e tq w.thread_id id w ≡ ok w1)
        × (remove_from_loop e tq w.thread_id id w1 ≡ ok w2)
        × Detached id w w2
  unfolding disable_all remove_from_loop
  detach-Detached w id reg known may =
      let (w1, ran1, c) =
        set_events-Changed e room tq without_all w reg id (known-IsFree e tq w id reg known) in
      let idle : is_none_event (w1.heap id) ≡ true = rw c.mask refl in
      let may1 : may_remove w1.active id w1.active_list ≡ true =
        ap (λ v. may_remove v.active id v.active_list) c.frame ∙ may in
      let (w2, ran2, d) =
        remove_event_channel-Dropped e room tq w1 c.registry id c.known idle may1 in
      let thread : w.thread_id ≡ w1.thread_id = sym (ap (λ v. v.thread_id) c.frame) in
      (
        w1,
        w2,
        ran1,
        ap (λ t. remove_event_channel e tq t id w1) thread ∙ ran2,
        record {
          registry = d.registry;
          fd = d.fd ∙ c.fd;
          forgotten = d.forgotten;
          unmapped = ap w2.poller.channels (sym c.fd) ∙ d.unmapped;
          unwatched = ap (interest w2.poller.kernel) (sym c.fd) ∙ d.unwatched;
          others = λ j ne. d.others j ne ∙ c.others j ne;
          frame =
              d.frame
              ∙ ap (λ (v : World e tq R). record v { poller = w2.poller; heap = w2.heap }) c.frame;
        },
      )
