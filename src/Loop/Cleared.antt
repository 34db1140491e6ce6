-- ===== src/Loop/Cleared.antt =====
-- A second DisableAll of event_channel.cpp, through event_loop.cpp and epoll_poller.cpp down to epoll.
use network_poller.Prelude.{ℕ, ◌≡◌, sym, ap, ap₂, ◌∙◌, subst, true, none, some}
use network_poller.Result.{ok}
use network_poller.Channel.{Status, added_channel, delete_channel, without_all}
use network_poller.Poller.Epoll.{Epoll, HasRoom}
use network_poller.Poller.{Agrees, next_status}
use network_poller.Loop.External.{TaskQueue}
use network_poller.Loop.Defs.{World, disable_all}
use network_poller.Loop.Invariant.{Registry, IsKnown, known-IsFree}
use network_poller.Loop.Calls.{set_events-Changed}

module _ (e : Epoll) (room : HasRoom e) {Task : Type 0} (tq : TaskQueue Task) {R : Type 0} where
  open e use {interest}

  -- What DisableAll leaves in the kernel, by the status before it.
  record Cleared (id : ℕ) (w w' : World e tq R) : Type 0 where
    registry : Registry e tq w'
    known : IsKnown e tq w' id
    fd : (w'.heap id).fd ≡ (w.heap id).fd
    mask : (w'.heap id).events ≡ 0
    status : (w'.heap id).status ≡ next_status (w.heap id).status true
    thread : w'.thread_id ≡ w.thread_id

  cleared :
      (w : World e tq R)
      → Registry e tq w
      → (id : ℕ) → IsKnown e tq w id
      → (w' : World e tq R) × (disable_all e tq w.thread_id id w ≡ ok w') × Cleared id w w'
  unfolding disable_all
  cleared w reg id known =
      let (w', ran, c) =
        set_events-Changed e room tq without_all w reg id (known-IsFree e tq w id reg known) in
      (
        w',
        ran,
        record {
          registry = c.registry;
          known = c.known;
          fd = c.fd;
          mask = c.mask;
          status = c.status;
          thread = ap (λ v. v.thread_id) c.frame;
        },
      )

  in_kernel :
      (w : World e tq R) (reg : Registry e tq w) (id : ℕ) (known : IsKnown e tq w id) (s : Status)
      → (w.heap id).status ≡ s
      → Agrees e s w.poller (w.heap id).fd (w.heap id).id (w.heap id).events
  in_kernel w reg id known s is =
      subst (λ q. Agrees e q w.poller (w.heap id).fd (w.heap id).id (w.heap id).events) is
        (reg.synced id known)

  -- On the loop's thread, for a channel that epoll has: DisableAll takes it out of epoll, and a second
  -- DisableAll puts it back, with an empty mask, so that the kernel reports errors and hang-ups of its
  -- descriptor again. No assertion fails on the way.
  pub disable_all-twice :
      (w : World e tq R) (id : ℕ)
      → Registry e tq w
      → (w.heap id).status ≡ added_channel
      → (w1 w2 : World e tq R) × (disable_all e tq w.thread_id id w ≡ ok w1)
        × (disable_all e tq w.thread_id id w1 ≡ ok w2)
        × (interest w1.poller.kernel (w.heap id).fd ≡ none)
        × (interest w2.poller.kernel (w.heap id).fd ≡ some (0, id))
  disable_all-twice w id reg added =
      let (w1, ran1, c1) = cleared w reg id (λ new. cc) in
      let (w2, ran2, c2) = cleared w1 c1.registry id c1.known in
      let out : (w1.heap id).status ≡ delete_channel =
        c1.status ∙ ap (λ s. next_status s true) added in
      let back : (w2.heap id).status ≡ added_channel =
        c2.status ∙ ap (λ s. next_status s true) out in
      (
        w1,
        w2,
        ran1,
        ap (λ t. disable_all e tq t id w1) (sym c1.thread) ∙ ran2,
        ap (interest w1.poller.kernel) (sym c1.fd)
            ∙ (in_kernel w1 c1.registry id c1.known delete_channel out).1,
        ap (interest w2.poller.kernel) (sym (c2.fd ∙ c1.fd))
            ∙ (in_kernel w2 c2.registry id c2.known added_channel back).1
            ∙ ap₂ (λ m i. some (m, i)) c2.mask (c2.registry.address id),
      )
