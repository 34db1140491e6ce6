-- ===== src/Loop/History.antt =====
-- Any history of EnableReading, DisableReading, EnableWriting, DisableWriting and DisableAll on a
-- channel, from event_channel.cpp down to epoll.
use network_poller.Prelude.{subst, ◌==◌, ℕ, ◌≡◌, refl, sym, ap, ◌∙◌, true, false, List, [], ◌∷◌}
use network_poller.Result.{Result, ok, ok-injective, ◌>>=◌}
use network_poller.Channel.Flags.{Interest, encode}
use network_poller.Channel.{
  is_none_event, with_reading, without_reading, with_writing, without_writing, without_all,
  encode-Updated,
}
use network_poller.Poller.Epoll.{Epoll, HasRoom}
use network_poller.Poller.{Watched, next_status}
use network_poller.Loop.External.{TaskQueue}
use network_poller.Loop.Defs.{
  World, set_events, enable_reading, disable_reading, enable_writing, disable_writing, disable_all,
}
use network_poller.Loop.Invariant.{Registry, IsKnown, IsFree}
use network_poller.Loop.Calls.{set_events-Changed}

pub data Action : Type 0 where
  enables_reading disables_reading enables_writing disables_writing disables_all : Action

-- What a client means by an action.
unfoldable pub apply : Action → Interest → Interest
apply enables_reading i = record i { reading = true }
apply disables_reading i = record i { reading = false }
apply enables_writing i = record i { writing = true }
apply disables_writing i = record i { writing = false }
apply disables_all i = record { reading = false; writing = false }

pub apply_each : List Action → Interest → Interest
apply_each [] i = i
apply_each (a ∷ as') i = apply_each as' (apply a i)

abbrev mask_of : Action → ℕ → ℕ
mask_of enables_reading = with_reading
mask_of disables_reading = without_reading
mask_of enables_writing = with_writing
mask_of disables_writing = without_writing
mask_of disables_all = without_all

mask_of-encode :
    (a : Action) (mask : ℕ) (i : Interest) → mask ≡ encode i → mask_of a mask ≡ encode (apply a i)
unfolding apply
mask_of-encode enables_reading mask i h = (encode-Updated mask i h).after_with_reading
mask_of-encode disables_reading mask i h = (encode-Updated mask i h).after_without_reading
mask_of-encode enables_writing mask i h = (encode-Updated mask i h).after_with_writing
mask_of-encode disables_writing mask i h = (encode-Updated mask i h).after_without_writing
mask_of-encode disables_all mask i h = (encode-Updated mask i h).after_without_all

module _ (e : Epoll) {Task : Type 0} (tq : TaskQueue Task) {R : Type 0} where
  unfoldable pub perform : Action → ℕ → ℕ → World e tq R → Result (World e tq R)
  perform enables_reading = enable_reading e tq
  perform disables_reading = disable_reading e tq
  perform enables_writing = enable_writing e tq
  perform disables_writing = disable_writing e tq
  perform disables_all = disable_all e tq

  pub perform_each : List Action → ℕ → ℕ → World e tq R → Result (World e tq R)
  perform_each [] this_thread id w = ok w
  perform_each (a ∷ as') this_thread id w = do
    w' ← perform a this_thread id w
    perform_each as' this_thread id w'

  perform-set_events :
      (a : Action) (this_thread id : ℕ) (w : World e tq R)
      → perform a this_thread id w ≡ set_events e tq (mask_of a) this_thread id w
  unfolding perform enable_reading disable_reading enable_writing disable_writing disable_all
  perform-set_events enables_reading t id w = refl
  perform-set_events disables_reading t id w = refl
  perform-set_events enables_writing t id w = refl
  perform-set_events disables_writing t id w = refl
  perform-set_events disables_all t id w = refl

  module _ (room : HasRoom e) (id : ℕ) where
    -- The channel's mask is that of the interest, and the kernel acts on it.
    pub record Follows (w : World e tq R) (i : Interest) : Type 0 where
      pub registry : Registry e tq w
      pub known : IsKnown e tq w id
      pub mask : (w.heap id).events ≡ encode i
      pub watched : Watched e w.poller (w.heap id)

    pub IsFree-again : (w : World e tq R) → Registry e tq w → IsKnown e tq w id → IsFree e tq w id
    IsFree-again w reg known j ne other same = ne (reg.exclusive id j known other (sym same))

    pub perform-Follows :
        (a : Action) (w : World e tq R) (i : Interest)
        → Registry e tq w
        → IsFree e tq w id
        → (w.heap id).events ≡ encode i
        → (w' : World e tq R) × (perform a w.thread_id id w ≡ ok w')
          × Follows w' (apply a i)
          × (w' ≡ record w { poller = w'.poller; heap = w'.heap })
    perform-Follows a w i reg free mask =
        let (w', ran, c) = set_events-Changed e room tq (mask_of a) w reg id free in
        (
          w',
          perform-set_events a w.thread_id id w ∙ ran,
          record {
            registry = c.registry;
            known = c.known;
            mask = c.mask ∙ mask_of-encode a (w.heap id).events i mask;
            watched = c.watched;
          },
          c.frame,
        )

    -- The status that such a call leaves.
    pub perform-status :
        (a : Action) (w w' : World e tq R)
        → Registry e tq w
        → IsFree e tq w id
        → perform a w.thread_id id w ≡ ok w'
        → (w'.heap id).status ≡ next_status (w.heap id).status (is_none_event (w'.heap id))
    perform-status a w w' reg free ran =
        let (w1, ran1, c) = set_events-Changed e room tq (mask_of a) w reg id free in
        let same : w1 ≡ w' =
          ok-injective (sym (perform-set_events a w.thread_id id w ∙ ran1) ∙ ran) in
        subst
          (λ (v : World e tq R).
            (v.heap id).status ≡ next_status (w.heap id).status (is_none_event (v.heap id)))
          same (c.status ∙ ap (λ m. next_status (w.heap id).status (0 == m)) (sym c.mask))

    perform_each-Follows :
        (as' : List Action) (w : World e tq R) (i : Interest)
        → Follows w i
        → (w' : World e tq R) × (perform_each as' w.thread_id id w ≡ ok w')
          × Follows w' (apply_each as' i)
    unfolding perform_each apply_each
    perform_each-Follows [] w i f = (w, refl, f)
    perform_each-Follows (a ∷ as') w i f =
        let (w1, ran, f1, frame) =
          perform-Follows a w i f.registry (IsFree-again w f.registry f.known) f.mask in
        let (w2, rest, f2) = perform_each-Follows as' w1 (apply a i) f1 in
        (
          w2,
          rw ran (ap (λ t. perform_each as' t id w1) (sym (ap (λ v. v.thread_id) frame)) ∙ rest),
          f2,
        )

    -- On the loop's thread, from a registry and a channel whose descriptor no other known channel has
    -- and whose mask stands for an interest, no history of at least one call that sets the mask fails
    -- an assertion. Afterwards the mask stands for what the calls ask for, read in order, the kernel
    -- watches the channel with that mask (or not at all if it is empty), and the registry holds. The
    -- kernel does not refuse a call for lack of resources.
    pub history-Follows :
        (a : Action) (as' : List Action) (w : World e tq R) (i : Interest)
        → Registry e tq w
        → IsFree e tq w id
        → (w.heap id).events ≡ encode i
        → (w' : World e tq R) × (perform_each (a ∷ as') w.thread_id id w ≡ ok w')
          × Follows w' (apply_each (a ∷ as') i)
    unfolding perform_each apply_each
    history-Follows a as' w i reg free mask =
        let (w1, ran, f1, frame) = perform-Follows a w i reg free mask in
        let (w2, rest, f2) = perform_each-Follows as' w1 (apply a i) f1 in
        (
          w2,
          rw ran (ap (λ t. perform_each as' t id w1) (sym (ap (λ v. v.thread_id) frame)) ∙ rest),
          f2,
        )
