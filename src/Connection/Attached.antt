-- ===== src/Connection/Attached.antt =====
-- A connection of tcp_connection.cpp that is registered with its loop, and the calls by which it
-- changes its channel's mask.
use network_poller.Prelude.{ℕ, ◌≡◌, sym, ap, ◌∙◌, subst, true, ==_refl}
use network_poller.Result.{ok}
use network_poller.Buffer.{IsValid}
use network_poller.Channel.Flags.{Interest, encode}
use network_poller.Poller.{next_status}
use network_poller.Channel.{is_none_event, Tested, Wants-Tested}
use network_poller.Poller.Epoll.{Epoll, HasRoom}
use network_poller.Loop.External.{TaskQueue}
use network_poller.Loop.{
  is_in_loop_thread, Registry, beside-Registry, IsKnown, Action, apply, perform, Follows,
  perform-Follows, perform-status, IsFree, IsFree-again,
}
use network_poller.Connection.Defs.{Task, Conn, Net, channel_of}

module _ (e : Epoll) (tq : TaskQueue Task) (this_thread : ℕ) where
  -- The loop runs on this thread, its registry is sound, the connection's channel is registered with
  -- a mask that stands for this interest, and the write buffer's indices are valid.
  pub record Base (w : Net e tq) (i : Interest) : Type 0 where
    pub here : this_thread ≡ w.thread_id
    pub registry : Registry e tq w
    pub known : IsKnown e tq w w.rest.channel
    pub mask : (channel_of e tq w).events ≡ encode i
    pub valid : IsValid w.rest.write_buffer

  pub in_loop_lem :
      (w : Net e tq) → this_thread ≡ w.thread_id → is_in_loop_thread e tq this_thread w ≡ true
  unfolding is_in_loop_thread
  in_loop_lem w here = rw here (==_refl w.thread_id)

  -- The tests of the mask, by the interest.
  pub Base-Tested : {w : Net e tq} {i : Interest} → Base w i → Tested (channel_of e tq w) i
  Base-Tested {w} {i} b = Wants-Tested (channel_of e tq w) i b.mask

  -- The registry looks neither at the queue nor at the connection.
  pub Registry-rest :
      (w : Net e tq) (q : tq.Queue) (c : Conn)
      → Registry e tq w
      → Registry e tq (record w { queue = q; rest = c })
  Registry-rest w q c reg = beside-Registry e tq w q c reg

  -- Neither does the rest, but for the channel's address and the write buffer.
  pub Base-rest :
      {w : Net e tq} {i : Interest} (q : tq.Queue) (c : Conn)
      → Base w i
      → c.channel ≡ w.rest.channel
      → IsValid c.write_buffer
      → Base (record w { queue = q; rest = c }) i
  Base-rest {w} {i} q c b same valid = record {
    here = b.here;
    registry = Registry-rest w q c b.registry;
    known = rw same b.known;
    mask = rw same b.mask;
    valid = valid;
  }

  -- The channel of a connection follows an interest, after calls that changed no more than the poller
  -- and the channels.
  pub Follows-Base :
      (room : HasRoom e) (w w' : Net e tq) (i : Interest)
      → this_thread ≡ w.thread_id
      → IsValid w.rest.write_buffer
      → Follows e tq room w.rest.channel w' i
      → w' ≡ record w { poller = w'.poller; heap = w'.heap }
      → Base w' i
  Follows-Base room w w' i here valid f frame =
      let same : w'.rest ≡ w.rest = ap (λ v. v.rest) frame in
      let same_channel : w.rest.channel ≡ w'.rest.channel = sym (ap (λ c. c.channel) same) in
      record {
        here = here ∙ sym (ap (λ v. v.thread_id) frame);
        registry = f.registry;
        known = subst (λ k. IsKnown e tq w' k) same_channel f.known;
        mask = subst (λ k. (w'.heap k).events ≡ encode i) same_channel f.mask;
        valid = subst (λ c. IsValid c.write_buffer) (sym same) valid;
      }

  -- The status that one of the five calls leaves the connection's channel.
  pub perform-next_status :
      (room : HasRoom e) (a : Action) (w w' : Net e tq)
      → Registry e tq w
      → IsFree e tq w w.rest.channel
      → perform e tq a w.thread_id w.rest.channel w ≡ ok w'
      → w' ≡ record w { poller = w'.poller; heap = w'.heap }
      → (channel_of e tq w').status
        ≡ next_status (channel_of e tq w).status (is_none_event (channel_of e tq w'))
  perform-next_status room a w w' reg free ran frame =
      subst
        (λ k.
          (w'.heap k).status ≡ next_status (channel_of e tq w).status (is_none_event (w'.heap k)))
        (sym (ap (λ v. v.rest.channel) frame))
        (perform-status e tq room w.rest.channel a w w' reg free ran)

  -- One of the five calls on the connection's channel.
  pub perform-Base :
      (room : HasRoom e) (a : Action) (w : Net e tq) (i : Interest)
      → Base w i
      → (w' : Net e tq) × (perform e tq a this_thread w.rest.channel w ≡ ok w')
        × Base w' (apply a i)
        × (w' ≡ record w { poller = w'.poller; heap = w'.heap })
  perform-Base room a w i b =
      let id = w.rest.channel in
      let (w', ran, f, frame) =
        perform-Follows e tq room id a w i b.registry
          (IsFree-again e tq room id w b.registry b.known) b.mask in
      (
        w',
        ap (λ t. perform e tq a t id w) b.here ∙ ran,
        Follows-Base room w w' (apply a i) b.here b.valid f frame,
        frame,
      )
