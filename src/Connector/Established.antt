-- ===== src/Connector/Established.antt =====
-- WriteEventHandler, RemoveChannel and RetryConn of tcp_connector.cpp.
use network_poller.Prelude.{
  ℕ, ◌≡◌, ◌≢◌, refl, ap, ◌∙◌, Bool, true, false, none, some, ◌∷◌, List, [], ◌++◌, ◌==◌, ==_ne,
  if◌then◌else◌, append-nil, append_assoc,
}
use network_poller.Result.{ok, ◌>>=◌, defined}
use network_poller.Channel.{new_channel}
use network_poller.Poller.Epoll.{Epoll, HasRoom}
use network_poller.Loop.External.{TaskQueue}
use network_poller.Loop.{
  may_remove, disable_all, remove_from_loop, queue_in_loop, Registry, beside-Registry, IsKnown,
  detach-Detached,
}
use network_poller.Connector.Defs.{
  connecting, Job, starts, resets_channel_ptr, Connector, Net, remove_at, remove_channel, give,
  retry_conn, hand_over, write_event_handler,
}
use network_poller.Connector.Starting.{Trying}

module _ (e : Epoll) (room : HasRoom e) (tq : TaskQueue Job) (this_thread : ℕ) where
  open e use {interest}

  -- The channel of the attempt has been reported: the connector has it, the poller knows it, and the
  -- loop may remove it now.
  pub record Reported (id : ℕ) (w : Net e tq) : Type 0 where
    pub trying : Trying e room tq this_thread w
    pub channel : w.rest.channel ≡ some id
    pub known : IsKnown e tq w id
    pub may : may_remove w.active id w.active_list ≡ true

  -- The poller and epoll have let go of the descriptor, and the registry of the other channels holds.
  pub record Released (id : ℕ) (w w' : Net e tq) : Type 0 where
    pub registry : Registry e tq w'
    pub forgotten : (w'.heap id).status ≡ new_channel
    pub same_fd : (w'.heap id).fd ≡ (w.heap id).fd
    pub unmapped : w'.poller.channels (w.heap id).fd ≡ none
    pub unwatched : interest w'.poller.kernel (w.heap id).fd ≡ none
    pub others : (j : ℕ) → id ≢ j → w'.heap j ≡ w.heap j
    pub same_thread : w'.thread_id ≡ w.thread_id

  Released-beside :
      (id : ℕ) (w w' : Net e tq) (q : tq.Queue) (c : Connector)
      → Released id w w'
      → Released id w (record w' { queue = q; rest = c })
  Released-beside id w w' q c l = record {
    registry = beside-Registry e tq w' q c l.registry;
    forgotten = l.forgotten;
    same_fd = l.same_fd;
    unmapped = l.unmapped;
    unwatched = l.unwatched;
    others = l.others;
    same_thread = l.same_thread;
  }

  remove_channel_lem :
      (id : ℕ) (w : Net e tq)
      → Reported id w
      → (w' : Net e tq) × (remove_channel e tq this_thread w ≡ ok ((w.heap id).fd, w'))
        × Released id w w'
        × (w'.rest ≡ w.rest)
        × (tq.items w'.queue ≡ tq.items w.queue ++ resets_channel_ptr ∷ [])
  unfolding remove_channel remove_at queue_in_loop
  remove_channel_lem id w r =
      let (w1, w2, ran1, ran2, d) =
        detach-Detached e room tq w id r.trying.registry r.known r.may in
      let ran1' = ap (λ t. disable_all e tq t id w) r.trying.here ∙ ran1 in
      let ran2' = ap (λ t. remove_from_loop e tq t id w1) r.trying.here ∙ ran2 in
      (
        queue_in_loop e tq resets_channel_ptr w2,
        ap (λ o. defined o >>= remove_at e tq this_thread w) r.channel
            ∙ rw (ran1', ran2', d.fd) refl,
        Released-beside id w w2 (tq.enqueue resets_channel_ptr w2.queue) w2.rest (record {
          registry = d.registry;
          forgotten = d.forgotten;
          same_fd = d.fd;
          unmapped = d.unmapped;
          unwatched = d.unwatched;
          others = d.others;
          same_thread = ap (λ v. v.thread_id) d.frame;
        }),
        ap (λ v. v.rest) d.frame,
        tq.enqueue_lem resets_channel_ptr w2.queue
            ∙ ap (λ v. tq.items v.queue ++ resets_channel_ptr ∷ []) d.frame,
      )

  handled :
      (error : ℕ) (w w1 : Net e tq) (fd : ℕ)
      → w.rest.state ≡ connecting
      → remove_channel e tq this_thread w ≡ ok (fd, w1)
      → write_event_handler e tq this_thread error w ≡ (
          if error == 0
          then hand_over e tq this_thread w1
          else ok (retry_conn e tq this_thread fd w1))
  unfolding write_event_handler
  handled error w w1 fd state ran = rw (ran, state) refl

  -- What the callback, if there is one, is given.
  abbrev pub offered : Bool → ℕ → List ℕ
  offered has_callback fd = if has_callback then fd ∷ [] else []

  give-offered :
      (w : Net e tq) (id : ℕ) (b : Bool)
      → (if b then give e tq this_thread w id else ok w)
        ≡ ok (record w {
          rest = record w.rest { handed = w.rest.handed ++ offered b (w.heap id).fd };
        })
  unfolding give
  give-offered w id true = refl
  give-offered w id false = rw (append-nil w.rest.handed) refl

  offered_lem :
      (w : Net e tq) (id : ℕ)
      → w.rest.channel ≡ some id
      → hand_over e tq this_thread w
        ≡ ok (record w {
          rest = record w.rest {
            handed = w.rest.handed ++ offered w.rest.has_callback (w.heap id).fd;
          };
        })
  unfolding hand_over
  offered_lem w id at =
      ap (λ o. if w.rest.has_callback then defined o >>= give e tq this_thread w else ok w) at
      ∙ give-offered w id w.rest.has_callback

  -- When the socket has no error, WriteEventHandler takes the channel out of the poller and of epoll,
  -- gives the descriptor to the callback, if there is one, and closes nothing; the channel object goes
  -- in a task of its own. Without a callback the descriptor stays open and nobody has it.
  pub write_event_handler-hands_over :
      (id : ℕ) (w : Net e tq)
      → Reported id w
      → (w' : Net e tq) × (write_event_handler e tq this_thread 0 w ≡ ok w')
        × Released id w w'
        × (w'.rest ≡ record w.rest {
          handed = w.rest.handed ++ offered w.rest.has_callback (w.heap id).fd;
        })
        × (tq.items w'.queue ≡ tq.items w.queue ++ resets_channel_ptr ∷ [])
  write_event_handler-hands_over id w r =
      let (w1, ran, l, same, items) = remove_channel_lem id w r in
      let out : Connector = record w1.rest {
        handed = w1.rest.handed ++ offered w1.rest.has_callback (w1.heap id).fd;
      } in
      (
        record w1 { rest = out },
        handled 0 w w1 (w.heap id).fd r.trying.state ran
            ∙ offered_lem w1 id (ap (λ (c : Connector). c.channel) same ∙ r.channel),
        Released-beside id w w1 w1.queue out l,
        ap
              (λ (c : Connector). record c {
                handed = c.handed ++ offered c.has_callback (w1.heap id).fd;
              })
              same
            ∙ ap (λ fd. record w.rest { handed = w.rest.handed ++ offered w.rest.has_callback fd })
                l.same_fd,
        items,
      )

  -- When the socket has an error, WriteEventHandler takes the channel out of the poller and of epoll,
  -- closes the socket, hands over nothing, and queues the end of the channel object and then a new
  -- StartInLoop.
  pub write_event_handler-retries :
      (id : ℕ) (w : Net e tq) (error : ℕ)
      → Reported id w
      → error ≢ 0
      → (w' : Net e tq) × (write_event_handler e tq this_thread error w ≡ ok w')
        × Released id w w'
        × (w'.rest ≡ record w.rest { closed = w.rest.closed ++ (w.heap id).fd ∷ [] })
        × (tq.items w'.queue ≡ tq.items w.queue ++ resets_channel_ptr ∷ starts ∷ [])
  unfolding retry_conn queue_in_loop
  write_event_handler-retries id w error r failed =
      let (w1, ran, l, same, items) = remove_channel_lem id w r in
      (
        retry_conn e tq this_thread (w.heap id).fd w1,
        handled error w w1 (w.heap id).fd r.trying.state ran ∙ rw (==_ne error 0 failed) refl,
        Released-beside id w w1 (tq.enqueue starts w1.queue)
            (record w1.rest { closed = w1.rest.closed ++ (w.heap id).fd ∷ [] }) l,
        ap (λ (c : Connector). record c { closed = c.closed ++ (w.heap id).fd ∷ [] }) same,
        tq.enqueue_lem starts w1.queue
            ∙ ap (λ ts. ts ++ starts ∷ []) items
            ∙ append_assoc (tq.items w.queue) (resets_channel_ptr ∷ []) (starts ∷ []),
      )
