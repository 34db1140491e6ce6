-- ===== src/Connector/Starting.antt =====
-- StartInLoop of tcp_connector.cpp, and what Start does after it.
use network_poller.Prelude.{
  ℕ, ◌≡◌, refl, sym, ap, ◌∙◌, Bool, true, false, not, ◌&&◌, some, arith, ==_refl,
}
use network_poller.Result.{Result, ok}
use network_poller.Channel.Flags.{Interest, encode}
use network_poller.Channel.{new_channel, new_event_channel, with_writing}
use network_poller.Poller.{Watched}
use network_poller.Poller.Epoll.{Epoll, HasRoom, update_self}
use network_poller.Loop.External.{TaskQueue}
use network_poller.Loop.{
  is_in_loop_thread, Registry, beside-Registry, IsKnown, with_channel, IsUnused,
  with_channel-Registry, with_channel-IsFree, enable_writing, set_events-Changed,
}
use network_poller.Connector.Defs.{
  connecting, Job, Attempt, errno_after, goes_on, Net, connect, close, point_to, watch,
  start_in_loop, start,
}

abbrev pub nothing : Interest
nothing = record { reading = false; writing = false }

abbrev pub writing_only : Interest
writing_only = record { reading = false; writing = true }

module _ (e : Epoll) (room : HasRoom e) (tq : TaskQueue Job) (this_thread : ℕ) where
  -- A loop on this thread, with a connector that tries to connect.
  pub record Trying (w : Net e tq) : Type 0 where
    pub here : this_thread ≡ w.thread_id
    pub state : w.rest.state ≡ connecting
    pub registry : Registry e tq w

  -- A new socket that the kernel watches for writing, and nothing for reading.
  pub record Watching (attempt : Attempt) (w w' : Net e tq) : Type 0 where
    pub trying : Trying w'
    pub channel : w'.rest.channel ≡ some attempt.address
    pub fd : (w'.heap attempt.address).fd ≡ attempt.fd
    pub known : IsKnown e tq w' attempt.address
    pub mask : (w'.heap attempt.address).events ≡ encode writing_only
    pub watched : Watched e w'.poller (w'.heap attempt.address)
    pub frame : w' ≡ record w {
      poller = w'.poller;
      heap = w'.heap;
      rest = record w.rest {
        channel = some attempt.address;
        errno = errno_after attempt.error w.rest.errno;
      };
    }

  not_again : (spurious : Bool) → not spurious && false ≡ false
  not_again spurious = ground arith

  in_loop_lem :
      (w : Net e tq) → this_thread ≡ w.thread_id → is_in_loop_thread e tq this_thread w ≡ true
  unfolding is_in_loop_thread
  in_loop_lem w here = rw here (==_refl w.thread_id)

  -- Before the call of EnableWriting.
  abbrev ready : Attempt → Net e tq → Net e tq
  ready attempt w =
      with_channel e tq attempt.address attempt.fd attempt.garbage
        (point_to e tq (some attempt.address) (connect e tq attempt w))

  start-watch :
      (attempt : Attempt) (w : Net e tq)
      → this_thread ≡ w.thread_id
      → w.rest.state ≡ connecting
      → goes_on (errno_after attempt.error w.rest.errno) ≡ true
      → start_in_loop e tq this_thread attempt w
        ≡ watch e tq this_thread attempt (connect e tq attempt w)
  unfolding start_in_loop is_in_loop_thread
  start-watch attempt w here state going = rw (here, ==_refl w.thread_id, going, state) refl

  -- If `errno` is 0, EINPROGRESS, EINTR or EISCONN after `connect`, StartInLoop leaves the socket to
  -- epoll: the connector has a channel for it that the kernel watches for writing alone. The
  -- conditions: the loop runs on this thread and its registry is sound, the connector is in
  -- CONNECTING, and neither the new channel's address nor the descriptor is that of a known channel.
  pub start_in_loop-Watching :
      (attempt : Attempt) (w : Net e tq)
      → Trying w
      → (w.heap attempt.address).status ≡ new_channel
      → IsUnused e tq w attempt.fd
      → goes_on (errno_after attempt.error w.rest.errno) ≡ true
      → (w' : Net e tq) × (start_in_loop e tq this_thread attempt w ≡ ok w') × Watching attempt w w'
  unfolding watch enable_writing new_event_channel
  start_in_loop-Watching attempt w t spare unused going =
      let made = ready attempt w in
      let w1 = point_to e tq (some attempt.address) (connect e tq attempt w) in
      let reg =
        with_channel-Registry e tq attempt.address attempt.fd attempt.garbage w1 spare
          (beside-Registry e tq w w.queue w1.rest t.registry) in
      let free =
        with_channel-IsFree e tq attempt.address attempt.fd attempt.garbage w1 spare unused in
      let (w2, ran, c) = set_events-Changed e room tq with_writing made reg attempt.address free in
      let made_lem =
        update_self w.heap attempt.address
          (new_event_channel attempt.address w.self attempt.fd attempt.garbage) in
      let ran' : enable_writing e tq this_thread attempt.address made ≡ ok w2 =
        ap (λ t. enable_writing e tq t attempt.address made) t.here ∙ ran in
      let still : w2.rest ≡ made.rest = ap (λ v. v.rest) c.frame in
      (
        w2,
        start-watch attempt w t.here t.state going ∙ ran',
        record {
          trying = record {
            here = t.here ∙ sym (ap (λ v. v.thread_id) c.frame);
            state = ap (λ c. c.state) still ∙ t.state;
            registry = c.registry;
          };
          channel = ap (λ c. c.channel) still;
          fd = c.fd ∙ ap (λ c. c.fd) made_lem;
          known = c.known;
          mask = c.mask ∙ ap (λ c. with_writing c.events) made_lem;
          watched = c.watched;
          frame = c.frame;
        },
      )

  -- Otherwise, for a temporary error as for any other, it only closes the socket: the connector stays
  -- in CONNECTING, nothing is queued, no channel is made, and Start returns at once from then on.
  pub start_in_loop-gives_up :
      (attempt : Attempt) (w : Net e tq)
      → this_thread ≡ w.thread_id
      → w.rest.state ≡ connecting
      → goes_on (errno_after attempt.error w.rest.errno) ≡ false
      → (w' : Net e tq) × (start_in_loop e tq this_thread attempt w ≡ ok w')
        × (w' ≡ close e tq attempt.fd (connect e tq attempt w))
        × ((handle : ℕ → Net e tq → Result (Net e tq)) (other_thread : ℕ) (spurious : Bool)
              (again : Attempt)
            → start e tq other_thread handle spurious again w' ≡ ok w')
  unfolding start_in_loop start
  start_in_loop-gives_up attempt w here state over = (
    close e tq attempt.fd (connect e tq attempt w),
    rw (in_loop_lem w here, state, over) refl,
    refl,
    λ handle other_thread spurious again. rw (state, not_again spurious) refl,
  )
