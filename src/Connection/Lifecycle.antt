-- ===== src/Connection/Lifecycle.antt =====
-- The life of a connection of tcp_connection.cpp: ConnectEstablished, CloseHandler and
-- ConnectDestoryed.
use network_poller.Prelude.{ℕ, ◌≡◌, ◌≢◌, refl, sym, ap, ◌∙◌, true, false, not, none, [], arith}
use network_poller.Result.{Result, ok, fault, assertion, ◌>>=◌, ◌>>◌, assert_that}
use network_poller.Buffer.{IsValid, contents, is_empty_lem}
use network_poller.Channel.Flags.{Interest, encode}
use network_poller.Channel.{call, is_none_event}
use network_poller.Poller.{next_status}
use network_poller.Poller.Epoll.{Epoll, HasRoom}
use network_poller.Loop.External.{TaskQueue}
use network_poller.Loop.{
  IsFree-again, may_remove, enable_reading, remove_from_loop, remove_event_channel, Registry,
  IsFree, enables_reading, disables_all, apply, perform, perform-Follows, Dropped,
  remove_event_channel-Dropped, remove_event_channel-unmapped,
}
use network_poller.Connection.Defs.{
  ConnState, connected, disconnected, is_connected, Task, Conn, Net, Hooks, channel_of, set_state,
  is_set, close_handler,
}
use network_poller.Connection.Api.{connect_established, connect_destroyed}
use network_poller.Connection.Attached.{
  Base, Follows-Base, Base-Tested, Base-rest, Registry-rest, perform-Base, perform-next_status,
  in_loop_lem,
}
use network_poller.Connection.Stream.{Sound}

abbrev pub nothing : Interest
nothing = record { reading = false; writing = false }

abbrev pub reading_only : Interest
reading_only = record { reading = true; writing = false }

module _ (e : Epoll) (room : HasRoom e) (tq : TaskQueue Task) (hooks : Hooks e tq)
    (this_thread : ℕ) where
  -- The callback of the connection's state, then the one that must be there.
  abbrev pub tell_closed : Net e tq → Result (Net e tq)
  tell_closed w = do
    w1 ← call hooks.conn_status_cb w
    assert_that (is_set e tq hooks.close_cb)
    call hooks.close_cb w1

  -- What a change of state and of the mask leaves: the rest of the connection and of the loop stays.
  pub record Moved (state : ConnState) (wants : Interest) (w w' : Net e tq) : Type 0 where
    pub base : Base e tq this_thread w' wants
    pub status :
        (channel_of e tq w').status
        ≡ next_status (channel_of e tq w).status (is_none_event (channel_of e tq w'))
    pub frame :
        w' ≡ record w { poller = w'.poller; heap = w'.heap; rest = record w.rest { state = state } }

  -- On the loop's thread, for a registered connection in any state, CloseHandler enters DISCONNECTED
  -- and clears the mask before it calls anyone, which takes an ADDED channel to DELETE; it changes nothing else itself, and the rest of its
  -- work is that of the two callbacks, of which the second must be there.
  pub close_handler-Moved :
      (w : Net e tq) (i : Interest)
      → Base e tq this_thread w i
      → (w' : Net e tq) × (close_handler e tq hooks this_thread w ≡ tell_closed w')
        × Moved disconnected nothing w w'
  unfolding close_handler perform apply
  close_handler-Moved w i b =
      let down = set_state e tq disconnected w in
      let (w1, ran, b1, frame) =
        perform-Base e tq this_thread room disables_all down i
          (Base-rest e tq this_thread w.queue down.rest b refl b.valid) in
      (
        w1,
        rw (in_loop_lem e tq this_thread w b.here, ran) refl,
        record {
          base = b1;
          status =
              perform-next_status e tq this_thread room disables_all down w1
                (Registry-rest e tq this_thread w w.queue down.rest b.registry)
                (IsFree-again e tq room w.rest.channel w b.registry b.known)
                (ap (λ t. perform e tq disables_all t w.rest.channel down) (sym b.here) ∙ ran)
                frame;
          frame = frame;
        },
      )

  -- On the loop's thread, for a connection whose channel has an empty mask and a descriptor that no
  -- known channel has, ConnectEstablished enters CONNECTED and has the kernel watch the descriptor
  -- for reading before it calls the callback; a connection whose write buffer is empty can send then.
  pub connect_established-Sound :
      (w : Net e tq)
      → this_thread ≡ w.thread_id
      → Registry e tq w
      → IsFree e tq w w.rest.channel
      → (channel_of e tq w).events ≡ encode nothing
      → IsValid w.rest.write_buffer
      → contents w.rest.write_buffer ≡ []
      → (w' : Net e tq) × (connect_established e tq hooks this_thread w
          ≡ call hooks.conn_status_cb w')
        × Moved connected reading_only w w'
        × Sound e tq this_thread w'
  unfolding connect_established perform apply
  connect_established-Sound w here reg free idle valid unsent =
      let up = set_state e tq connected w in
      let (w1, ran, f, frame) =
        perform-Follows e tq room w.rest.channel enables_reading up nothing
          (Registry-rest e tq this_thread w w.queue up.rest reg) free idle in
      let base = Follows-Base e tq this_thread room up w1 reading_only here valid f frame in
      let same : w1.rest ≡ up.rest = ap (λ v. v.rest) frame in
      let still_unsent : contents w1.rest.write_buffer ≡ [] =
        ap (λ (c : Conn). contents c.write_buffer) same ∙ unsent in
      let ran' : enable_reading e tq this_thread w.rest.channel up ≡ ok w1 =
        ap (λ t. enable_reading e tq t w.rest.channel up) here ∙ ran in
      (
        w1,
        rw (in_loop_lem e tq this_thread w here, ran') refl,
        record {
          base = base;
          status =
              perform-next_status e tq this_thread room enables_reading up w1
                (Registry-rest e tq this_thread w w.queue up.rest reg) free ran frame;
          frame = frame;
        },
        record {
          wants = reading_only;
          base = base;
          pending = ap not (sym ((is_empty_lem base.valid).1 still_unsent));
        },
      )

  destroyed-unmapped :
      (w : Net e tq)
      → this_thread ≡ w.thread_id
      → is_connected w.rest.state ≡ false
      → w.poller.channels (channel_of e tq w).fd ≡ none
      → connect_destroyed e tq hooks this_thread w ≡ fault assertion
  unfolding connect_destroyed remove_from_loop
  destroyed-unmapped w here not_up absent =
      rw (in_loop_lem e tq this_thread w here, not_up)
        (remove_event_channel-unmapped e room tq this_thread w.rest.channel w absent)

  -- On the loop's thread, for a connection that is closed, with an empty mask, and that the loop may
  -- remove now, ConnectDestoryed removes its channel: the poller and epoll know its descriptor no
  -- more. A second ConnectDestoryed stops the process at an assertion.
  pub connect_destroyed-once :
      (w : Net e tq)
      → Base e tq this_thread w nothing
      → w.rest.state ≢ connected
      → may_remove w.active w.rest.channel w.active_list ≡ true
      → (w' : Net e tq) × (connect_destroyed e tq hooks this_thread w ≡ ok w')
        × Dropped e room tq w.rest.channel w w'
        × (connect_destroyed e tq hooks this_thread w' ≡ fault assertion)
  unfolding connect_destroyed remove_from_loop
  connect_destroyed-once w b closed may =
      let (w1, ran, d) =
        remove_event_channel-Dropped e room tq w b.registry w.rest.channel b.known
          (Base-Tested e tq this_thread b).idle may in
      (
        w1,
        rw (in_loop_lem e tq this_thread w b.here, not_up)
            (ap (λ t. remove_event_channel e tq t w.rest.channel w) b.here ∙ ran),
        d,
        destroyed-unmapped w1 (b.here ∙ sym (ap (λ v. v.thread_id) d.frame))
            (ap (λ v. is_connected v.rest.state) d.frame ∙ not_up)
            (ap (λ v. w1.poller.channels (w1.heap v.rest.channel).fd) d.frame
              ∙ ap w1.poller.channels d.fd
              ∙ d.unmapped),
      )
    where
      not_up : is_connected w.rest.state ≡ false
      not_up = ground arith
