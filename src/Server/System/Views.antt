-- ===== src/Server/System/Views.antt =====
-- The connections as `tcp_connection.cpp` has them, with a poller and an epoll instance, against the
-- connections of the system of a server.
use network_poller.Prelude.{
  ℕ, ◌≡◌, refl, sym, ap, ap₂, ◌∙◌, true, false, not, none, some, [], subst, ==_refl, ◌==◌, arith,
}
use network_poller.Result.{Result, ok}
use network_poller.Buffer.{IsValid, contents}
use network_poller.Channel.Flags.{Interest, encode}
use network_poller.Channel.{
  Channel, Status, new_channel, added_channel, delete_channel, is_none_event, call,
}
use network_poller.Poller.{is_some, Agrees, next_status}
use network_poller.Poller.Epoll.{Epoll, HasRoom, update_self}
use network_poller.Loop.External.{TaskQueue}
use network_poller.Loop.{may_remove, Registry, IsFree}
use network_poller.Connection.{
  connected, disconnected, is_connected, Task, Conn, Net, Hooks, channel_of, close_handler,
  connect_established, connect_destroyed, Base, Base-Tested, nothing, reading_only, tell_closed,
  close_handler-Moved, connect_established-Sound, connect_destroyed-once,
}
use network_poller.Server.System.Defs.{
  Peer, new_peer, is_open, System, found, set_peer, set_found, establish, disconnect, destroy,
}
use network_poller.Server.System.Calls.{
  update_channel-enters, update_channel-clears, remove_channel-leaves,
}
use network_poller.Server.System.Maps.{update_at_self}
use network_poller.Server.System.Frames.{unfound}
use network_poller.Server.System.Invariant.{Stage, pending, up, removing, At, Sound}

module _ (e : Epoll) (tq : TaskQueue Task) (C : Type 0) where
  -- The system shows this connection: its state, its channel's status in the poller, whether the mask
  -- has a flag, and whether the map of
  -- its loop's poller has its descriptor.
  pub record Shows (conn : ℕ) (s : System C) (w : Net e tq) : Type 0 where
    pub state : (s.peer conn).state ≡ w.rest.state
    pub status : (s.peer conn).status ≡ (channel_of e tq w).status
    pub wants : not (s.peer conn).wants ≡ is_none_event (channel_of e tq w)
    pub known : is_some (found C s conn) ≡ is_some (w.poller.channels (channel_of e tq w).fd)

next_status-awake : (s : Status) → next_status s false ≡ added_channel
next_status-awake new_channel = refl
next_status-awake added_channel = refl
next_status-awake delete_channel = refl

same_mask : (c d : Channel) → c.events ≡ d.events → is_none_event c ≡ is_none_event d
same_mask c d same = ap (λ m. 0 == m) same

-- The handlers that change what the system knows of a connection.
pub data Handler : Type 0 where
  establishing closing destroying : Handler

module _ (e : Epoll) (room : HasRoom e) (tq : TaskQueue Task) (hooks : Hooks e tq) (this_thread : ℕ)
    (C : Type 0) where
  -- ConnectEstablished, CloseHandler and ConnectDestoryed.
  abbrev handle : Handler → Net e tq → Result (Net e tq)
  handle establishing w = connect_established e tq hooks this_thread w
  handle closing w = close_handler e tq hooks this_thread w
  handle destroying w = connect_destroyed e tq hooks this_thread w

  -- The callbacks that they call last.
  abbrev tell : Handler → Net e tq → Result (Net e tq)
  tell establishing w = call hooks.conn_status_cb w
  tell closing w = tell_closed e room tq hooks this_thread w
  tell destroying w = ok w

  -- The system's account of them.
  abbrev account : Handler → ℕ → System C → Result (System C)
  account establishing conn s = establish C (s.server.loop_of conn) conn s
  account closing conn s = disconnect C conn s
  account destroying conn s = destroy C (s.server.loop_of conn) conn s

  -- Where the handler finds the connection.
  abbrev pub Ready : Handler → (s : System C) → Sound C s → ℕ → Net e tq → Type 0
  Ready establishing s sound conn w =
      (sound.stage conn ≡ pending)
      × (this_thread ≡ w.thread_id)
      × Registry e tq w
      × IsFree e tq w w.rest.channel
      × ((channel_of e tq w).events ≡ encode nothing)
      × IsValid w.rest.write_buffer
      × (contents w.rest.write_buffer ≡ [])
  Ready closing s sound conn w =
      (sound.stage conn ≡ up) × (i : Interest) × Base e tq this_thread w i
  Ready destroying s sound conn w =
      (sound.stage conn ≡ removing)
      × Base e tq this_thread w nothing
      × (may_remove w.active w.rest.channel w.active_list ≡ true)

  at_stage :
      (st : Stage) (s : System C) (sound : Sound C s) (conn : ℕ)
      → sound.stage conn ≡ st
      → At C st s conn
  at_stage st s sound conn is = subst (λ a. At C a s conn) is (sound.at conn)

  -- The map has the descriptor of a registered channel.
  mapped :
      (w : Net e tq) (i : Interest)
      → Base e tq this_thread w i
      → is_some (w.poller.channels (channel_of e tq w).fd) ≡ true
  mapped w i b = go (channel_of e tq w).status refl (b.registry.synced w.rest.channel b.known)
    where
      go :
          (st : Status)
          → (channel_of e tq w).status ≡ st
          → Agrees e st w.poller
              (channel_of e tq w).fd
              (channel_of e tq w).id
              (channel_of e tq w).events
          → is_some (w.poller.channels (channel_of e tq w).fd) ≡ true
      go new_channel is a = absurd (b.known is)
      go added_channel is (here, _) = ap is_some here
      go delete_channel is (here, _) = ap is_some here

  -- For a connection on its loop that a sound system shows: ConnectEstablished at stage pending with
  -- a free descriptor and nothing to send, CloseHandler at stage up, and ConnectDestoryed at stage
  -- removing with an empty mask and a loop that may remove the channel each return up to the
  -- callbacks that they call last; the system's account of the call returns too, and shows the
  -- connection that the call leaves: its state, its channel's status in the poller, whether the mask
  -- has a flag, and whether the map of the loop's poller has the descriptor.
  pub handle-Shows :
      (h : Handler) (conn : ℕ) (s : System C) (sound : Sound C s) (w : Net e tq)
      → Ready h s sound conn w
      → Shows e tq C conn s w
      → (w' : Net e tq) × (s' : System C) × (handle h w ≡ tell h w')
        × (account h conn s ≡ ok s')
        × Shows e tq C conn s' w'
  unfolding establish disconnect destroy
  handle-Shows establishing conn s sound w (is, here, reg, free, idle, valid, unsent) shows =
      let at = at_stage pending s sound conn is in
      let (w', ran, moved, _) =
        connect_established-Sound e room tq hooks this_thread w here reg free idle valid unsent in
      let after : Peer = record { state = connected; status = added_channel; wants = true } in
      (
        w',
        set_peer C conn after (set_found C conn (some conn) s),
        ran,
        rw (==_refl (s.server.loop_of conn)) (
            update_channel-enters C conn (record (s.peer conn) { state = connected; wants = true })
              s at.status (unfound C s sound conn is)),
        record {
          state =
              ap (λ (p : Peer). p.state) (update_self s.peer conn after)
              ∙ sym (ap (λ v. v.rest.state) moved.frame);
          status =
              ap (λ (p : Peer). p.status) (update_self s.peer conn after)
              ∙ sym (
                  moved.status
                  ∙ ap (next_status (channel_of e tq w).status)
                      (Base-Tested e tq this_thread moved.base).idle
                  ∙ next_status-awake (channel_of e tq w).status);
          wants =
              ap (λ (p : Peer). not p.wants) (update_self s.peer conn after)
              ∙ sym (Base-Tested e tq this_thread moved.base).idle;
          known =
              ap is_some (
                update_at_self s.channels (s.server.loop_of conn) (s.server.fd_of conn) (some conn))
              ∙ sym (mapped w' reading_only moved.base);
        },
      )
  handle-Shows closing conn s sound w (is, i, b) shows =
      let at = at_stage up s sound conn is in
      let (w', ran, moved) = close_handler-Moved e room tq hooks this_thread w i b in
      let after : Peer = record { state = disconnected; status = delete_channel; wants = false } in
      (
        w',
        set_peer C conn after s,
        ran,
        update_channel-clears C conn (record (s.peer conn) { state = disconnected; wants = false })
            s at.status (at.known refl) refl,
        record {
          state =
              ap (λ (p : Peer). p.state) (update_self s.peer conn after)
              ∙ sym (ap (λ v. v.rest.state) moved.frame);
          status =
              ap (λ (p : Peer). p.status) (update_self s.peer conn after)
              ∙ sym (
                  moved.status
                  ∙ ap₂ next_status (sym shows.status ∙ at.status)
                      (Base-Tested e tq this_thread moved.base).idle);
          wants =
              ap (λ (p : Peer). not p.wants) (update_self s.peer conn after)
              ∙ sym (Base-Tested e tq this_thread moved.base).idle;
          known = ap is_some (at.known refl) ∙ sym (mapped w' nothing moved.base);
        },
      )
  handle-Shows destroying conn s sound w (is, b, may) shows =
      let at = at_stage removing s sound conn is in
      let not_up : is_connected (s.peer conn).state ≡ false = down at.opened in
      let (w', ran, dropped, _) =
        connect_destroyed-once e room tq hooks this_thread w b
          (λ on. let e = sym not_up ∙ ap is_connected (shows.state ∙ on) in grind arith) may in
      let after : Peer = record (s.peer conn) { status = new_channel } in
      let same : w'.rest ≡ w.rest = ap (λ v. v.rest) dropped.frame in
      (
        w',
        set_peer C conn after (set_found C conn none s),
        ran,
        rw (==_refl (s.server.loop_of conn), not_up)
            (remove_channel-leaves C conn new_peer s at.status (at.known refl) at.wants),
        record {
          state =
              ap (λ (p : Peer). p.state) (update_self s.peer conn after)
              ∙ shows.state
              ∙ sym (ap (λ (c : Conn). c.state) same);
          status =
              ap (λ (p : Peer). p.status) (update_self s.peer conn after)
              ∙ sym (ap (λ (c : Conn). (w'.heap c.channel).status) same ∙ dropped.forgotten);
          wants =
              ap (λ (p : Peer). not p.wants) (update_self s.peer conn after)
              ∙ shows.wants
              ∙ sym (
                  ap (λ (c : Conn). is_none_event (w'.heap c.channel)) same
                  ∙ same_mask (w'.heap w.rest.channel) (channel_of e tq w) dropped.mask);
          known =
              ap is_some
                (update_at_self s.channels (s.server.loop_of conn) (s.server.fd_of conn) none)
              ∙ sym (
                  ap (λ (c : Conn). is_some (w'.poller.channels (w'.heap c.channel).fd)) same
                  ∙ ap (λ fd. is_some (w'.poller.channels fd)) dropped.fd
                  ∙ ap is_some dropped.unmapped);
        },
      )
    where
      down : is_open (s.peer conn) ≡ false → is_connected (s.peer conn).state ≡ false
      down shut = ground arith
