-- ===== src/Server/System/Calls.antt =====
-- UpdateEventChannel and RemoveEventChannel of epoll_poller.cpp, where the connections call them.
use network_poller.Prelude.{ℕ, ◌≡◌, refl, ap, ◌∙◌, false, none, some, ==_refl, if◌then◌else◌}
use network_poller.Result.{ok, fault, assertion}
use network_poller.Channel.{new_channel, added_channel, delete_channel}
use network_poller.Poller.Epoll.{update, update_self, update-update}
use network_poller.Server.System.Defs.{
  Peer, System, found, set_peer, set_found, update_as, update_channel, remove_channel,
}

module _ (C : Type 0) (conn : ℕ) (p : Peer) (s : System C) where
  -- A new channel of a free descriptor is entered.
  pub update_channel-enters :
      p.status ≡ new_channel
      → found C s conn ≡ none
      → update_channel C conn (set_peer C conn p s)
        ≡ ok
            (set_peer C conn (record p { status = added_channel }) (set_found C conn (some conn) s))
  unfolding update_channel update_as
  update_channel-enters fresh free =
      ap (λ st. update_as C st conn (set_peer C conn p s))
        (ap (λ (q : Peer). q.status) (update_self s.peer conn p) ∙ fresh)
      ∙ rw
          (
            free,
            update_self s.peer conn p,
            update-update s.peer conn p (record p { status = added_channel }),
          )
          refl

  -- A channel that is out of epoll is put back, whatever its mask.
  pub update_channel-readds :
      p.status ≡ delete_channel
      → found C s conn ≡ some conn
      → update_channel C conn (set_peer C conn p s)
        ≡ ok
            (set_peer C conn (record p { status = added_channel }) (set_found C conn (some conn) s))
  unfolding update_channel update_as
  update_channel-readds out there =
      ap (λ st. update_as C st conn (set_peer C conn p s))
        (ap (λ (q : Peer). q.status) (update_self s.peer conn p) ∙ out)
      ∙ rw
          (
            there,
            update_self s.peer conn p,
            update-update s.peer conn p (record p { status = added_channel }),
          )
          refl

  -- A channel whose mask has become empty leaves epoll and stays in the map.
  pub update_channel-clears :
      p.status ≡ added_channel
      → found C s conn ≡ some conn
      → p.wants ≡ false
      → update_channel C conn (set_peer C conn p s)
        ≡ ok (set_peer C conn (record p { status = delete_channel }) s)
  unfolding update_channel update_as
  update_channel-clears old there idle =
      ap (λ st. update_as C st conn (set_peer C conn p s))
        (ap (λ (q : Peer). q.status) (update_self s.peer conn p) ∙ old)
      ∙ rw (there, ==_refl conn)
          (ap
              (λ b.
                if b
                then ok (set_peer C conn p s)
                else ok (record s {
                  peer = update (update s.peer conn p) conn (record p { status = delete_channel });
                }))
              idle
            ∙ ap (λ peer. ok (record s { peer = peer }))
                (update-update s.peer conn p (record p { status = delete_channel })))

  -- A channel with an empty mask that is not new leaves the map.
  pub remove_channel-leaves :
      (s.peer conn).status ≡ delete_channel
      → found C s conn ≡ some conn
      → (s.peer conn).wants ≡ false
      → remove_channel C conn s
        ≡ ok (
            set_peer C conn
              (record (s.peer conn) { status = new_channel })
              (set_found C conn none s))
  unfolding remove_channel
  remove_channel-leaves old there idle = rw (there, ==_refl conn, idle, old) refl

module _ (C : Type 0) (conn : ℕ) (s : System C) where
  -- So does one that epoll has with an empty mask.
  pub remove_channel-leaves_added :
      (s.peer conn).status ≡ added_channel
      → found C s conn ≡ some conn
      → (s.peer conn).wants ≡ false
      → remove_channel C conn s
        ≡ ok (
            set_peer C conn
              (record (s.peer conn) { status = new_channel })
              (set_found C conn none s))
  unfolding remove_channel
  remove_channel-leaves_added old there idle = rw (there, ==_refl conn, idle, old) refl

  -- One that the map does not have is refused.
  pub remove_channel-unmapped : found C s conn ≡ none → remove_channel C conn s ≡ fault assertion
  unfolding remove_channel
  remove_channel-unmapped absent = rw absent refl
