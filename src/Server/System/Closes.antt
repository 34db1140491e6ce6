-- ===== src/Server/System/Closes.antt =====
-- CloseHandler: the close of a connection is seen on the server's loop, or on another.
use network_poller.Prelude.{
  ℕ, ◌≡◌, ◌≢◌, refl, sym, ap, ◌∙◌, true, false, none, [], ◌∷◌, ◌++◌, some, append_assoc, append-nil,
  ◌==◌, ==_refl, ==_ne, subst, arith,
}
use mathlib.Core.Option.{some-injective}
use network_poller.Result.{ok, fault, undefined, assertion}
use network_poller.Channel.{delete_channel}
use network_poller.Connection.{disconnected}
use network_poller.Poller.Epoll.{update, update_self, update_ne}
use network_poller.Server.Defs.{Post, destroys, remove_connection_in_loop, remove_connection}
use network_poller.Server.System.Defs.{
  Peer, is_open, System, set_peer, close_peer, disconnect, destroy,
}
use network_poller.Server.System.Queues.{mine, concerns, mine-append}
use network_poller.Server.System.Invariant.{up, removing, is_gone, At, Sound}
use network_poller.Server.System.Maps.{erased_kept, erased_back, erased_own, update_at_self}
use network_poller.Server.System.Calls.{update_channel-clears}
use network_poller.Server.System.Frames.{alone, own_place, Beside-Sound}
use network_poller.Server.System.Producers.{produce-kept}
use network_poller.Server.System.Twice.{readded, again, close_peer-again, destroy-twice}

module _ (C : Type 0) (s : System C) (sound : Sound C s) (conn : ℕ)
    (is : sound.stage conn ≡ up) where
  at : At C up s conn
  at = subst (λ st. At C st s conn) is (sound.at conn)

  -- The connection when its mask is empty and its state DISCONNECTED.
  abbrev before : Peer
  before = record (s.peer conn) { state = disconnected; wants = false }

  abbrev after : Peer
  after = record before { status = delete_channel }

  own : update s.peer conn after conn ≡ after
  own = update_self s.peer conn after

  -- What the server's own loop makes of it.
  abbrev pub erased : System C
  erased = record (set_peer C conn after s) {
    server = record s.server {
      connections = update s.server.connections (s.server.fd_of conn) none;
      posted = s.server.posted ++ (s.server.loop_of conn, destroys conn) ∷ [];
    };
  }

  -- Another connection's functors are what they were.
  others_posts :
      (loop : ℕ) (what : Post) (k : ℕ)
      → concerns k what ≡ false
      → mine k (s.server.posted ++ (loop, what) ∷ []) ≡ mine k s.server.posted
  others_posts loop what k other =
      mine-append k s.server.posted ((loop, what) ∷ [])
      ∙ rw other (append-nil (mine k s.server.posted))

  -- Its own is the new one.
  own_posts :
      (loop : ℕ) (what : Post)
      → concerns conn what ≡ true
      → mine conn (s.server.posted ++ (loop, what) ∷ []) ≡ (loop, what) ∷ []
  own_posts loop what its =
      mine-append conn s.server.posted ((loop, what) ∷ []) ∙ rw (at.posts, its) refl

  held : is_gone (sound.stage conn) ≡ false
  held = ap is_gone is

  erased-Sound : Sound C erased
  erased-Sound =
      Beside-Sound C conn removing s erased sound
        record {
          producer = refl;
          main = refl;
          pool = refl;
          others = λ k ne. record {
            peer = update_ne s.peer conn after k ne;
            fd = refl;
            loop = refl;
            closes = refl;
            posts = others_posts (s.server.loop_of conn) (destroys conn) k (==_ne conn k ne);
            entry =
                erased_kept s.server.connections (s.server.fd_of conn) k (s.server.fd_of k)
                  (λ h. ne (some-injective conn k (sym (at.entered refl) ∙ h)));
            found = λ e. e;
            no_entry = erased_back s.server.connections (s.server.fd_of conn) k;
            no_channel = λ _ _ e. e;
          };
          own = record {
            posts = own_posts (s.server.loop_of conn) (destroys conn) (==_refl conn);
            status = ap (λ (p : Peer). p.status) own;
            wants = ap (λ (p : Peer). p.wants) own;
            opened = ap is_open own;
            entered = λ h. absurd (grind arith);
            known = λ _. at.known refl;
            closes = λ _. at.closes refl;
          };
          own_entry = λ fd e. absurd (
              erased_own s.server.connections (s.server.fd_of conn) conn
                (λ j h. (sound.entries j conn h).0) fd e);
          own_channel = λ l i e. own_place C s sound conn refl l i e;
        }
        (λ _. alone C s sound conn held)

  pub close_peer-erased :
      s.server.loop_of conn ≡ s.server.server_loop → close_peer C conn s ≡ ok erased
  unfolding close_peer disconnect remove_connection remove_connection_in_loop
  close_peer-erased home =
      let own_queue : (s.server.server_loop == s.server.loop_of conn) ≡ true = ground arith in
      let at_home : (s.server.loop_of conn == s.server.server_loop) ≡ true = ground arith in
      rw
        (
          update_channel-clears C conn before s at.status (at.known refl) refl,
          at.closes refl,
          produce-kept C (s.server.loop_of conn) s.server.server_loop (set_peer C conn after s)
              sound.served,
          own_queue,
          at_home,
        )
        refl

  -- CloseHandler on the server's loop of a connection that is up returns, and what it leaves is sound.
  pub close_peer-Sound :
      s.server.loop_of conn ≡ s.server.server_loop
      → (s' : System C) × (close_peer C conn s ≡ ok s') × Sound C s'
  close_peer-Sound home = (erased, close_peer-erased home, erased-Sound)

  -- On another loop its enqueue for the server's loop would be that of a second producer.
  pub close_peer-undefined :
      s.server.server_loop ≢ s.server.loop_of conn → close_peer C conn s ≡ fault undefined
  unfolding close_peer disconnect
  close_peer-undefined away =
      rw
        (
          update_channel-clears C conn before s at.status (at.known refl) refl,
          at.closes refl,
          produce-kept C (s.server.loop_of conn) s.server.server_loop (set_peer C conn after s)
              sound.served,
          ==_ne s.server.server_loop (s.server.loop_of conn) away,
        )
        refl

  -- If CloseHandler is called for it a second time, it is put back into epoll, and of the two
  -- ConnectDestoryed that are then queued the second stops at an assertion.
  pub closed_twice :
      s.server.loop_of conn ≡ s.server.server_loop
      → (s2 s3 : System C) × (close_peer C conn erased ≡ ok s2)
        × (s2.server.posted
            ≡ s.server.posted
              ++ (s.server.server_loop, destroys conn) ∷ (s.server.server_loop, destroys conn) ∷ [])
        × (destroy C s.server.server_loop conn s2 ≡ ok s3)
        × (destroy C s.server.server_loop conn s3 ≡ fault assertion)
  closed_twice home =
      let task : ℕ × Post = (s.server.loop_of conn, destroys conn) in
      let s2 = again C conn erased in
      let now : update erased.peer conn (readded C conn erased) conn ≡ readded C conn erased =
        update_self erased.peer conn (readded C conn erased) in
      let (s3, first, second) =
        destroy-twice C conn s2 (ap (λ (p : Peer). p.state) now) (ap (λ (p : Peer). p.status) now)
          (ap (λ (p : Peer). p.wants) now)
          (update_at_self s.channels (s.server.loop_of conn) (s.server.fd_of conn) (some conn)) in
      (
        s2,
        s3,
        close_peer-again C conn erased (ap (λ (p : Peer). p.status) own) (at.known refl)
            (at.closes refl) sound.served home,
        append_assoc s.server.posted (task ∷ []) (task ∷ [])
            ∙ ap (λ l. s.server.posted ++ (l, destroys conn) ∷ (l, destroys conn) ∷ []) home,
        ap (λ l. destroy C l conn s2) (sym home) ∙ first,
        ap (λ l. destroy C l conn s3) (sym home) ∙ second,
      )
