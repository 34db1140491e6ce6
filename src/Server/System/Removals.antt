-- ===== src/Server/System/Removals.antt =====
-- ConnectDestoryed, taken from a queue.
use network_poller.Prelude.{
  ℕ, ◌≡◌, ◌≢◌, refl, sym, ap, ap₂, ◌∙◌, true, false, none, some, inl, inr, List, ==_refl, arith,
}
use mathlib.Core.Option.{some-injective, none-ne-some}
use network_poller.Channel.{new_channel}
use network_poller.Connection.{is_connected}
use network_poller.Poller.Epoll.{update, update_self}
use network_poller.Server.Defs.{Post, destroys}
use network_poller.Server.System.Defs.{
  Peer, new_peer, is_open, System, set_peer, set_found, destroy, do_post,
}
use network_poller.Server.System.Queues.{Taken, length-Taken}
use network_poller.Server.System.Invariant.{gone, removing, in_server, Sound}
use network_poller.Server.System.Maps.{update_at_self, update_at-cases}
use network_poller.Server.System.Calls.{remove_channel-leaves}
use network_poller.Server.System.Frames.{Beside-Sound}
use network_poller.Server.System.Runs.{rest_of, touched-Same, Located, destroys-Located}
use network_poller.Server.System.Posts.{Ran}

module _ (C : Type 0) (loop : ℕ) (s : System C) (rest : List (ℕ × Post)) where
  pub destroys-Ran :
      Sound C s
      → (conn : ℕ) → Taken loop (destroys conn) s.server.posted rest
      → (s' : System C) × Ran C loop s rest (destroys conn) s'
  unfolding do_post destroy
  destroys-Ran sound conn taken = (
    s',
    record {
      ran =
          rw (l.here, ==_refl (s.server.loop_of conn), down)
            (remove_channel-leaves C conn new_peer s0 l.at.status (l.at.known refl) l.at.wants);
      sound =
          Beside-Sound C conn gone s s' sound
            record {
              producer = refl;
              main = refl;
              pool = refl;
              others = λ k ne.
                  touched-Same C s sound taken conn k after none refl ne
                    (λ h. ne (some-injective conn k (sym (l.at.known refl) ∙ h))) (none-ne-some k);
              own = record {
                posts = l.none_left;
                status = ap (λ (p : Peer). p.status) own;
                wants = ap (λ (p : Peer). p.wants) own ∙ l.at.wants;
                opened = ap is_open own ∙ l.at.opened;
                entered = λ h. absurd (grind arith);
                known = λ h. absurd (grind arith);
                closes = λ h. absurd (grind arith);
              };
              own_entry = λ fd entry.
                  let (_, listed) = sound.entries fd conn entry in
                  absurd (unlisted (sym (ap in_server l.stage) ∙ listed));
              own_channel = λ j i entry. absurd (unknown j i entry);
            }
            (λ h. absurd (grind arith));
      lighter = omega (arith, length-Taken taken);
    },
  )
    where
      after : Peer
      after = record (s.peer conn) { status = new_channel }

      s0 : System C
      s0 = rest_of C rest s

      s' : System C
      s' = set_peer C conn after (set_found C conn none s0)

      l : Located C s sound loop rest conn removing (s.server.loop_of conn)
      l = destroys-Located C s sound loop rest conn taken

      down : is_connected (s.peer conn).state ≡ false
      down = let shut = l.at.opened in ground arith

      own : update s.peer conn after conn ≡ after
      own = update_self s.peer conn after

      unlisted : in_server removing ≢ true
      unlisted h = grind arith

      unknown : (j i : ℕ) → s'.channels j i ≢ some conn
      unknown j i entry =
          elim (update_at-cases s.channels (s.server.loop_of conn) (s.server.fd_of conn) none j i) [
            | inl (same, same_fd) ↦ none-ne-some conn (
                sym (update_at_self s.channels (s.server.loop_of conn) (s.server.fd_of conn) none)
                ∙ ap₂ s'.channels same same_fd
                ∙ entry)
            | inr kept ↦
                let (same, same_fd, _) = sound.channels j i conn (sym kept ∙ entry) in
                none-ne-some conn (
                  sym (update_at_self s.channels (s.server.loop_of conn) (s.server.fd_of conn) none)
                  ∙ ap₂ s'.channels same same_fd
                  ∙ entry)
          ]
