-- ===== src/Server/System/Posts.antt =====
-- What a functor from a queue must leave, and ConnectEstablished.
use network_poller.Prelude.{
  ℕ, suc, length, ◌≡◌, refl, sym, ap, ◌∙◌, true, none, some, inl, inr, List, ==_refl, arith,
}
use mathlib.Core.Option.{some-injective, none-ne-some}
use network_poller.Result.{ok}
use network_poller.Channel.{added_channel}
use network_poller.Connection.{connected}
use network_poller.Poller.Epoll.{update, update_self}
use network_poller.Server.Defs.{Post, establishes}
use network_poller.Server.System.Defs.{
  Peer, is_open, System, found, set_peer, set_found, establish, do_post,
}
use network_poller.Server.System.Queues.{Taken, length-Taken}
use network_poller.Server.System.Invariant.{pending, up, is_gone, Sound}
use network_poller.Server.System.Maps.{update_at_self, update_at-cases}
use network_poller.Server.System.Calls.{update_channel-enters}
use network_poller.Server.System.Frames.{unfound, alone, own_place, Beside-Sound}
use network_poller.Server.System.Runs.{rest_of, touched-Same, Located, establishes-Located}

module _ (C : Type 0) (loop : ℕ) (s : System C) (rest : List (ℕ × Post)) where
  -- The functor returns, and what it leaves is sound and one run nearer to empty queues.
  pub record Ran (what : Post) (s' : System C) : Type 0 where
    pub ran : do_post C loop what (rest_of C rest s) ≡ ok s'
    pub sound : Sound C s'
    pub lighter : suc (length s'.server.posted) ≡ length s.server.posted

  pub establishes-Ran :
      Sound C s
      → (conn : ℕ) → Taken loop (establishes conn) s.server.posted rest
      → (s' : System C) × Ran (establishes conn) s'
  unfolding do_post establish
  establishes-Ran sound conn taken = (
    s',
    record {
      ran =
          rw (l.here, ==_refl (s.server.loop_of conn))
            (update_channel-enters C conn before s0 l.at.status free);
      sound =
          Beside-Sound C conn up s s' sound
            record {
              producer = refl;
              main = refl;
              pool = refl;
              others = λ k ne.
                  touched-Same C s sound taken conn k after (some conn) refl ne
                    (λ h. none-ne-some k (sym free ∙ h)) (λ h. ne (some-injective conn k h));
              own = record {
                posts = l.none_left;
                status = ap (λ (p : Peer). p.status) own;
                wants = ap (λ (p : Peer). p.wants) own;
                opened = ap is_open own;
                entered = λ _. l.at.entered refl;
                known = λ _.
                    update_at_self s.channels (s.server.loop_of conn) (s.server.fd_of conn)
                      (some conn);
                closes = λ _. l.at.closes refl;
              };
              own_entry = λ fd here. ((sound.entries fd conn here).0, refl);
              own_channel = λ j i here.
                  elim (update_at-cases s.channels (s.server.loop_of conn) (s.server.fd_of conn)
                    (some conn) j i) [
                      | inl (same, same_fd) ↦ (same, same_fd, refl)
                      | inr kept ↦ own_place C s sound conn refl j i (sym kept ∙ here)
                    ];
            }
            (λ _. alone C s sound conn (ap is_gone l.stage));
      lighter = omega (arith, length-Taken taken);
    },
  )
    where
      before : Peer
      before = record (s.peer conn) { state = connected; wants = true }

      after : Peer
      after = record before { status = added_channel }

      s0 : System C
      s0 = rest_of C rest s

      s' : System C
      s' = set_peer C conn after (set_found C conn (some conn) s0)

      l : Located C s sound loop rest conn pending (s.server.loop_of conn)
      l = establishes-Located C s sound loop rest conn taken

      free : found C s conn ≡ none
      free = unfound C s sound conn l.stage

      own : update s.peer conn after conn ≡ after
      own = update_self s.peer conn after
