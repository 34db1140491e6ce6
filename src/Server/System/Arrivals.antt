-- ===== src/Server/System/Arrivals.antt =====
-- NewConnected: a connection comes.
use network_poller.Prelude.{
  ℕ, ◌≡◌, ◌≢◌, refl, sym, ap, ap₂, ◌∙◌, true, false, some, inl, inr, [], ◌∷◌, append-nil, ==_refl,
  ==_ne, subst, arith,
}
use mathlib.Core.Option.{some-injective}
use network_poller.Result.{ok}
use network_poller.Poller.Epoll.{update, update_self, update_ne, same_or_not}
use network_poller.Pool.{get_event_loop_from_pool_for_hash}
use network_poller.Server.Defs.{establishes, Slots, new_connected, joined}
use network_poller.Server.Connections.{hash_found}
use network_poller.Server.System.Defs.{Peer, new_peer, is_open, System, arrives, do_move, arrive}
use network_poller.Server.System.Queues.{mine, mine-append}
use network_poller.Server.System.Invariant.{
  Stage, gone, pending, up, removing, is_gone, At, Sound, IsGone, Allowed, in_server_held,
  in_loop_held,
}
use network_poller.Server.System.Frames.{Beside-Sound}
use network_poller.Server.System.Producers.{produce-Sound}

module _ (C : Type 0) (s : System C) (sound : Sound C s) where
  -- A connection of which no queue and no poller knows is gone.
  pub IsGone-stage : (k : ℕ) → IsGone C s k → sound.stage k ≡ gone
  IsGone-stage k h = go (sound.stage k) (sound.at k)
    where
      go : (st : Stage) → At C st s k → st ≡ gone
      go gone at = refl
      go pending at = let e = sym h.unposted ∙ at.posts in absurd (grind arith)
      go up at = let e = sym h.unknown ∙ at.status in absurd (grind arith)
      go removing at = let e = sym h.unposted ∙ at.posts in absurd (grind arith)

  new_connected-joins :
      (fd conn work : ℕ)
      → get_event_loop_from_pool_for_hash fd sound.pool ≡ some work
      → new_connected C true fd conn s.server ≡ ok (joined C work fd conn s.server)
  unfolding new_connected
  new_connected-joins fd conn work chosen = rw (sound.there, chosen) refl

  -- A new connection at an address and with a descriptor that are free.
  pub arrives-Sound :
      (fd conn : ℕ)
      → Allowed C (arrives fd conn) s
      → (s' : System C) × (do_move C (arrives fd conn) s ≡ ok s') × Sound C s'
  unfolding do_move arrive
  arrives-Sound fd conn (fresh, free) =
      let (s2, ran, sound2) = produce-Sound C s' s'-Sound (s'.server.loop_of conn) in
      (s2, rw joins ran, sound2)
    where
      chosen : (work : ℕ) × (get_event_loop_from_pool_for_hash fd sound.pool ≡ some work)
      chosen = hash_found C fd sound.pool sound.small

      work : ℕ
      work = chosen.0

      joins : new_connected C true fd conn s.server ≡ ok (joined C work fd conn s.server)
      joins = new_connected-joins fd conn work chosen.1

      s' : System C
      s' = record s { server = joined C work fd conn s.server; peer = update s.peer conn new_peer }

      at : At C gone s conn
      at = subst (λ st. At C st s conn) (IsGone-stage conn fresh) (sound.at conn)

      own : update s.peer conn new_peer conn ≡ new_peer
      own = update_self s.peer conn new_peer

      own_fd : update s.server.fd_of conn fd conn ≡ fd
      own_fd = update_self s.server.fd_of conn fd

      vacant : (k : ℕ) → is_gone (sound.stage k) ≡ false → s.server.fd_of k ≢ fd
      vacant k held same = elim (free k) [
        | inl other ↦ let e = sym held ∙ ap is_gone (IsGone-stage k other) in absurd (grind arith)
        | inr ne ↦ ne same
      ]

      none_own : is_gone (sound.stage conn) ≢ false
      none_own held = let e = sym held ∙ ap is_gone (IsGone-stage conn fresh) in grind arith

      not_own :
          (k : ℕ)
          → conn ≢ k
          → (j : ℕ) → update s.server.connections fd (some conn) j ≡ some k
          → s.server.connections j ≡ some k
      not_own k ne j e = elim (same_or_not fd j) [
        | inl same ↦ absurd (
            ne (
              some-injective conn k (
                sym (update_self s.server.connections fd (some conn))
                ∙ ap (update s.server.connections fd (some conn)) same
                ∙ e)))
        | inr apart ↦ sym (update_ne s.server.connections fd (some conn) j apart) ∙ e
      ]

      only : (j : ℕ) → update s.server.connections fd (some conn) j ≡ some conn → fd ≡ j
      only j e = elim (same_or_not fd j) [
        | inl same ↦ same
        | inr apart ↦ absurd (
            none_own (
              in_server_held (sound.stage conn)
                (sound.entries j conn
                  (sym (update_ne s.server.connections fd (some conn) j apart) ∙ e)).1))
      ]

      s'-Sound : Sound C s'
      s'-Sound =
          Beside-Sound C conn pending s s' sound
            record {
              producer = refl;
              main = refl;
              pool = refl;
              others = λ k ne. record {
                peer = update_ne s.peer conn new_peer k ne;
                fd = update_ne s.server.fd_of conn fd k ne;
                loop = update_ne s.server.loop_of conn work k ne;
                closes = ap (λ (c : Slots C). c.closes) (update_ne s.server.slots conn _ k ne);
                posts =
                    mine-append k s.server.posted ((work, establishes conn) ∷ [])
                    ∙ rw (==_ne conn k ne) (append-nil (mine k s.server.posted));
                entry = λ e.
                    update_ne s.server.connections fd (some conn) (s.server.fd_of k) (λ same.
                      vacant k
                        (in_server_held (sound.stage k) (sound.entries (s.server.fd_of k) k e).1)
                        (sym same))
                    ∙ e;
                found = λ e.
                    ap₂ s.channels (update_ne s.server.loop_of conn work k ne)
                      (update_ne s.server.fd_of conn fd k ne)
                    ∙ e;
                no_entry = λ j e. not_own k ne j e;
                no_channel = λ _ _ e. e;
              };
              own = record {
                posts =
                    mine-append conn s.server.posted ((work, establishes conn) ∷ [])
                    ∙ rw (fresh.unposted, ==_refl conn) refl;
                status = ap (λ (p : Peer). p.status) own;
                wants = ap (λ (p : Peer). p.wants) own;
                opened = ap is_open own;
                entered = λ _.
                    ap (update s.server.connections fd (some conn)) own_fd
                    ∙ update_self s.server.connections fd (some conn);
                known = λ h. absurd (grind arith);
                closes = λ _. ap (λ (c : Slots C). c.closes) (update_self s.server.slots conn _);
              };
              own_entry = λ j e. (own_fd ∙ only j e, refl);
              own_channel = λ l i e.
                  absurd (none_own (in_loop_held (sound.stage conn) (sound.channels l i conn e).2));
            }
            (λ _ k ne held same. vacant k held (sym same ∙ own_fd))
