-- ===== src/Server/System/Producers.antt =====
-- The producers of the loops' queues.
use network_poller.Prelude.{
  ℕ, ◌≡◌, refl, ap, ◌∙◌, ◌⊎◌, ◌==◌, if◌then◌else◌, inl, inr, none, some, ==_refl,
}
use network_poller.Result.{ok, fault, undefined}
use network_poller.Poller.Epoll.{update, update_all}
use network_poller.Server.System.Defs.{System, produce}
use network_poller.Server.System.Invariant.{Sound}

pub produce-kept :
    (C : Type 0) (thread loop : ℕ) {other : ℕ} (s : System C)
    → s.producer loop ≡ some other
    → produce C thread loop s ≡ (if other == thread then ok s else fault undefined)
unfolding produce
produce-kept C thread loop s e = rw (e, produce) refl

produce-first :
    (C : Type 0) (thread loop : ℕ) (s : System C)
    → s.producer loop ≡ none
    → produce C thread loop s ≡ ok (record s { producer = update s.producer loop (some thread) })
unfolding produce
produce-first C thread loop s e = rw (e, produce) refl

module _ (C : Type 0) (s : System C) (sound : Sound C s) where
  -- The thread of the server's loop may enqueue for every loop.
  pub produce-Sound :
      (loop : ℕ) → (s' : System C) × (produce C s.server.server_loop loop s ≡ ok s') × Sound C s'
  produce-Sound loop = elim (sound.sole loop) [
    | inr its ↦ (
      s,
      produce-kept C s.server.server_loop loop s its ∙ rw (==_refl s.server.server_loop) refl,
      sound,
    )
    | inl free ↦ (
      s',
      first free,
      record {
        stage = sound.stage;
        at = λ k. record {
          posts = (sound.at k).posts;
          status = (sound.at k).status;
          wants = (sound.at k).wants;
          opened = (sound.at k).opened;
          entered = (sound.at k).entered;
          known = (sound.at k).known;
          closes = (sound.at k).closes;
        };
        entries = sound.entries;
        channels = sound.channels;
        apart = sound.apart;
        pool = sound.pool;
        there = sound.there;
        small = sound.small;
        sole = λ q.
            update_all (λ _ p. (p ≡ none) ⊎ (p ≡ some s.server.server_loop)) s.producer loop
              (some s.server.server_loop) (inr refl) (λ j _. sound.sole j) q;
        served =
            update_all (λ q p. q ≡ s.server.server_loop → p ≡ some s.server.server_loop) s.producer
              loop (some s.server.server_loop) (λ _. refl)
              (λ j _ is. ap s.producer is ∙ sound.served) s.server.server_loop refl;
      },
    )
  ]
    where
      s' : System C
      s' = record s { producer = update s.producer loop (some s.server.server_loop) }

      first : s.producer loop ≡ none → produce C s.server.server_loop loop s ≡ ok s'
      first free = produce-first C s.server.server_loop loop s free
