-- ===== src/Server/System/Frames.antt =====
-- A move touches one connection: the others stay as they are.
use network_poller.Prelude.{
  Bool, inl, inr, none, Option-cases, arith, ℕ, ◌≡◌, ◌≢◌, refl, sym, ap, ◌∙◌, true, false, some,
}
use network_poller.Poller.Epoll.{update, update_all}
use network_poller.Server.System.Defs.{Peer, is_open, System, found}
use network_poller.Server.System.Queues.{mine}
use network_poller.Server.System.Invariant.{
  in_loop_held, pending, Stage, posts_at, in_server, in_loop, is_gone, At, Sound,
}

module _ (C : Type 0) where
  -- Another connection: its state, its attributes, its functors and its entries.
  pub record Same (s s' : System C) (k : ℕ) : Type 0 where
    pub peer : s'.peer k ≡ s.peer k
    pub fd : s'.server.fd_of k ≡ s.server.fd_of k
    pub loop : s'.server.loop_of k ≡ s.server.loop_of k
    pub closes : (s'.server.slots k).closes ≡ (s.server.slots k).closes
    pub posts : mine k s'.server.posted ≡ mine k s.server.posted
    pub entry :
        s.server.connections (s.server.fd_of k) ≡ some k
        → s'.server.connections (s.server.fd_of k) ≡ some k
    pub found : found C s k ≡ some k → found C s' k ≡ some k
    pub no_entry : (fd : ℕ) → s'.server.connections fd ≡ some k → s.server.connections fd ≡ some k
    pub no_channel : (loop fd : ℕ) → s'.channels loop fd ≡ some k → s.channels loop fd ≡ some k

  pub record Beside (conn : ℕ) (st : Stage) (s s' : System C) : Type 0 where
    pub producer : s'.producer ≡ s.producer
    pub main : s'.server.server_loop ≡ s.server.server_loop
    pub pool : s'.server.pool ≡ s.server.pool
    pub others : (k : ℕ) → conn ≢ k → Same s s' k
    pub own : At C st s' conn
    pub own_entry :
        (fd : ℕ)
        → s'.server.connections fd ≡ some conn
        → (s'.server.fd_of conn ≡ fd) × (in_server st ≡ true)
    pub own_channel :
        (loop fd : ℕ)
        → s'.channels loop fd ≡ some conn
        → (s'.server.loop_of conn ≡ loop) × (s'.server.fd_of conn ≡ fd) × (in_loop st ≡ true)

  Same-At :
      (st : Stage) (s s' : System C) (k : ℕ)
      → s'.server.server_loop ≡ s.server.server_loop
      → Same s s' k
      → At C st s k
      → At C st s' k
  Same-At st s s' k main same at = record {
    posts =
        same.posts
        ∙ at.posts
        ∙ sym (ap (λ w. posts_at st w s.server.server_loop k) same.loop)
        ∙ sym (ap (λ m. posts_at st (s'.server.loop_of k) m k) main);
    status = ap (λ (p : Peer). p.status) same.peer ∙ at.status;
    wants = ap (λ (p : Peer). p.wants) same.peer ∙ at.wants;
    opened = ap is_open same.peer ∙ at.opened;
    entered = λ h. ap s'.server.connections same.fd ∙ same.entry (at.entered h);
    known = λ h. same.found (at.known h);
    closes = λ h. same.closes ∙ at.closes h;
  }

  pub Beside-Sound :
      (conn : ℕ) (st : Stage) (s s' : System C) (sound : Sound C s)
      → Beside conn st s s'
      → (is_gone st ≡ false
          → (k : ℕ) → conn ≢ k
          → is_gone (sound.stage k) ≡ false
          → s'.server.fd_of conn ≢ s.server.fd_of k)
      → Sound C s'
  Beside-Sound conn st s s' sound b alone = record {
    stage = update sound.stage conn st;
    at =
        update_all (λ k a. At C a s' k) sound.stage conn st b.own
          (λ k ne. Same-At (sound.stage k) s s' k b.main (b.others k ne) (sound.at k));
    entries = λ fd k.
        update_all
          (λ k a.
            s'.server.connections fd ≡ some k → (s'.server.fd_of k ≡ fd) × (in_server a ≡ true))
          sound.stage conn st (b.own_entry fd)
          (λ k ne here.
            let (same, listed) = sound.entries fd k ((b.others k ne).no_entry fd here) in
            ((b.others k ne).fd ∙ same, listed))
          k;
    channels = λ loop fd k.
        update_all
          (λ k a.
            s'.channels loop fd ≡ some k
            → (s'.server.loop_of k ≡ loop) × (s'.server.fd_of k ≡ fd) × (in_loop a ≡ true))
          sound.stage conn st (b.own_channel loop fd)
          (λ k ne here.
            let (same_loop, same, listed) =
              sound.channels loop fd k ((b.others k ne).no_channel loop fd here) in
            ((b.others k ne).loop ∙ same_loop, (b.others k ne).fd ∙ same, listed))
          k;
    apart = λ k j.
        update_all
          (λ k a.
            is_gone a ≡ false
            → is_gone (stages j) ≡ false
            → s'.server.fd_of k ≡ s'.server.fd_of j
            → k ≡ j)
          sound.stage conn st
          (λ held.
            update_all
              (λ j a. is_gone a ≡ false → s'.server.fd_of conn ≡ s'.server.fd_of j → conn ≡ j)
              sound.stage conn st (λ _ _. refl)
              (λ j ne held_j same. absurd (alone held j ne held_j (same ∙ (b.others j ne).fd))) j)
          (λ k ne held.
            update_all (λ j a. is_gone a ≡ false → s'.server.fd_of k ≡ s'.server.fd_of j → k ≡ j)
              sound.stage conn st
              (λ now same. absurd (alone now k ne held (sym same ∙ (b.others k ne).fd)))
              (λ j ne_j held_j same.
                sound.apart k j held held_j (sym (b.others k ne).fd ∙ same ∙ (b.others j ne_j).fd))
              j)
          k;
    pool = sound.pool;
    there = b.pool ∙ sound.there;
    small = sound.small;
    sole = rw (b.producer, b.main) sound.sole;
    served = rw (b.producer, b.main) sound.served;
  }
    where
      stages : ℕ → Stage
      stages = update sound.stage conn st

  -- Nothing happened to any connection.
  pub Same-Sound :
      (s s' : System C)
      → Sound C s
      → s'.server.server_loop ≡ s.server.server_loop
      → s'.server.pool ≡ s.server.pool
      → s'.producer ≡ s.producer
      → ((k : ℕ) → Same s s' k)
      → Sound C s'
  Same-Sound s s' sound main pool producer same =
      Beside-Sound 0 (sound.stage 0) s s' sound
        record {
          producer = producer;
          main = main;
          pool = pool;
          others = λ k _. same k;
          own = Same-At (sound.stage 0) s s' 0 main (same 0) (sound.at 0);
          own_entry = λ fd here.
              let (at_fd, listed) = sound.entries fd 0 ((same 0).no_entry fd here) in
              ((same 0).fd ∙ at_fd, listed);
          own_channel = λ loop fd here.
              let (at_loop, at_fd, listed) =
                sound.channels loop fd 0 ((same 0).no_channel loop fd here) in
              ((same 0).loop ∙ at_loop, (same 0).fd ∙ at_fd, listed);
        }
        (λ held k ne held_k e. ne (sound.apart 0 k held held_k (sym (same 0).fd ∙ e)))

  -- Before a connection is established no channel has its descriptor.
  pub unfound :
      (s : System C) (sound : Sound C s) (conn : ℕ)
      → sound.stage conn ≡ pending
      → found C s conn ≡ none
  unfound s sound conn at = elim (Option-cases (found C s conn)) [
    | inl empty ↦ empty
    | inr (k, there) ↦
        let (_, same_fd, listed) =
          sound.channels (s.server.loop_of conn) (s.server.fd_of conn) k there in
        let same =
          sound.apart k conn (in_loop_held (sound.stage k) listed) (ap is_gone at) same_fd in
        let listed' : in_loop pending ≡ true =
          sym (ap (λ j. in_loop (sound.stage j)) same ∙ ap in_loop at) ∙ listed in
        absurd (grind arith)
  ]

  -- A connection that has not gone has its descriptor alone.
  pub alone :
      (s : System C) (sound : Sound C s) (conn : ℕ)
      → is_gone (sound.stage conn) ≡ false
      → (k : ℕ) → conn ≢ k
      → is_gone (sound.stage k) ≡ false
      → s.server.fd_of conn ≢ s.server.fd_of k
  alone s sound conn held k ne held_k same = ne (sound.apart conn k held held_k same)

  -- Its entries in the pollers' maps are at its own loop and descriptor.
  pub own_place :
      (s : System C) (sound : Sound C s) (conn : ℕ) {b : Bool}
      → b ≡ true
      → (loop fd : ℕ) → s.channels loop fd ≡ some conn
      → (s.server.loop_of conn ≡ loop) × (s.server.fd_of conn ≡ fd) × (b ≡ true)
  own_place s sound conn listed loop fd there =
      let (same, same_fd, _) = sound.channels loop fd conn there in (same, same_fd, listed)
