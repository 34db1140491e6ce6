-- ===== src/Server/System/Runs.antt =====
-- A loop runs the oldest functor of its queue: ConnectEstablished, ConnectDestoryed and
-- RemoveConnectionInLoop.
use network_poller.Prelude.{
  ◌≢◌, subst, ==_refl, ℕ, ◌≡◌, ◌≢◌, refl, ap, ◌∙◌, true, Option, some, List, [], ◌∷◌, ◌==◌, ==_ne,
  arith,
}
use network_poller.Poller.Epoll.{update_ne}
use network_poller.Server.Defs.{Post, establishes, destroys, removes}
use network_poller.Server.System.Defs.{Peer, System, found, set_peer, set_found}
use network_poller.Server.System.Queues.{
  mine, concerns, Taken, mine-Taken_other, mine-Taken_some, mine-Taken_only,
}
use network_poller.Server.System.Invariant.{At, Stage, gone, pending, up, removing, posts_at, Sound}
use network_poller.Server.System.Maps.{update_at_kept, update_at_back}
use network_poller.Server.System.Frames.{Same}

-- The stage tells the functor, and the functor the stage.
pending_of :
    (st : Stage) (work main conn loop c : ℕ)
    → posts_at st work main conn ≡ (loop, establishes c) ∷ []
    → (st ≡ pending) × (loop ≡ work)
pending_of pending work main conn loop c e = (refl, grind arith)
pending_of gone work main conn loop c e = grind arith
pending_of up work main conn loop c e = grind arith
pending_of removing work main conn loop c e = grind arith

-- No stage queues a RemoveConnectionInLoop.
never_removes :
    (st : Stage) (work main conn loop c : ℕ) → posts_at st work main conn ≢ (loop, removes c) ∷ []
never_removes gone work main conn loop c e = grind arith
never_removes pending work main conn loop c e = grind arith
never_removes up work main conn loop c e = grind arith
never_removes removing work main conn loop c e = grind arith

removing_of :
    (st : Stage) (work main conn loop c : ℕ)
    → posts_at st work main conn ≡ (loop, destroys c) ∷ []
    → (st ≡ removing) × (loop ≡ work)
removing_of removing work main conn loop c e = (refl, grind arith)
removing_of gone work main conn loop c e = grind arith
removing_of up work main conn loop c e = grind arith
removing_of pending work main conn loop c e = grind arith

-- The system once a functor is off the queue.
abbrev pub rest_of : (C : Type 0) → List (ℕ × Post) → System C → System C
rest_of C rest s = record s { server = record s.server { posted = rest } }

module _ (C : Type 0) (s : System C) (sound : Sound C s) {loop : ℕ} {what : Post}
    {rest : List (ℕ × Post)} (taken : Taken loop what s.server.posted rest) where
  -- The functor that is taken is the only one of its connection, and it is the one of the stage.
  Taken-posts :
      (conn : ℕ)
      → concerns conn what ≡ true
      → (posts_at (sound.stage conn) (s.server.loop_of conn) s.server.server_loop conn
          ≡ (loop, what) ∷ [])
        × (mine conn rest ≡ [])
  Taken-posts conn its = go (sound.stage conn) (sound.at conn).posts
    where
      go :
          (st : Stage)
          → mine conn s.server.posted
            ≡ posts_at st (s.server.loop_of conn) s.server.server_loop conn
          → (posts_at st (s.server.loop_of conn) s.server.server_loop conn ≡ (loop, what) ∷ [])
            × (mine conn rest ≡ [])
      go gone e = absurd (mine-Taken_some conn taken its e)
      go up e = absurd (mine-Taken_some conn taken its e)
      go pending e =
          let (same, empty) = mine-Taken_only conn taken its e in (ap (λ x. x ∷ []) same, empty)
      go removing e =
          let (same, empty) = mine-Taken_only conn taken its e in (ap (λ x. x ∷ []) same, empty)

  -- A connection whose functor was not taken keeps its own.
  pub other_posts :
      (conn k : ℕ) → concerns k what ≡ (conn == k) → conn ≢ k → mine k rest ≡ mine k s.server.posted
  other_posts conn k about ne = mine-Taken_other k taken (about ∙ ==_ne conn k ne)

  -- If then only the connection and its entry in its poller's map change, the others stay.
  pub touched-Same :
      (conn k : ℕ) (p : Peer) (entry : Option ℕ)
      → concerns k what ≡ (conn == k)
      → conn ≢ k
      → found C s conn ≢ some k
      → entry ≢ some k
      → Same C s (set_peer C conn p (set_found C conn entry (rest_of C rest s))) k
  touched-Same conn k p entry about ne free other = record {
    peer = update_ne s.peer conn p k ne;
    fd = refl;
    loop = refl;
    closes = refl;
    posts = other_posts conn k about ne;
    entry = λ e. e;
    found =
        update_at_kept s.channels (s.server.loop_of conn) (s.server.fd_of conn) entry k
          (s.server.loop_of k) (s.server.fd_of k) free;
    no_entry = λ fd e. e;
    no_channel = λ l i.
        update_at_back s.channels (s.server.loop_of conn) (s.server.fd_of conn) entry k l i other;
  }

module _ (C : Type 0) (s : System C) (sound : Sound C s) (loop : ℕ) (rest : List (ℕ × Post))
    (conn : ℕ) where
  -- Where the connection of the functor that `loop` has taken stands, and the loop it was queued for.
  pub record Located (st : Stage) (runner : ℕ) : Type 0 where
    pub stage : sound.stage conn ≡ st
    pub here : loop ≡ runner
    pub at : At C st s conn
    pub none_left : mine conn rest ≡ []

  locate :
      {st : Stage} {runner : ℕ}
      → (sound.stage conn ≡ st) × (loop ≡ runner)
      → mine conn rest ≡ []
      → Located st runner
  locate (is, here) empty = record {
    stage = is;
    here = here;
    at = subst (λ a. At C a s conn) is (sound.at conn);
    none_left = empty;
  }

  pub establishes-Located :
      Taken loop (establishes conn) s.server.posted rest → Located pending (s.server.loop_of conn)
  establishes-Located taken =
      let (posts, empty) = Taken-posts C s sound taken conn (==_refl conn) in
      locate
        (pending_of (sound.stage conn) (s.server.loop_of conn) s.server.server_loop conn loop conn
          posts)
        empty

  -- With one producer for each queue, the server's loop is never asked to remove a connection.
  pub removes-never : Taken loop (removes conn) s.server.posted rest → ⊥
  removes-never taken =
      let (posts, _) = Taken-posts C s sound taken conn (==_refl conn) in
      never_removes (sound.stage conn) (s.server.loop_of conn) s.server.server_loop conn loop conn
        posts

  pub destroys-Located :
      Taken loop (destroys conn) s.server.posted rest → Located removing (s.server.loop_of conn)
  destroys-Located taken =
      let (posts, empty) = Taken-posts C s sound taken conn (==_refl conn) in
      locate
        (removing_of (sound.stage conn) (s.server.loop_of conn) s.server.server_loop conn loop conn
          posts)
        empty
