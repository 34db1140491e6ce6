-- ===== src/Server/Accepted.antt =====
-- tcp_acceptor.cpp and tcp_server.cpp together: what AcceptHandle hands over, and where it goes.
use network_poller.Prelude.{
  ℕ, ◌<◌, ◌≡◌, refl, sym, ap, ◌∙◌, subst, Bool, true, false, Option, some, inl, inr, List, [], ◌∷◌,
  ◌++◌, arith, length, append_assoc, append-nil, ◌==◌, ==_ne, if◌then◌else◌,
}
use network_poller.Result.{Result, ok, ◌>>=◌}
use network_poller.Buffer.{u32_mod}
use network_poller.Poller.Epoll.{Epoll, same_or_not}
use network_poller.Pool.{Pool}
use network_poller.Loop.{member, World, one_round, run_task_funcs}
use network_poller.Acceptor.Files.{Files}
use network_poller.Channel.{Ready, report}
use network_poller.Poller.{happened}
use network_poller.Loop.External.{TaskQueue}
use network_poller.Acceptor.{Acceptor, connections, Takes, handle_arrivals, one_round-connections}
use network_poller.Server.Defs.{Post, establishes, Server, new_connected}
use network_poller.Server.Connections.{new_connected-Joined}

module _ (C : Type 0) where
  -- The acceptor's callback, for one descriptor after the other; `conn_of` gives the addresses of
  -- the new connections.
  pub take_each : (ℕ → ℕ) → List ℕ → Server C → Result (Server C)
  take_each conn_of [] s = ok s
  take_each conn_of (fd ∷ fds) s = new_connected C true fd (conn_of fd) s >>= take_each conn_of fds

  abbrev pub tasks_of : List (ℕ × Post) → List Post
  tasks_of [] = []
  tasks_of ((loop, what) ∷ posts) = what ∷ tasks_of posts

  tasks_of-append : (xs ys : List (ℕ × Post)) → tasks_of (xs ++ ys) ≡ tasks_of xs ++ tasks_of ys
  tasks_of-append [] ys = refl
  tasks_of-append ((loop, what) ∷ xs) ys = ap (◌∷◌ what) (tasks_of-append xs ys)

  abbrev pub to_establish : (ℕ → ℕ) → List ℕ → List Post
  to_establish conn_of [] = []
  to_establish conn_of (fd ∷ fds) = establishes (conn_of fd) ∷ to_establish conn_of fds

  -- What the server has after it was given descriptors.
  pub record Filled (conn_of : ℕ → ℕ) (fds : List ℕ) (s s' : Server C) : Type 0 where
    pub entered :
        (j : ℕ) → s'.connections j ≡ (if member j fds then some (conn_of j) else s.connections j)
    pub asked : tasks_of s'.posted ≡ tasks_of s.posted ++ to_establish conn_of fds

  same_if : (b : Bool) (o : Option ℕ) → (if b then o else o) ≡ o
  same_if true o = refl
  same_if false o = refl

  at_self :
      (conn_of : ℕ → ℕ) (fds : List ℕ) (j fd : ℕ) (s s1 : Server C)
      → fd ≡ j
      → s1.connections j ≡ some (conn_of j)
      → (if member j fds then some (conn_of j) else s1.connections j)
        ≡ (if member j (fd ∷ fds) then some (conn_of j) else s.connections j)
  at_self conn_of fds j fd s s1 same entered =
      let here : (j == fd) ≡ true = ground (arith, same) in
      rw (entered, here) (same_if (member j fds) (some (conn_of j)))

  take_each-Filled :
      (conn_of : ℕ → ℕ) (fds : List ℕ) (s : Server C) (p : Pool)
      → s.pool ≡ some p
      → length p.loops < u32_mod
      → (s' : Server C) × (take_each conn_of fds s ≡ ok s') × Filled conn_of fds s s'
  unfolding take_each
  take_each-Filled conn_of [] s p there small =
      (s, refl, record { entered = λ j. refl; asked = sym (append-nil (tasks_of s.posted)) })
  take_each-Filled conn_of (fd ∷ fds) s p there small =
      let (work, s1, _, ran, joined) = new_connected-Joined C fd (conn_of fd) s p there small in
      let (s2, rest, filled) = take_each-Filled conn_of fds s1 p (joined.same_pool ∙ there) small in
      (
        s2,
        rw ran rest,
        record {
          entered = λ j. filled.entered j ∙ elim (same_or_not fd j) [
            | inl same ↦
                at_self conn_of fds j fd s s1 same
                  (subst (λ k. s1.connections k ≡ some (conn_of k)) same joined.entered)
            | inr ne ↦ rw (==_ne j fd (λ e. ne (sym e)), joined.others j ne) refl
          ];
          asked =
              filled.asked
              ∙ ap (λ xs. tasks_of xs ++ to_establish conn_of fds) joined.posted
              ∙ ap (λ ts. ts ++ to_establish conn_of fds)
                  (tasks_of-append s.posted ((work, establishes (conn_of fd)) ∷ []))
              ∙ append_assoc (tasks_of s.posted) (establishes (conn_of fd) ∷ [])
                  (to_establish conn_of fds);
        },
      )

  -- If epoll reports that the listening socket can be read, the descriptor table has room for all
  -- connections that wait, the callback of the acceptor is the server's NewConnected, and the server
  -- has its pool, then in one round of the acceptor's loop every connection that waited comes to
  -- stand in the server's map under its descriptor, the other entries are what they were, and one
  -- ConnectEstablished is queued for each, in the order of their arrival.
  pub one_round-Filled :
      (files : Files) (e : Epoll) {Task : Type 0} (tq : TaskQueue Task) (this_thread : ℕ)
      (exec : Task → World e tq (Acceptor files) → Result (World e tq (Acceptor files)))
      (others : ℕ → World e tq (Acceptor files) → Result (World e tq (Acceptor files))) (r : Ready)
      (fds : List ℕ) (again : Bool) (t : files.Table) (w : World e tq (Acceptor files))
      (conn_of : ℕ → ℕ) (s : Server C) (p : Pool)
      → r.readable ≡ true
      → this_thread ≡ w.thread_id
      → this_thread ≡ w.poller.thread_id
      → w.rest.has_callback ≡ true
      → w.rest.handed ≡ []
      → Takes files fds w.rest.table t
      → s.pool ≡ some p
      → length p.loops < u32_mod
      → (w' : World e tq (Acceptor files)) × (s' : Server C) × (one_round e tq exec
            (handle_arrivals files e tq this_thread others w.rest.channel (connections fds again))
            this_thread
            (happened ((report r, w.rest.channel) ∷ []))
            w
          ≡ run_task_funcs e tq exec
              (handle_arrivals files e tq this_thread others w.rest.channel (connections fds again))
              w')
        × (take_each conn_of w'.rest.handed s ≡ ok s')
        × Filled conn_of fds s s'
  one_round-Filled files e tq this_thread exec others r fds again t w conn_of s p readable here
        thread set none_yet takes there small =
      let (w', ran, rest) =
        one_round-connections files e tq this_thread exec others r fds again t w readable here
          thread set takes in
      let (s', served, filled) = take_each-Filled conn_of fds s p there small in
      let handed : w'.rest.handed ≡ fds =
        ap (λ (a : Acceptor files). a.handed) rest ∙ ap (λ xs. xs ++ fds) none_yet in
      (w', s', ran, ap (λ xs. take_each conn_of xs s) handed ∙ served, filled)
