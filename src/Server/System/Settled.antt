-- ===== src/Server/System/Settled.antt =====
-- The whole life of a server: nothing that its parties may do stops the process, and once its loops
-- have run what is queued each connection is up or gone.
use network_poller.Prelude.{ℕ, zero, suc, ◌≡◌, ◌≢◌, true, false, none, some, [], ◌∷◌}
use network_poller.Result.{Result, ok, ◌>>=◌}
use network_poller.Channel.{new_channel, added_channel}
use network_poller.Server.System.Defs.{is_open, System, found, run_task, dequeue}

module _ (C : Type 0) where
  -- The loops run what is queued, the oldest functor first, until nothing is queued or the fuel is out.
  unfoldable pub drain : ℕ → System C → Result (System C)
  unfolding run_task
  drain zero s = ok s
  drain (suc fuel) s = elim s.server.posted [ [] ↦ ok s | x ∷ _ ↦ run_task C x.0 s >>= drain fuel ]

  -- A connection that the server and the poller of its loop know, and that can be read.
  pub record IsUp (s : System C) (conn : ℕ) : Type 0 where
    pub entered : s.server.connections (s.server.fd_of conn) ≡ some conn
    pub known : found C s conn ≡ some conn
    pub watched : (s.peer conn).status ≡ added_channel
    pub opened : is_open (s.peer conn) ≡ true

  -- A connection that neither the server nor any poller knows.
  pub record IsLeft (s : System C) (conn : ℕ) : Type 0 where
    pub unentered : (fd : ℕ) → s.server.connections fd ≢ some conn
    pub unknown : (loop fd : ℕ) → s.channels loop fd ≢ some conn
    pub unwatched : (s.peer conn).status ≡ new_channel
    pub unopened : is_open (s.peer conn) ≡ false

  -- Schedule of loops, one after the other, each of which found a functor.
  pub data Schedule : ℕ → System C → System C → Type 0 where
    stop : {s : System C} → Schedule 0 s s
    more :
        (loop : ℕ) {n : ℕ} {s s1 s' : System C}
        → dequeue loop s.server.posted ≢ none
        → run_task C loop s ≡ ok s1
        → Schedule n s1 s'
        → Schedule (suc n) s s'
