-- ===== src/Server/System/Invariant.antt =====
-- What holds of a server, its loops and its connections between two moves.
use network_poller.Prelude.{
  ℕ, ◌<◌, ◌≡◌, ◌≢◌, ◌⊎◌, refl, Bool, true, false, none, some, List, [], ◌∷◌, length, arith,
}
use network_poller.Result.{ok}
use network_poller.Buffer.{u32_mod}
use network_poller.Channel.{Status, new_channel, added_channel, delete_channel}
use network_poller.Poller.Epoll.{update}
use network_poller.Pool.{Pool}
use network_poller.Server.Defs.{Post, establishes, destroys, new_server, set_thread_num, start}
use network_poller.Server.System.Defs.{
  new_peer, is_open, System, found, Move, arrives, runs, shuts, forces, closes, do_move,
}
use network_poller.Server.System.Queues.{mine}

-- Where a connection stands: there is none at this address, its loop has yet to establish it, it is
-- established, its loop has yet to destroy it.
pub data Stage : Type 0 where
  gone pending up removing : Stage

-- The one functor that the queues then hold for it.
abbrev pub posts_at : Stage → ℕ → ℕ → ℕ → List (ℕ × Post)
posts_at gone work main conn = []
posts_at pending work main conn = (work, establishes conn) ∷ []
posts_at up work main conn = []
posts_at removing work main conn = (work, destroys conn) ∷ []

abbrev pub status_at : Stage → Status
status_at gone = new_channel
status_at pending = new_channel
status_at up = added_channel
status_at removing = delete_channel

abbrev pub is_up : Stage → Bool
is_up up = true
is_up _ = false

-- Whether it stands in the server's map, and in the map of its loop's poller.
abbrev pub in_server : Stage → Bool
in_server gone = false
in_server removing = false
in_server _ = true

abbrev pub in_loop : Stage → Bool
in_loop gone = false
in_loop pending = false
in_loop _ = true

abbrev pub is_gone : Stage → Bool
is_gone gone = true
is_gone _ = false

-- What stands in a map is not gone.
pub in_server_held : (st : Stage) → in_server st ≡ true → is_gone st ≡ false
in_server_held gone h = grind arith
in_server_held pending h = refl
in_server_held up h = refl
in_server_held removing h = grind arith

pub in_loop_held : (st : Stage) → in_loop st ≡ true → is_gone st ≡ false
in_loop_held gone h = grind arith
in_loop_held pending h = grind arith
in_loop_held up h = refl
in_loop_held removing h = refl

module _ (C : Type 0) where
  pub record At (st : Stage) (s : System C) (conn : ℕ) : Type 0 where
    pub posts :
        mine conn s.server.posted ≡ posts_at st (s.server.loop_of conn) s.server.server_loop conn
    pub status : (s.peer conn).status ≡ status_at st
    pub wants : (s.peer conn).wants ≡ is_up st
    pub opened : is_open (s.peer conn) ≡ is_up st
    pub entered : in_server st ≡ true → s.server.connections (s.server.fd_of conn) ≡ some conn
    pub known : in_loop st ≡ true → found C s conn ≡ some conn
    pub closes : is_gone st ≡ false → (s.server.slots conn).closes ≡ true

  -- Each connection is at a stage. An entry of the server's map is that of a connection which belongs
  -- there under its descriptor, likewise one of a poller's map, and no two connections share a
  -- descriptor. The pool is there, with fewer than 2^32 loops. Each queue has no producer but the
  -- thread of the server's loop, which is that of its own queue.
  pub record Sound (s : System C) : Type 0 where
    pub stage : ℕ → Stage
    pub at : (conn : ℕ) → At (stage conn) s conn
    pub entries :
        (fd conn : ℕ)
        → s.server.connections fd ≡ some conn
        → (s.server.fd_of conn ≡ fd) × (in_server (stage conn) ≡ true)
    pub channels :
        (loop fd conn : ℕ)
        → s.channels loop fd ≡ some conn
        → (s.server.loop_of conn ≡ loop)
          × (s.server.fd_of conn ≡ fd)
          × (in_loop (stage conn) ≡ true)
    pub apart :
        (conn other : ℕ)
        → is_gone (stage conn) ≡ false
        → is_gone (stage other) ≡ false
        → s.server.fd_of conn ≡ s.server.fd_of other
        → conn ≡ other
    pub pool : Pool
    pub there : s.server.pool ≡ some pool
    pub small : length pool.loops < u32_mod
    pub sole : (loop : ℕ) → (s.producer loop ≡ none) ⊎ (s.producer loop ≡ some s.server.server_loop)
    pub served : s.producer s.server.server_loop ≡ some s.server.server_loop

  -- No queue holds a functor of the connection, and no poller has a channel of it.
  pub record IsGone (s : System C) (conn : ℕ) : Type 0 where
    pub unposted : mine conn s.server.posted ≡ []
    pub unknown : (s.peer conn).status ≡ new_channel

  -- What the other parties see to. `accept` returns a descriptor that is not open, so no connection
  -- has it that has not gone, and a new object is not at the address of one that is in use. CloseHandler
  -- is called for a channel that is registered with epoll, so not a second time after a message callback
  -- has closed the connection. Whoever makes a connection enqueue runs on the thread of the server's
  -- loop, as the queues are for one producer.
  abbrev pub Allowed : Move → System C → Type 0
  Allowed (arrives fd conn) s = IsGone s conn × ((k : ℕ) → IsGone s k ⊎ (s.server.fd_of k ≢ fd))
  Allowed (runs loop) s = Unit
  Allowed (shuts by spurious conn) s = by ≡ s.server.server_loop
  Allowed (forces conn) s = s.server.loop_of conn ≡ s.server.server_loop
  Allowed (closes conn) s =
      ((s.peer conn).status ≡ added_channel) × (s.server.loop_of conn ≡ s.server.server_loop)

  -- The server has been started on the thread of its loop, its acceptor has not yet listened, and there is no connection.
  abbrev pub begin : ℕ → ℕ → ℕ → (ℕ → ℕ) → System C
  begin main cores num loops = record {
    server = start C false loops (set_thread_num C cores num (new_server C main));
    peer = λ _. new_peer;
    channels = λ _ _. none;
    producer = update (λ _. none) main (some main);
  }

  -- What can be reached from there, by moves that are allowed.
  pub data Reachable (main cores num : ℕ) (loops : ℕ → ℕ) : System C → Type 0 where
    starts : Reachable main cores num loops (begin main cores num loops)
    next :
        (m : Move) {s s' : System C}
        → Reachable main cores num loops s
        → Allowed m s
        → do_move C m s ≡ ok s'
        → Reachable main cores num loops s'
