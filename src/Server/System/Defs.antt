-- ===== src/Server/System/Defs.antt =====
-- A server with its connections and its loops: TcpServer of core/net/tcp/tcp_server.cpp, the life of
-- a TcpConnection in core/net/tcp/tcp_connection.cpp, the poller's map of each loop in
-- core/net/poller_impl/epoll_poller.cpp, and the loops' queues.
use network_poller.Prelude.{
  ℕ, Bool, true, false, not, ◌&&◌, ◌||◌, Option, none, some, List, [], ◌∷◌, ◌==◌, if◌then◌else◌,
}
use network_poller.Result.{Result, ok, fault, undefined, ◌>>=◌, ◌>>◌, assert_that}
use network_poller.Channel.{Status, new_channel, added_channel, delete_channel}
use network_poller.Poller.Epoll.{update}
use network_poller.Poller.{is_none, is_some, points_to}
use network_poller.Connection.{
  ConnState, connecting, connected, disconnected, disconnecting, is_connected, is_disconnecting,
}
use network_poller.Server.Defs.{
  Post, listens, establishes, destroys, removes, Server, new_connected, remove_connection_in_loop,
  remove_connection,
}

-- Of a TcpConnection, its state, and of its channel the status in the poller and whether the mask has
-- a flag.
pub record Peer : Type 0 where
  pub state : ConnState
  pub status : Status
  pub wants : Bool

-- A TcpConnection as it is constructed, which is also what stands at an address that has none.
abbrev pub new_peer : Peer
new_peer = record { state = connecting; status = new_channel; wants = false }

-- Open is a connection that is connected or disconnecting.
abbrev pub is_open : Peer → Bool
is_open p = is_connected p.state || is_disconnecting p.state

-- The oldest functor in the queue of a loop, and what the queues hold without it.
unfoldable pub dequeue : ℕ → List (ℕ × Post) → Option (Post × List (ℕ × Post))
dequeue loop [] = none
dequeue loop (x ∷ xs) = elim (loop == x.0) [
  | true ↦ some (x.1, xs)
  | false ↦ elim (dequeue loop xs) [ none ↦ none | some found ↦ some (found.0, x ∷ found.1) ]
]

-- What can happen next: the acceptor hands over the descriptor `fd`, for which `conn` is constructed;
-- a loop runs a functor; the thread `by` calls `Shutdown` or `ForceClose` of a connection; the loop of
-- a connection runs `ForceCloseInLoop`; or it runs `CloseHandler` for an event.
pub data Move : Type 0 where
  arrives : (fd conn : ℕ) → Move
  runs : (loop : ℕ) → Move
  shuts : (by : ℕ) (spurious : Bool) (conn : ℕ) → Move
  forces closes : (conn : ℕ) → Move

module _ (C : Type 0) where
  -- The server, the connections by their addresses, and the map of each loop's poller from a
  -- descriptor to the connection whose channel it holds. `producer` is the thread that has put functors
  -- in the queue of a loop; threads are known by the loops that they run.
  pub record System : Type 0 where
    pub server : Server C
    pub peer : ℕ → Peer
    pub channels : ℕ → ℕ → Option ℕ
    pub producer : ℕ → Option ℕ

  -- The loop and the descriptor of a connection, and its entry in the map of that loop.
  abbrev pub work_loop : System → ℕ → ℕ
  work_loop s conn = s.server.loop_of conn

  abbrev pub found : System → ℕ → Option ℕ
  found s conn = s.channels (s.server.loop_of conn) (s.server.fd_of conn)

  abbrev pub set_peer : ℕ → Peer → System → System
  set_peer conn p s = record s { peer = update s.peer conn p }

  abbrev pub set_found : ℕ → Option ℕ → System → System
  set_found conn entry s = record s {
    channels =
        update s.channels (s.server.loop_of conn)
          (update (s.channels (s.server.loop_of conn)) (s.server.fd_of conn) entry);
  }

  -- A `moodycamel::ReaderWriterQueue` is for one producing thread, which never changes; what another
  -- thread's `enqueue` does is not defined.
  unfoldable pub produce : ℕ → ℕ → System → Result System
  produce thread loop s = elim (s.producer loop) [
    | none ↦ ok (record s { producer = update s.producer loop (some thread) })
    | some other ↦ if other == thread then ok s else fault undefined
  ]

  -- UpdateEventChannel of the connection's channel, which `EnableReading` and `DisableAll` call once
  -- they have changed the mask, by the status that the channel has.
  unfoldable pub update_as : Status → ℕ → System → Result System
  update_as new_channel conn s = do
    assert_that (is_none (found s conn))
    ok (
        set_peer conn (record (s.peer conn) { status = added_channel })
          (set_found conn (some conn) s))
  update_as added_channel conn s = do
    assert_that (is_some (found s conn))
    assert_that (points_to (found s conn) conn)
    (if (s.peer conn).wants
        then ok s
        else ok (set_peer conn (record (s.peer conn) { status = delete_channel }) s))
  update_as delete_channel conn s = do
    assert_that (is_some (found s conn))
    ok (
        set_peer conn (record (s.peer conn) { status = added_channel })
          (set_found conn (some conn) s))

  unfoldable pub update_channel : ℕ → System → Result System
  unfolding update_as
  update_channel conn s = update_as (s.peer conn).status conn s

  -- RemoveEventChannel of the connection's channel, which `RemoveFromLoop` calls.
  unfoldable pub remove_channel : ℕ → System → Result System
  remove_channel conn s = do
    let p = s.peer conn
    assert_that (points_to (found s conn) conn)
    assert_that (not p.wants)
    assert_that (elim p.status [ new_channel ↦ false | _ ↦ true ])
    ok (set_peer conn (record p { status = new_channel }) (set_found conn none s))

  -- ConnectEstablished, on the loop `loop`. The user's callback is left out, here and below.
  unfoldable pub establish : ℕ → ℕ → System → Result System
  unfolding update_channel
  establish loop conn s = do
    assert_that (loop == work_loop s conn)
    update_channel conn (set_peer conn (record (s.peer conn) { state = connected; wants = true }) s)

  -- SetState(DISCONNECTED) and DisableAll.
  unfoldable pub disconnect : ℕ → System → Result System
  unfolding update_channel
  disconnect conn s =
      update_channel conn
        (set_peer conn (record (s.peer conn) { state = disconnected; wants = false }) s)

  -- ConnectDestoryed, on the loop `loop`.
  unfoldable pub destroy : ℕ → ℕ → System → Result System
  unfolding disconnect remove_channel
  destroy loop conn s = do
    assert_that (loop == work_loop s conn)
    s1 ← if is_connected (s.peer conn).state then disconnect conn s else ok s
    remove_channel conn s1

  -- CloseHandler on the connection's loop. Its close callback is the server's RemoveConnection, which
  -- enqueues for the server's loop; if that is the connection's, RemoveConnectionInLoop does so.
  unfoldable pub close_peer : ℕ → System → Result System
  unfolding disconnect remove_connection produce
  close_peer conn s = do
    s1 ← disconnect conn s
    assert_that (s1.server.slots conn).closes
    s2 ← produce (work_loop s1 conn) s1.server.server_loop s1
    server ← remove_connection C (work_loop s2 conn == s2.server.server_loop) conn s2.server
    ok (record s2 { server = server })

  -- A functor that `loop` takes from its queue.
  unfoldable pub do_post : ℕ → Post → System → Result System
  unfolding establish destroy remove_connection_in_loop produce
  do_post loop listens s = ok s
  do_post loop (establishes conn) s = establish loop conn s
  do_post loop (destroys conn) s = destroy loop conn s
  do_post loop (removes conn) s = do
    server ← remove_connection_in_loop C (loop == s.server.server_loop) conn s.server
    produce loop (work_loop s conn) (record s { server = server })

  -- RunTaskFuncs of a loop: one functor of its queue, if there is one.
  unfoldable pub run_task : ℕ → System → Result System
  unfolding dequeue do_post
  run_task loop s = elim (dequeue loop s.server.posted) [
    | none ↦ ok s
    | some taken ↦ do_post loop taken.0 (record s { server = record s.server { posted = taken.1 } })
  ]

  -- Shutdown and ForceClose on the thread `by`: the state changes, and a functor is enqueued for the
  -- connection's loop. What ShutdownInLoop does is not seen here, and ForceCloseInLoop is a move of its
  -- own. The exchange may fail for no reason.
  unfoldable pub shut_peer : ℕ → Bool → ℕ → System → Result System
  unfolding produce
  shut_peer by spurious conn s =
      let p = s.peer conn in
      if not spurious && is_connected p.state
      then produce by (work_loop s conn) (set_peer conn (record p { state = disconnecting }) s)
      else ok s

  -- ForceCloseInLoop.
  unfoldable pub force_close_peer : ℕ → System → Result System
  unfolding close_peer
  force_close_peer conn s = if is_open (s.peer conn) then close_peer conn s else ok s

  -- NewConnected, on the server's loop: a connection is constructed at the address `conn`.
  unfoldable pub arrive : ℕ → ℕ → System → Result System
  unfolding new_connected produce
  arrive fd conn s = do
    server ← new_connected C true fd conn s.server
    produce s.server.server_loop (server.loop_of conn)
        (record s { server = server; peer = update s.peer conn new_peer })

  unfoldable pub do_move : Move → System → Result System
  unfolding arrive run_task shut_peer force_close_peer close_peer
  do_move (arrives fd conn) s = arrive fd conn s
  do_move (runs loop) s = run_task loop s
  do_move (shuts by spurious conn) s = shut_peer by spurious conn s
  do_move (forces conn) s = force_close_peer conn s
  do_move (closes conn) s = close_peer conn s
