-- ===== src/Server/Defs.antt =====
-- class TcpServer of core/net/tcp/tcp_server.h and tcp_server.cpp.
use network_poller.Prelude.{
  ℕ, Bool, true, false, not, ◌&&◌, Option, none, some, List, [], ◌∷◌, ◌++◌, ltb, if◌then◌else◌,
}
use network_poller.Result.{Result, ok, ◌>>=◌, ◌>>◌, assert_that, defined}
use network_poller.Poller.Epoll.{update}
use network_poller.Pool.{Pool, new_pool, initialize, get_event_loop_from_pool_for_hash}

-- What the server puts in the queue of a loop, with the connection or the acceptor it acts on.
pub data Post : Type 0 where
  listens : Post
  establishes destroys removes : ℕ → Post

-- A user's callbacks are of the type `C`; connections and loops are known by their addresses.
module _ (C : Type 0) where
  -- The callbacks of one TcpConnection that the server sets. `closes` is whether its close callback
  -- is the server's `RemoveConnection`.
  pub record Slots : Type 0 where
    pub closes : Bool
    pub msg : Option C
    pub written : Option C
    pub high_water : Option C
    pub conn_status : Option C

  -- The members of TcpServer, with the callbacks, descriptors and loops of the connections, and what
  -- was queued in each loop, oldest first. `pool` is null before `Start`.
  pub record Server : Type 0 where
    pub thread_num : ℕ
    pub started : Bool
    pub server_loop : ℕ
    pub pool : Option Pool
    pub connections : ℕ → Option ℕ
    pub msg_cb : Option C
    pub wrote_cb : Option C
    pub connection_cb : Option C
    pub high_water_cb : Option C
    pub conn_status_cb : Option C
    pub slots : ℕ → Slots
    pub fd_of : ℕ → ℕ
    pub loop_of : ℕ → ℕ
    pub posted : List (ℕ × Post)

  -- A TcpConnection as it is constructed.
  abbrev pub no_slots : Slots
  no_slots = record {
    closes = false;
    msg = none;
    written = none;
    high_water = none;
    conn_status = none;
  }

  -- The constructor.
  unfoldable pub new_server : ℕ → Server
  new_server loop = record {
    thread_num = 0;
    started = false;
    server_loop = loop;
    pool = none;
    connections = λ _. none;
    msg_cb = none;
    wrote_cb = none;
    connection_cb = none;
    high_water_cb = none;
    conn_status_cb = none;
    slots = λ _. no_slots;
    fd_of = λ _. 0;
    loop_of = λ _. 0;
    posted = [];
  }

  -- The four setters of callbacks.
  unfoldable pub set_message_cb : C → Server → Server
  set_message_cb cb s = record s { msg_cb = some cb }

  unfoldable pub set_write_complete_cb : C → Server → Server
  set_write_complete_cb cb s = record s { wrote_cb = some cb }

  unfoldable pub set_connection_cb : C → Server → Server
  set_connection_cb cb s = record s { connection_cb = some cb }

  unfoldable pub set_conn_status_cb : C → Server → Server
  set_conn_status_cb cb s = record s { conn_status_cb = some cb }

  -- SetThreadNum; `cores` is what `hardware_concurrency` returns.
  unfoldable pub set_thread_num : ℕ → ℕ → Server → Server
  set_thread_num cores num s = record s { thread_num = if ltb cores num then cores else num }

  abbrev pub post : ℕ → Post → Server → Server
  post loop what s = record s { posted = s.posted ++ (loop, what) ∷ [] }

  -- Start, with whether the exchange fails for no reason, and the loops of the new threads.
  unfoldable pub start : Bool → (ℕ → ℕ) → Server → Server
  start spurious loops s =
      if not spurious && not s.started
      then post s.server_loop listens (record s {
        started = true;
        pool = some (initialize loops (new_pool s.thread_num s.server_loop));
      })
      else s

  -- The calls of NewConnected on the new connection, in their order.
  abbrev pub with_slots : Server → Slots → Slots
  with_slots s c =
      let c1 : Slots = record c { closes = true } in
      let c2 : Slots = record c1 { written = s.wrote_cb } in
      let c3 : Slots = record c2 { conn_status = s.conn_status_cb } in
      let c4 : Slots = record c3 { msg = s.msg_cb } in
      let c5 : Slots = record c4 { written = s.wrote_cb } in record c5 { written = s.high_water_cb }

  -- The connection is entered, its callbacks are set, and its loop is asked to establish it.
  abbrev pub joined : ℕ → ℕ → ℕ → Server → Server
  joined work fd conn s = post work (establishes conn) (record s {
    connections = update s.connections fd (some conn);
    slots = update s.slots conn (with_slots s no_slots);
    fd_of = update s.fd_of conn fd;
    loop_of = update s.loop_of conn work;
  })

  -- NewConnected; `in_loop` is whether the server's loop runs on this thread, and `conn` the address
  -- of the new connection. A null `thread_pool_` is not a pool to ask.
  unfoldable pub new_connected : Bool → ℕ → ℕ → Server → Result Server
  new_connected in_loop fd conn s = do
    assert_that in_loop
    pool ← defined s.pool
    work ← defined (get_event_loop_from_pool_for_hash fd pool)
    ok (joined work fd conn s)

  -- RemoveConnectionInLoop.
  unfoldable pub remove_connection_in_loop : Bool → ℕ → Server → Result Server
  remove_connection_in_loop in_loop conn s = do
    assert_that in_loop
    ok (
        post (s.loop_of conn) (destroys conn)
          (record s { connections = update s.connections (s.fd_of conn) none }))

  -- RemoveConnection and ClosedConnection, which have the same body.
  unfoldable pub remove_connection : Bool → ℕ → Server → Result Server
  unfolding remove_connection_in_loop
  remove_connection in_loop conn s =
      if in_loop
      then remove_connection_in_loop true conn s
      else ok (post s.server_loop (removes conn) s)
