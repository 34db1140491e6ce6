-- ===== src/Client/Defs.antt =====
-- class TcpClient of core/net/tcp/tcp_client.h and tcp_client.cpp.
use network_poller.Prelude.{
  ℕ, Bool, true, false, Option, none, some, List, [], ◌∷◌, ◌++◌, ◌==◌, if◌then◌else◌,
}
use network_poller.Result.{Result, ok, fault, assertion, undefined, ◌>>=◌, ◌>>◌, assert_that}
use network_poller.Poller.Epoll.{update}

-- What the client calls of its TcpConnector.
pub record ConnectorCalls : Type 1 where
  pub State : Type 0
  pub set_new_connection_cb : State → State
  pub start : State → Result State
  pub stop : State → Result State

-- The close callback of a connection: empty, `TcpClient::RemoveConnection` of the client that made
-- it, or the function `RemoveConnection` that only knows the loop.
pub data CloseCb : Type 0 where
  unset client_removes loop_removes : CloseCb

-- What the client puts in its loop's queue, with the connection it acts on.
pub data Post : Type 0 where
  destroys sets_close_cb : ℕ → Post

-- A user's callbacks are of the type `C`; connections and loops are known by their addresses.
module _ (C : Type 0) (connector : ConnectorCalls) where
  open connector use {State}

  -- The callbacks of one TcpConnection that the client sets.
  pub record Slots : Type 0 where
    pub close : CloseCb
    pub msg : Option C
    pub written : Option C
    pub conn_status : Option C

  -- The members of TcpClient, with the callbacks and loops of the connections it made, what it has
  -- queued in its loop, the connections that it called ConnectEstablished and Shutdown of, and
  -- whether it is still there.
  pub record Client : Type 0 where
    pub loop : ℕ
    pub connector_state : State
    pub connection : Option ℕ
    pub msg_cb : Option C
    pub wrote_cb : Option C
    pub conn_status_cb : Option C
    pub slots : ℕ → Slots
    pub loop_of : ℕ → ℕ
    pub posted : List Post
    pub established : List ℕ
    pub shut_down : List ℕ
    pub alive : Bool

  -- A TcpConnection as it is constructed.
  abbrev pub no_slots : Slots
  no_slots = record { close = unset; msg = none; written = none; conn_status = none }

  -- The constructor.
  unfoldable pub new_client : ℕ → State → Client
  new_client loop made = record {
    loop = loop;
    connector_state = connector.set_new_connection_cb made;
    connection = none;
    msg_cb = none;
    wrote_cb = none;
    conn_status_cb = none;
    slots = λ _. no_slots;
    loop_of = λ _. 0;
    posted = [];
    established = [];
    shut_down = [];
    alive = true;
  }

  unfoldable pub set_message_cb : C → Client → Client
  set_message_cb cb c = record c { msg_cb = some cb }

  unfoldable pub set_write_complete_cb : C → Client → Client
  set_write_complete_cb cb c = record c { wrote_cb = some cb }

  unfoldable pub set_conn_status_cb : C → Client → Client
  set_conn_status_cb cb c = record c { conn_status_cb = some cb }

  unfoldable pub connect : Client → Result Client
  connect c = do s ← connector.start c.connector_state; ok (record c { connector_state = s })

  unfoldable pub stop : Client → Result Client
  stop c = do s ← connector.stop c.connector_state; ok (record c { connector_state = s })

  unfoldable pub disconnect : Client → Client
  disconnect c = elim c.connection [
    | none ↦ c
    | some conn ↦ record c { shut_down = c.shut_down ++ conn ∷ [] }
  ]

  abbrev pub post : Post → Client → Client
  post what c = record c { posted = c.posted ++ what ∷ [] }

  -- The four setters that NewConnection calls, in their order.
  abbrev pub with_slots : Client → Slots → Slots
  with_slots c s =
      let s1 : Slots = record s { conn_status = c.conn_status_cb } in
      let s2 : Slots = record s1 { msg = c.msg_cb } in
      let s3 : Slots = record s2 { written = c.wrote_cb } in record s3 { close = client_removes }

  -- NewConnection; `in_loop` is whether the loop runs on this thread, and `conn` the address of the
  -- new connection.
  unfoldable pub new_connection : Bool → ℕ → Client → Result Client
  new_connection in_loop conn c = do
    assert_that in_loop
    ok (record c {
      connection = some conn;
      slots = update c.slots conn (with_slots c no_slots);
      loop_of = update c.loop_of conn c.loop;
      established = c.established ++ conn ∷ [];
    })

  -- TcpClient::RemoveConnection.
  unfoldable pub remove_connection : Bool → ℕ → Client → Result Client
  remove_connection in_loop conn c = do
    assert_that in_loop
    assert_that (c.loop == c.loop_of conn)
    ok (post (destroys conn) (record c { connection = none }))

  -- The function RemoveConnection.
  unfoldable pub loop_remove_connection : ℕ → Client → Client
  loop_remove_connection conn c = post (destroys conn) c

  -- `SetCloseCB` of a connection with that function, as the destructor has it run in the loop.
  unfoldable pub set_close_cb : ℕ → Client → Client
  set_close_cb conn c = record c {
    slots = update c.slots conn (record (c.slots conn) { close = loop_removes });
  }

  -- What the destructor does about the connection.
  unfoldable pub let_go : Bool → Option ℕ → Client → Client
  unfolding set_close_cb
  let_go in_loop none c = c
  let_go true (some conn) c = set_close_cb conn c
  let_go false (some conn) c = post (sets_close_cb conn) c

  -- The destructor.
  unfoldable pub close_client : Bool → Client → Client
  unfolding let_go
  close_client in_loop c = let_go in_loop c.connection (record c { alive = false })

  -- A call of the close callback. That of a client that is gone is a call of a member of a destroyed
  -- object.
  unfoldable pub close_by : CloseCb → ℕ → Client → Result Client
  unfolding remove_connection loop_remove_connection
  close_by unset conn c = fault assertion
  close_by client_removes conn c =
      if c.alive then remove_connection true conn c else fault undefined
  close_by loop_removes conn c = ok (loop_remove_connection conn c)

  -- The end of TcpConnection::CloseHandler, in the loop.
  unfoldable pub call_close_cb : ℕ → Client → Result Client
  unfolding close_by
  call_close_cb conn c = close_by (c.slots conn).close conn c
