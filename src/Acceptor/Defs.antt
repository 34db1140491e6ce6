-- ===== src/Acceptor/Defs.antt =====
-- class TcpAcceptor of core/net/tcp/tcp_acceptor.h and tcp_acceptor.cpp.
use network_poller.Prelude.{
  ℕ, Bool, true, false, ◌||◌, Option, none, some, List, [], ◌∷◌, ◌++◌, ◌==◌, if◌then◌else◌,
}
use network_poller.Result.{Result, ok, ◌>>=◌, ◌>>◌, assert_that}
use network_poller.Poller.Epoll.{Epoll}
use network_poller.Loop.External.{TaskQueue}
use network_poller.Loop.{World, is_in_loop_thread, enable_reading, disable_all, remove_from_loop}
use network_poller.Acceptor.Files.{Files}

abbrev pub eagain : ℕ
eagain = 11

abbrev pub ewouldblock : ℕ
ewouldblock = 11

abbrev pub enfile : ℕ
enfile = 23

abbrev pub emfile : ℕ
emfile = 24

-- What awaits one call of `Accept`: a connection, or an error other than that of a full table; with
-- the error, whether a connection is there for the second `accept`.
pub data Attempt : Type 0 where
  pending : Attempt
  failing : (errno : ℕ) (again : Bool) → Attempt

-- The test of the branch that gives up the reserve, as C reads it.
abbrev pub relieves : ℕ → Bool
relieves errno =
    enfile == errno || (if emfile == 0 then false else true) || (if errno == 0 then false else true)

module _ (files : Files) where
  open files use {Table, close, obtain}

  -- The members of TcpAcceptor, with the descriptor table. `handed` are the descriptors that the
  -- callback has been given, `listening` whether `listen` was called.
  pub record Acceptor : Type 0 where
    pub channel : ℕ
    pub idle_fd : ℕ
    pub has_callback : Bool
    pub listening : Bool
    pub handed : List ℕ
    pub table : Table

  -- What a table is after `open` or `accept`, whatever they return.
  abbrev pub after_obtain : Table → Table
  after_obtain t = elim (obtain t) [ none ↦ t | some (fd, t') ↦ t' ]

  -- The constructor; a reserve that could not be opened is not modelled.
  unfoldable pub new_acceptor : ℕ → Table → Option Acceptor
  new_acceptor channel t = elim (obtain t) [
    | none ↦ none
    | some (fd, t') ↦ some (record {
      channel = channel;
      idle_fd = fd;
      has_callback = false;
      listening = false;
      handed = [];
      table = t';
    })
  ]

  unfoldable pub set_new_connection_cb : Acceptor → Acceptor
  set_new_connection_cb a = record a { has_callback = true }

  -- The four calls of the branch for an error.
  unfoldable pub relieve : Bool → Acceptor → Acceptor
  relieve again a =
      let t1 = close a.idle_fd a.table in
      let t2 = if again then after_obtain t1 else t1 in
      let t3 = close a.idle_fd t2 in record a { table = after_obtain t3 }

  -- A connection with a descriptor.
  unfoldable pub take_connection : ℕ → Table → Acceptor → Acceptor
  take_connection fd t a =
      if a.has_callback
      then record a { handed = a.handed ++ fd ∷ []; table = t }
      else record a { table = close fd t }

  -- After an error: the Boolean is whether the loop ends.
  unfoldable pub on_error : ℕ → Bool → Acceptor → Bool × Acceptor
  unfolding relieve
  on_error errno again a =
      if eagain == errno || ewouldblock == errno
      then (true, a)
      else (false, if relieves errno then relieve again a else a)

  -- One iteration. A connection for which the table has no room is the error EMFILE, and stays.
  unfoldable pub accept_once : Attempt → Acceptor → Bool × Acceptor
  unfolding take_connection on_error
  accept_once pending a = elim (obtain a.table) [
    | none ↦ on_error emfile true a
    | some (fd, t) ↦ (false, take_connection fd t a)
  ]
  accept_once (failing errno again) a = on_error errno again a

  -- The loop of AcceptHandle over what awaits it. The Boolean is whether it has ended.
  unfoldable pub accept_loop : List Attempt → Acceptor → Bool × Acceptor
  unfolding accept_once
  accept_loop [] a = (false, a)
  accept_loop (x ∷ xs) a =
      let (done, a') = accept_once x a in
      let rest = accept_loop xs a' in if done then (true, a') else rest

  module _ (e : Epoll) {Task : Type 0} (tq : TaskQueue Task) where
    -- AcceptHandle.
    unfoldable pub accept_handle :
        ℕ → List Attempt → World e tq Acceptor → Result (Bool × World e tq Acceptor)
    accept_handle this_thread xs w = do
      assert_that (is_in_loop_thread e tq this_thread w)
      let (done, a) = accept_loop xs w.rest
      ok (done, record w { rest = a })

    -- Listen.
    unfoldable pub listen : ℕ → World e tq Acceptor → Result (World e tq Acceptor)
    listen this_thread w = do
      assert_that (is_in_loop_thread e tq this_thread w)
      enable_reading e tq this_thread w.rest.channel
          (record w { rest = record w.rest { listening = true } })

    -- The destructor; the members' own destructors stand outside.
    unfoldable pub close_acceptor : ℕ → World e tq Acceptor → Result (World e tq Acceptor)
    close_acceptor this_thread w = do
      w1 ← disable_all e tq this_thread w.rest.channel w
      w2 ← remove_from_loop e tq this_thread w.rest.channel w1
      ok (record w2 { rest = record w2.rest { table = close w2.rest.idle_fd w2.rest.table } })
