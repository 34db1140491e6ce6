-- ===== src/Server/Connections.antt =====
-- tcp_server.cpp: a connection's way into the server's map and its loop's queue, and out again.
use network_poller.Prelude.{
  ℕ, ◌≤◌, ◌<◌, ◌≡◌, ◌≢◌, refl, sym, ap, ◌∙◌, Bool, true, false, none, some, inl, inr, [], ◌∷◌, ◌++◌,
  arith, length, append_assoc, Bool-cases,
}
use network_poller.Result.{ok}
use network_poller.Buffer.{u32_mod}
use network_poller.Poller.Epoll.{update_self, update_ne, same_or_not}
use network_poller.Pool.{
  Pool, get_event_loop_from_pool_for_hash, get_event_loop_from_pool_for_hash-total,
}
use network_poller.Server.Defs.{
  establishes, destroys, removes, Slots, Server, set_thread_num, start, joined, new_connected,
  remove_connection_in_loop, remove_connection,
}

module _ (C : Type 0) where
  pub hash_found :
      (fd : ℕ) (p : Pool)
      → length p.loops < u32_mod
      → (work : ℕ) × (get_event_loop_from_pool_for_hash fd p ≡ some work)
  hash_found fd p small = elim (get_event_loop_from_pool_for_hash-total fd p small) [
    | inl (_, main) ↦ (p.main_loop, main)
    | inr (_, x, _, _, chosen) ↦ (x, chosen)
  ]

  -- A new connection: its loop is the one that the pool chooses by the descriptor, and that loop is
  -- asked to establish it; the other connections stay.
  pub record Joined (fd conn work : ℕ) (s s' : Server C) : Type 0 where
    pub entered : s'.connections fd ≡ some conn
    pub others : (j : ℕ) → fd ≢ j → s'.connections j ≡ s.connections j
    pub descriptor : s'.fd_of conn ≡ fd
    pub loop : s'.loop_of conn ≡ work
    pub closes : (s'.slots conn).closes ≡ true
    pub msg : (s'.slots conn).msg ≡ s.msg_cb
    pub conn_status : (s'.slots conn).conn_status ≡ s.conn_status_cb
    pub posted : s'.posted ≡ s.posted ++ (work, establishes conn) ∷ []
    pub same_loop : s'.server_loop ≡ s.server_loop
    pub same_pool : s'.pool ≡ s.pool

  -- On the server's loop, once the pool is there, NewConnected returns: the connection stands in the
  -- map under its descriptor, closes through the server, has the message and status callbacks of the
  -- server, and one loop, that of its hash, is asked to establish it.
  pub new_connected-Joined :
      (fd conn : ℕ) (s : Server C) (p : Pool)
      → s.pool ≡ some p
      → length p.loops < u32_mod
      → (work : ℕ) × (s' : Server C) × (get_event_loop_from_pool_for_hash fd p ≡ some work)
        × (new_connected C true fd conn s ≡ ok s')
        × Joined fd conn work s s'
  unfolding new_connected
  new_connected-Joined fd conn s p there small =
      let (work, chosen) = hash_found fd p small in
      (
        work,
        joined C work fd conn s,
        chosen,
        rw (there, chosen) refl,
        record {
          entered = update_self s.connections fd (some conn);
          others = λ j ne. update_ne s.connections fd (some conn) j ne;
          descriptor = update_self s.fd_of conn fd;
          loop = update_self s.loop_of conn work;
          closes = ap (λ (c : Slots C). c.closes) (update_self s.slots conn _);
          msg = ap (λ (c : Slots C). c.msg) (update_self s.slots conn _);
          conn_status = ap (λ (c : Slots C). c.conn_status) (update_self s.slots conn _);
          posted = refl;
          same_loop = refl;
          same_pool = refl;
        },
      )

  -- A connection that comes and goes leaves the map as it was, and its loop has been asked to
  -- establish it and, after that, to destroy it. If its close is seen on another thread, the server's
  -- loop is first asked to remove it, and nothing else changes.
  pub new_connected-removed :
      (fd conn : ℕ) (s : Server C) (p : Pool)
      → s.pool ≡ some p
      → length p.loops < u32_mod
      → s.connections fd ≡ none
      → (work : ℕ) × (s1 s2 s3 : Server C) × (new_connected C true fd conn s ≡ ok s1)
        × (remove_connection C true conn s1 ≡ ok s2)
        × ((j : ℕ) → s2.connections j ≡ s.connections j)
        × (s2.posted ≡ s.posted ++ (work, establishes conn) ∷ (work, destroys conn) ∷ [])
        × (remove_connection C false conn s1 ≡ ok s3)
        × (s3.posted ≡ s1.posted ++ (s.server_loop, removes conn) ∷ [])
        × (s3.connections ≡ s1.connections)
  unfolding remove_connection remove_connection_in_loop
  new_connected-removed fd conn s p there small vacant =
      let (work, s1, _, ran, new) = new_connected-Joined fd conn s p there small in
      (
        work,
        s1,
        _,
        _,
        ran,
        refl,
        λ k. rw new.descriptor (elim (same_or_not fd k) [
          | inl same ↦ rw (← same) (update_self s1.connections fd none ∙ sym vacant)
          | inr ne ↦ update_ne s1.connections fd none k ne ∙ new.others k ne
        ]),
        ap (λ l. s1.posted ++ (l, destroys conn) ∷ []) new.loop
            ∙ ap (λ ps. ps ++ (work, destroys conn) ∷ []) new.posted
            ∙ append_assoc s.posted ((work, establishes conn) ∷ []) ((work, destroys conn) ∷ []),
        refl,
        ap (λ l. s1.posted ++ (l, removes conn) ∷ []) new.same_loop,
        refl,
      )

  -- A second Start does nothing, and the number of threads never exceeds that of the cores.
  pub start-once :
      (spurious : Bool) (loops other : ℕ → ℕ) (cores num : ℕ) (s : Server C)
      → (start C spurious other (start C false loops s) ≡ start C false loops s)
        × ((set_thread_num C cores num s).thread_num ≤ cores)
  unfolding start set_thread_num
  start-once spurious loops other cores num s =
      (elim (Bool-cases s.started) [ inl on ↦ ground arith | inr off ↦ ground arith ], ground arith)
