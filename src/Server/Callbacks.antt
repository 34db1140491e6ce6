-- ===== src/Server/Callbacks.antt =====
-- The user's callbacks of tcp_server.h, and which of them reach a connection.
use network_poller.Prelude.{
  ℕ, ◌≡◌, refl, ap, ◌∙◌, subst, Bool, true, false, not, ◌&&◌, none, inl, inr, List, [], ◌∷◌,
  Bool-cases,
}
use network_poller.Result.{Result, ok, fault, ◌>>=◌, assert_that, defined}
use network_poller.Poller.Epoll.{update_all}
use network_poller.Pool.{get_event_loop_from_pool_for_hash}
use network_poller.Server.Defs.{
  Slots, Server, new_server, set_message_cb, set_write_complete_cb, set_connection_cb,
  set_conn_status_cb, set_thread_num, start, joined, no_slots, with_slots, new_connected,
  remove_connection, remove_connection_in_loop,
}

module _ (C : Type 0) where
  -- All that the user, the acceptor and the connections can ask of a server.
  pub data Request : Type 0 where
    sets_message sets_write_complete sets_connection sets_conn_status : C → Request
    sets_threads : ℕ → ℕ → Request
    starts : Bool → (ℕ → ℕ) → Request
    connects : Bool → ℕ → ℕ → Request
    removes_connection : Bool → ℕ → Request

  unfoldable pub serve : Request → Server C → Result (Server C)
  serve (sets_message cb) s = ok (set_message_cb C cb s)
  serve (sets_write_complete cb) s = ok (set_write_complete_cb C cb s)
  serve (sets_connection cb) s = ok (set_connection_cb C cb s)
  serve (sets_conn_status cb) s = ok (set_conn_status_cb C cb s)
  serve (sets_threads cores num) s = ok (set_thread_num C cores num s)
  serve (starts spurious loops) s = ok (start C spurious loops s)
  serve (connects in_loop fd conn) s = new_connected C in_loop fd conn s
  serve (removes_connection in_loop conn) s = remove_connection C in_loop conn s

  unfoldable pub serve_each : List Request → Server C → Result (Server C)
  unfolding serve
  serve_each [] s = ok s
  serve_each (r ∷ rs) s = do s' ← serve r s; serve_each rs s'

  -- No callback for a finished write is set, for no connection.
  record Silent (s : Server C) : Type 0 where
    no_source : s.high_water_cb ≡ none
    unset : (conn : ℕ) → (s.slots conn).written ≡ none

  -- A step that keeps the two members keeps the property.
  same-Silent :
      {s s' : Server C}
      → Silent s
      → s'.high_water_cb ≡ s.high_water_cb
      → s'.slots ≡ s.slots
      → Silent s'
  same-Silent h same slots = record {
    no_source = same ∙ h.no_source;
    unset = λ conn. ap (λ f. (f conn).written) slots ∙ h.unset conn;
  }

  joined-Silent : (work fd conn : ℕ) (s : Server C) → Silent s → Silent (joined C work fd conn s)
  joined-Silent work fd conn s h = record {
    no_source = h.no_source;
    unset =
        update_all (λ _ (c : Slots C). c.written ≡ none) s.slots conn (with_slots C s (no_slots C))
          h.no_source (λ k _. h.unset k);
  }

  -- A property of the state that a call leaves, where it leaves one.
  abbrev Leaves : (Server C → Type 0) → Result (Server C) → Type 0
  Leaves P (ok s) = P s
  Leaves P (fault f) = Unit {0}

  Leaves-bind :
      {A : Type 0} (P : Server C → Type 0) (m : Result A) (f : A → Result (Server C))
      → ((a : A) → Leaves P (f a))
      → Leaves P (m >>= f)
  Leaves-bind P (ok a) f h = h a
  Leaves-bind P (fault e) f h = tt

  Leaves-then :
      (m : Result (Server C)) (f : Server C → Result (Server C))
      → Leaves Silent m
      → ((s : Server C) → Silent s → Leaves Silent (f s))
      → Leaves Silent (m >>= f)
  Leaves-then (ok s) f h next = next s h
  Leaves-then (fault e) f h next = tt

  start-Silent :
      (spurious : Bool) (loops : ℕ → ℕ) (s : Server C)
      → Silent s
      → Silent (start C spurious loops s)
  unfolding start
  start-Silent spurious loops s h = elim (Bool-cases (not spurious && not s.started)) [
    | inl goes ↦ rw goes (same-Silent h refl refl)
    | inr stays ↦ rw stays h
  ]

  removed-Silent :
      (in_loop : Bool) (conn : ℕ) (s : Server C)
      → Silent s
      → Leaves Silent (remove_connection C in_loop conn s)
  unfolding remove_connection remove_connection_in_loop
  removed-Silent true conn s h = same-Silent h refl refl
  removed-Silent false conn s h = same-Silent h refl refl

  serve-Silent : (r : Request) (s : Server C) → Silent s → Leaves Silent (serve r s)
  unfolding serve new_connected set_message_cb set_write_complete_cb set_connection_cb
      set_conn_status_cb set_thread_num
  serve-Silent (sets_message cb) s h = same-Silent h refl refl
  serve-Silent (sets_write_complete cb) s h = same-Silent h refl refl
  serve-Silent (sets_connection cb) s h = same-Silent h refl refl
  serve-Silent (sets_conn_status cb) s h = same-Silent h refl refl
  serve-Silent (sets_threads cores num) s h = same-Silent h refl refl
  serve-Silent (starts spurious loops) s h = start-Silent spurious loops s h
  serve-Silent (connects in_loop fd conn) s h = Leaves-bind Silent (assert_that in_loop) _ (λ _.
      Leaves-bind Silent (defined s.pool) _ (λ p.
        Leaves-bind Silent (defined (get_event_loop_from_pool_for_hash fd p)) _
          (λ work. joined-Silent work fd conn s h)))
  serve-Silent (removes_connection in_loop conn) s h = removed-Silent in_loop conn s h

  serve_each-Silent :
      (rs : List Request) (s : Server C) → Silent s → Leaves Silent (serve_each rs s)
  unfolding serve_each
  serve_each-Silent [] s h = h
  serve_each-Silent (r ∷ rs) s h =
      Leaves-then (serve r s) (serve_each rs) (serve-Silent r s h)
        (λ s' h'. serve_each-Silent rs s' h')

  -- Whatever a user sets by the server's own setters and in whatever order a server is asked to start,
  -- to take connections and to remove them: the server gives no connection a callback for a finished
  -- write, so none has one unless somebody calls the connection's own SetWriteCompleteCB. NewConnected
  -- stores `high_water_cb_` over it, which no function sets.
  pub serve_each-unset_written :
      (rs : List Request) (loop : ℕ) (s : Server C)
      → serve_each rs (new_server C loop) ≡ ok s
      → (conn : ℕ) → (s.slots conn).written ≡ none
  unfolding new_server
  serve_each-unset_written rs loop s ran conn =
      let left : Leaves Silent (ok s) = subst (Leaves Silent) ran (
        serve_each-Silent rs (new_server C loop)
          (record { no_source = refl; unset = λ _. refl })) in
      left.unset conn
