-- ===== src/Client/Closing.antt =====
-- The end of a connection of tcp_client.cpp, with the client or after it.
use network_poller.Prelude.{
  ℕ, ◌≡◌, refl, ap, ◌∙◌, true, false, none, some, ◌∷◌, [], ◌++◌, ==_refl, ◌==◌,
}
use network_poller.Result.{ok, fault, undefined}
use network_poller.Poller.Epoll.{update, update_self}
use network_poller.Client.Defs.{
  ConnectorCalls, client_removes, loop_removes, destroys, sets_close_cb, Slots, Client,
  new_connection, set_close_cb, let_go, close_client, close_by, call_close_cb, no_slots, with_slots,
  post, remove_connection, loop_remove_connection,
}

module _ (C : Type 0) (connector : ConnectorCalls) where
  -- The callbacks that the user gave the client.
  pub record Served (c : Client C connector) (conn : ℕ) (c' : Client C connector) : Type 0 where
    pub held : c'.connection ≡ some conn
    pub msg : (c'.slots conn).msg ≡ c.msg_cb
    pub written : (c'.slots conn).written ≡ c.wrote_cb
    pub conn_status : (c'.slots conn).conn_status ≡ c.conn_status_cb
    pub established : c'.established ≡ c.established ++ conn ∷ []

  -- In the loop, NewConnection makes the connection the client's, with the user's callbacks in their
  -- places, and establishes it. When that connection closes while the client is there, the client
  -- lets go of it and queues ConnectDestoryed for it once.
  pub new_connection-call_close_cb :
      (conn : ℕ) (c : Client C connector)
      → c.alive ≡ true
      → (c1 c2 : Client C connector) × (new_connection C connector true conn c ≡ ok c1)
        × Served c conn c1
        × (call_close_cb C connector conn c1 ≡ ok c2)
        × (c2.connection ≡ none)
        × (c2.posted ≡ c.posted ++ destroys conn ∷ [])
  unfolding new_connection call_close_cb close_by remove_connection
  new_connection-call_close_cb conn c there =
      let c1 : Client C connector = record c {
        connection = some conn;
        slots = update c.slots conn (with_slots C connector c (no_slots C connector));
        loop_of = update c.loop_of conn c.loop;
        established = c.established ++ conn ∷ [];
      } in
      let slot = update_self c.slots conn (with_slots C connector c (no_slots C connector)) in
      let own : (c1.loop == c1.loop_of conn) ≡ true =
        ap (λ l. c.loop == l) (update_self c.loop_of conn c.loop) ∙ ==_refl c.loop in
      (
        c1,
        record c1 { connection = none; posted = c.posted ++ destroys conn ∷ [] },
        refl,
        record {
          held = refl;
          msg = ap (λ (s : Slots C connector). s.msg) slot;
          written = ap (λ (s : Slots C connector). s.written) slot;
          conn_status = ap (λ (s : Slots C connector). s.conn_status) slot;
          established = refl;
        },
        ap (λ k. close_by C connector k conn c1) (ap (λ (s : Slots C connector). s.close) slot)
            ∙ rw there (rw own refl),
        refl,
        refl,
      )

  by_loop :
      (conn : ℕ) (c : Client C connector)
      → call_close_cb C connector conn (set_close_cb C connector conn c)
        ≡ ok (loop_remove_connection C connector conn (set_close_cb C connector conn c))
  unfolding call_close_cb set_close_cb close_by
  by_loop conn c =
      ap
        (λ (s : Slots C connector).
          close_by C connector s.close conn (set_close_cb C connector conn c))
        (update_self c.slots conn (record (c.slots conn) { close = loop_removes }))

  -- If the client is destroyed on the loop's thread while it has a connection, the connection's
  -- close callback no longer refers to it, and a close queues ConnectDestoryed once. If it is
  -- destroyed on another thread, the same holds once the queued task has run; until then a close
  -- calls a member of the destroyed client.
  pub close_client-call_close_cb :
      (conn : ℕ) (c : Client C connector)
      → c.connection ≡ some conn
      → (c.slots conn).close ≡ client_removes
      → ((c1 : Client C connector) × (call_close_cb C connector conn
              (close_client C connector true c)
            ≡ ok c1)
          × (c1.posted ≡ c.posted ++ destroys conn ∷ []))
        × ((close_client C connector false c).posted ≡ c.posted ++ sets_close_cb conn ∷ [])
        × (call_close_cb C connector conn (close_client C connector false c) ≡ fault undefined)
        × ((c1 : Client C connector) × (call_close_cb C connector conn
                (set_close_cb C connector conn (close_client C connector false c))
              ≡ ok c1)
            × (c1.posted ≡ (close_client C connector false c).posted ++ destroys conn ∷ []))
  unfolding close_client let_go call_close_cb close_by loop_remove_connection
  close_client-call_close_cb conn c held close =
      let gone : Client C connector = record c { alive = false } in
      let in_loop : close_client C connector true c ≡ set_close_cb C connector conn gone =
        ap (λ o. let_go C connector true o gone) held in
      let elsewhere : close_client C connector false c
          ≡ post C connector (sets_close_cb conn) gone =
        ap (λ o. let_go C connector false o gone) held in
      (
        (
          loop_remove_connection C connector conn (set_close_cb C connector conn gone),
          ap (call_close_cb C connector conn) in_loop ∙ by_loop conn gone,
          refl,
        ),
        ap (λ (d : Client C connector). d.posted) elsewhere,
        ap (call_close_cb C connector conn) elsewhere
            ∙ ap (λ k. close_by C connector k conn (post C connector (sets_close_cb conn) gone))
                close,
        (
          loop_remove_connection C connector conn
              (set_close_cb C connector conn (close_client C connector false c)),
          by_loop conn (close_client C connector false c),
          refl,
        ),
      )
