-- ===== src/Server/System/Refused.antt =====
-- The moves that are not allowed, and what they do: the close of a connection of a worker loop, and a
-- second CloseHandler.
use network_poller.Prelude.{ℕ, ◌<◌, ◌≡◌, sym, ◌∙◌, [], ◌∷◌, ◌++◌}
use network_poller.Result.{fault, assertion, ok}
use network_poller.Channel.{added_channel}
use network_poller.Server.Defs.{destroys}
use network_poller.Server.System.Defs.{System, do_post, do_move, closes}
use network_poller.Server.System.Invariant.{Reachable}
use network_poller.Server.System.Closes.{close_peer-erased, closed_twice, erased}
use network_poller.Server.System.Safety.{up_of_added, Reachable-Sound}

module _ (C : Type 0) where
  module _ (main cores num : ℕ) (loops : ℕ → ℕ) (small : num < 65536) where
    -- For a 16-bit argument of SetThreadNum: in every state that allowed moves reach, for a registered
    -- connection of the server's loop, CloseHandler returns, and so does a second CloseHandler, each
    -- with one more ConnectDestoryed in the queue of that loop; the first of these returns, and the
    -- second stops at an assertion.
    pub Reachable-closed_twice :
        {s : System C} (conn : ℕ)
        → Reachable C main cores num loops s
        → (s.peer conn).status ≡ added_channel
        → s.server.loop_of conn ≡ s.server.server_loop
        → (s1 s2 s3 : System C) × (do_move C (closes conn) s ≡ ok s1)
          × (do_move C (closes conn) s1 ≡ ok s2)
          × (s2.server.posted
              ≡ s.server.posted
                ++ (s.server.server_loop, destroys conn)
                  ∷ (s.server.server_loop, destroys conn)
                  ∷ [])
          × (do_post C s.server.server_loop (destroys conn) s2 ≡ ok s3)
          × (do_post C s.server.server_loop (destroys conn) s3 ≡ fault assertion)
    unfolding do_move do_post
    Reachable-closed_twice {s} conn before registered home =
        let sound = Reachable-Sound C main cores num loops small before in
        let is = up_of_added (sound.stage conn) (sym (sound.at conn).status ∙ registered) in
        let (s2, s3, again, queued, first, second) = closed_twice C s sound conn is home in
        (
          erased C s sound conn is,
          s2,
          s3,
          close_peer-erased C s sound conn is home,
          again,
          queued,
          first,
          second,
        )
