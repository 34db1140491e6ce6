-- ===== src/Server/System/Safety.antt =====
-- From the start of the server on: no allowed move fails, and once the loops have run what is queued,
-- each connection is up or gone.
use network_poller.Prelude.{
  ℕ, zero, suc, ◌+◌, ◌<◌, ◌≤◌, ◌≡◌, ◌⊎◌, refl, sym, ap, ◌∙◌, true, not, ◌&&◌, none, inl, inr, List,
  arith, length, subst, Bool-cases, some, if◌then◌else◌, ltb,
}
use mathlib.Core.Option.{none-ne-some}
use network_poller.Result.{ok, ok-injective}
use network_poller.Channel.{added_channel}
use network_poller.Connection.{disconnecting, is_connected}
use network_poller.Poller.Epoll.{update, update_self, update_ne, update_all}
use network_poller.Pool.{new_pool, initialize, start_from}
use network_poller.Server.Defs.{
  Post, listens, establishes, destroys, removes, new_server, set_thread_num, start,
}
use network_poller.Server.System.Defs.{
  Peer, is_open, System, set_peer, run_task, do_post, Move, arrives, runs, shuts, forces, closes,
  do_move, shut_peer, force_close_peer, dequeue,
}
use network_poller.Server.System.Queues.{Taken, dequeue-Taken, mine-Taken_other, length-Taken}
use network_poller.Server.System.Invariant.{
  Stage, gone, pending, up, removing, status_at, is_up, is_gone, At, Sound, Allowed, begin,
  Reachable, starts, next,
}
use network_poller.Server.System.Frames.{alone, own_place, Beside-Sound, Same-Sound}
use network_poller.Server.System.Runs.{rest_of, removes-never}
use network_poller.Server.System.Posts.{Ran, establishes-Ran}
use network_poller.Server.System.Removals.{destroys-Ran}
use network_poller.Server.System.Arrivals.{arrives-Sound}
use network_poller.Server.System.Closes.{close_peer-Sound}
use network_poller.Server.System.Producers.{produce-Sound}

pub up_of_added : (st : Stage) → status_at st ≡ added_channel → st ≡ up
up_of_added up h = refl
up_of_added gone h = grind arith
up_of_added pending h = grind arith
up_of_added removing h = grind arith

up_of_open : (st : Stage) → is_up st ≡ true → st ≡ up
up_of_open up h = refl
up_of_open gone h = grind arith
up_of_open pending h = grind arith
up_of_open removing h = grind arith

length-start_from : (loops : ℕ → ℕ) (i n : ℕ) → length (start_from loops i n) ≡ n
unfolding start_from
length-start_from loops i zero = refl
length-start_from loops i (suc n) = ap suc (length-start_from loops (i + 1) n)

module _ (C : Type 0) where
  listens-Ran :
      (s : System C)
      → Sound C s
      → (loop : ℕ) (rest : List (ℕ × Post)) → Taken loop listens s.server.posted rest
      → (s' : System C) × Ran C loop s rest listens s'
  unfolding do_post
  listens-Ran s sound loop rest taken = (
    rest_of C rest s,
    record {
      ran = refl;
      sound = Same-Sound C s (rest_of C rest s) sound refl refl refl (λ k. record {
        peer = refl;
        fd = refl;
        loop = refl;
        closes = refl;
        posts = mine-Taken_other k taken refl;
        entry = λ e. e;
        found = λ e. e;
        no_entry = λ _ e. e;
        no_channel = λ _ _ e. e;
      });
      lighter = omega (arith, length-Taken taken);
    },
  )

  post-Ran :
      (s : System C)
      → Sound C s
      → (loop : ℕ) (what : Post) (rest : List (ℕ × Post)) → Taken loop what s.server.posted rest
      → (s' : System C) × Ran C loop s rest what s'
  post-Ran s sound loop listens rest taken = listens-Ran s sound loop rest taken
  post-Ran s sound loop (establishes conn) rest taken =
      establishes-Ran C loop s rest sound conn taken
  post-Ran s sound loop (destroys conn) rest taken = destroys-Ran C loop s rest sound conn taken
  post-Ran s sound loop (removes conn) rest taken =
      absurd (removes-never C s sound loop rest conn taken)

  -- A loop with an empty queue does nothing; otherwise the queues are one run nearer to empty.
  pub run_task-Sound :
      (loop : ℕ) (s : System C)
      → Sound C s
      → (s' : System C) × (run_task C loop s ≡ ok s')
        × Sound C s'
        × ((dequeue loop s.server.posted ≡ none)
            ⊎ (suc (length s'.server.posted) ≡ length s.server.posted))
  unfolding run_task
  run_task-Sound loop s sound = elim (dequeue-Taken loop s.server.posted) [
    | inl empty ↦ (s, rw (empty, run_task) refl, sound, inl empty)
    | inr (what, rest, got, taken) ↦
        let (s', r) = post-Ran s sound loop what rest taken in
        (s', rw (got, run_task) r.ran, r.sound, inr r.lighter)
  ]

  shuts-Sound :
      (conn : ℕ) (s : System C)
      → Sound C s
      → is_connected (s.peer conn).state ≡ true
      → Sound C (set_peer C conn (record (s.peer conn) { state = disconnecting }) s)
  shuts-Sound conn s sound on =
      Beside-Sound C conn up s s' sound
        record {
          producer = refl;
          main = refl;
          pool = refl;
          others = λ k ne. record {
            peer = update_ne s.peer conn after k ne;
            fd = refl;
            loop = refl;
            closes = refl;
            posts = refl;
            entry = λ e. e;
            found = λ e. e;
            no_entry = λ _ e. e;
            no_channel = λ _ _ e. e;
          };
          own = record {
            posts = at.posts;
            status = ap (λ (p : Peer). p.status) own ∙ at.status;
            wants = ap (λ (p : Peer). p.wants) own ∙ at.wants;
            opened = ap is_open own;
            entered = at.entered;
            known = at.known;
            closes = at.closes;
          };
          own_entry = λ fd e. ((sound.entries fd conn e).0, refl);
          own_channel = λ l i e. own_place C s sound conn refl l i e;
        }
        (λ _. alone C s sound conn (ap is_gone is))
    where
      after : Peer
      after = record (s.peer conn) { state = disconnecting }

      s' : System C
      s' = set_peer C conn after s

      own : update s.peer conn after conn ≡ after
      own = update_self s.peer conn after

      is : sound.stage conn ≡ up
      is = up_of_open (sound.stage conn) (sym (sound.at conn).opened ∙ rw on refl)

      at : At C up s conn
      at = subst (λ st. At C st s conn) is (sound.at conn)

  begin-Sound :
      (main cores num : ℕ) (loops : ℕ → ℕ) → num < 65536 → Sound C (begin C main cores num loops)
  unfolding start set_thread_num new_server initialize new_pool
  begin-Sound main cores num loops small = record {
    stage = λ _. gone;
    at = λ conn. record {
      posts = refl;
      status = refl;
      wants = refl;
      opened = refl;
      entered = λ h. absurd (grind arith);
      known = λ h. absurd (grind arith);
      closes = λ h. absurd (grind arith);
    };
    entries = λ fd conn e. absurd (none-ne-some conn e);
    channels = λ loop fd conn e. absurd (none-ne-some conn e);
    apart = λ conn other h. absurd (grind arith);
    pool = initialize loops (new_pool threads main);
    there = refl;
    small = omega (arith, length-start_from loops 0 threads, few);
    sole = λ loop.
        update_all (λ _ p. (p ≡ none) ⊎ (p ≡ some main)) (λ _. none) main (some main) (inr refl)
          (λ _ _. inl refl) loop;
    served = update_self (λ _. none) main (some main);
  }
    where
      threads : ℕ
      threads = if ltb cores num then cores else num

      few : threads ≤ num
      few = ground arith

  -- An allowed move.
  pub do_move-Sound :
      (m : Move) (s : System C)
      → Sound C s
      → Allowed C m s
      → (s' : System C) × (do_move C m s ≡ ok s') × Sound C s'
  unfolding do_move force_close_peer shut_peer
  do_move-Sound (arrives fd conn) s sound allowed = arrives-Sound C s sound fd conn allowed
  do_move-Sound (runs loop) s sound allowed =
      let (s', ran, sound', _) = run_task-Sound loop s sound in (s', ran, sound')
  do_move-Sound (shuts by spurious conn) s sound allowed =
      elim (Bool-cases (not spurious && is_connected (s.peer conn).state)) [
        | inl on ↦
            let (s', ran, sound') =
              produce-Sound C (set_peer C conn (record (s.peer conn) { state = disconnecting }) s)
                (shuts-Sound conn s sound (ground arith)) (s.server.loop_of conn) in
            (s', rw (on, allowed, shut_peer) ran, sound')
        | inr off ↦ (s, rw off refl, sound)
      ]
  do_move-Sound (forces conn) s sound allowed = elim (Bool-cases (is_open (s.peer conn))) [
    | inl on ↦
        let (s', ran, sound') =
          close_peer-Sound C s sound conn
            (up_of_open (sound.stage conn) (sym (sound.at conn).opened ∙ on)) allowed in
        (s', rw on ran, sound')
    | inr off ↦ (s, rw off refl, sound)
  ]
  do_move-Sound (closes conn) s sound allowed =
      close_peer-Sound C s sound conn
        (up_of_added (sound.stage conn) (sym (sound.at conn).status ∙ allowed.0)) allowed.1

  module _ (main cores num : ℕ) (loops : ℕ → ℕ) (small : num < 65536) where
    pub Reachable-Sound : {s : System C} → Reachable C main cores num loops s → Sound C s
    Reachable-Sound starts = begin-Sound main cores num loops small
    Reachable-Sound (next m {s} {s'} before allowed ran) =
        let (s1, ran1, sound) = do_move-Sound m s (Reachable-Sound before) allowed in
        subst (Sound C) (ok-injective (sym ran1 ∙ ran)) sound
