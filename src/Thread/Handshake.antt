-- ===== src/Thread/Handshake.antt =====
-- thread.cpp and event_loop_thread.cpp: what holds of the owner and the new thread at every moment.
use network_poller.Prelude.{◌≡◌, ◌≢◌, ◌⊎◌, sym, ap, ◌∙◌, Bool, true, false, arith}
use network_poller.Thread.Defs.{
  by_owner, Owner, fresh, start_locked, start_created, started, get_locked, sleeping, waking, woken,
  got, joining, gone, Worker, unborn, entering, waiting, notified, resumed, Thread, OwnerStep,
  WorkerStep, UserStep, of_owner, of_worker, of_user, now, next, Reach,
}

-- Before the thread is created.
abbrev early : Owner → Bool
early fresh = true
early start_locked = true
early start_created = false
early started = false
early get_locked = false
early sleeping = false
early waking = false
early woken = false
early (got _) = false
early joining = false
early gone = false

-- In `condition_.wait` of ThreadFunc, or after it.
abbrev pub has_waited : Worker → Bool
has_waited waiting = true
has_waited notified = true
has_waited resumed = true
has_waited _ = false

-- ThreadFunc has had the mutex.
abbrev pub begun : Worker → Bool
begun unborn = false
begun entering = false
begun _ = true

record Ordered (s : Thread) : Type 0 where
  not_yet : early s.owner ≡ true → s.worker ≡ unborn
  first : s.owner ≡ start_created → s.worker ≡ entering
  locked : s.owner ≡ start_created → s.base_lock ≡ by_owner
  locking : s.owner ≡ start_locked → s.base_lock ≡ by_owner
  flagged :
      early s.owner ≡ false
      → s.owner ≢ start_created
      → (s.started_flag ≡ true) ⊎ (s.worker ≡ unborn)
  never : has_waited s.worker ≡ false

OwnerStep-Ordered : {b : Bool} {s t : Thread} → OwnerStep b s t → Ordered s → Ordered t
OwnerStep-Ordered (OwnerStep.locks_base o c l) h = ground arith
OwnerStep-Ordered (OwnerStep.creates_thread o) h = ground arith
OwnerStep-Ordered (OwnerStep.sets_started o) h = ground arith
OwnerStep-Ordered (OwnerStep.locks_loop o l) h = ground arith
OwnerStep-Ordered (OwnerStep.sees_loop o l) h = ground arith
OwnerStep-Ordered (OwnerStep.sleeps o l) h = ground arith
OwnerStep-Ordered (OwnerStep.wakes_spuriously o l) h = ground arith
OwnerStep-Ordered (OwnerStep.locks_again o l) h = ground arith
OwnerStep-Ordered (OwnerStep.returns_loop o) h = ground arith
OwnerStep-Ordered (OwnerStep.discards o) h = ground arith
OwnerStep-Ordered (OwnerStep.quits_and_joins o l) h = ground arith
OwnerStep-Ordered (OwnerStep.only_joins o l) h = ground arith
OwnerStep-Ordered (OwnerStep.joined o w) h = ground arith

WorkerStep-Ordered : {b : Bool} {s t : Thread} → WorkerStep b s t → Ordered s → Ordered t
WorkerStep-Ordered (WorkerStep.enters w l) h = ground arith
WorkerStep-Ordered (WorkerStep.goes_on w f) h = ground arith
WorkerStep-Ordered (WorkerStep.waits w f) h = ground arith
WorkerStep-Ordered (WorkerStep.wakes_spuriously w e) h = ground arith
WorkerStep-Ordered (WorkerStep.resumes w l) h = ground arith
WorkerStep-Ordered (WorkerStep.gives_up w q) h = ground arith
WorkerStep-Ordered (WorkerStep.goes_on_late w q) h = ground arith
WorkerStep-Ordered (WorkerStep.locks_loop w d l) h = ground arith
WorkerStep-Ordered (WorkerStep.uses_destroyed w d) h = ground arith
WorkerStep-Ordered (WorkerStep.publishes w d) h = ground arith
WorkerStep-Ordered (WorkerStep.publishes_destroyed w d) h = ground arith
WorkerStep-Ordered (WorkerStep.clears_quit w) h = ground arith
WorkerStep-Ordered (WorkerStep.leaves w q) h = ground arith

UserStep-Ordered : {s t : Thread} → UserStep s t → Ordered s → Ordered t
UserStep-Ordered (UserStep.quits l) h = ground arith

Reach-Ordered : {b : Bool} {s : Thread} → Reach b s → Ordered s
Reach-Ordered now = ground arith
Reach-Ordered (next r (of_owner st)) = OwnerStep-Ordered st (Reach-Ordered r)
Reach-Ordered (next r (of_worker st)) = WorkerStep-Ordered st (Reach-Ordered r)
Reach-Ordered (next r (of_user st)) = UserStep-Ordered st (Reach-Ordered r)

-- At every moment, spurious wake-ups or not: ThreadFunc never waits for `started_`, because Start
-- keeps the mutex until it has set it; so once ThreadFunc has had the mutex, `started_` is set.
pub Reach-never_waits :
    {b : Bool} {s : Thread}
    → Reach b s
    → (has_waited s.worker ≡ false) × ((s.started_flag ≡ true) ⊎ (begun s.worker ≡ false))
Reach-never_waits {s = s} r = let h = Reach-Ordered r in (h.never, started_or_not s h)
  where
    started_or_not : (s : Thread) → Ordered s → (s.started_flag ≡ true) ⊎ (begun s.worker ≡ false)
    started_or_not s h = ground arith

-- The owner has been woken, or has been given a loop.
abbrev told : Owner → Bool
told waking = true
told woken = true
told (got _) = true
told _ = false

abbrev answer : Owner → Bool
answer (got there) = there
answer _ = true

-- Without spurious wake-ups: whoever has been woken finds the loop.
record Answered (s : Thread) : Type 0 where
  set_by_then : told s.owner ≡ true → s.loop_set ≡ true
  right : answer s.owner ≡ true

OwnerStep-Answered : {s t : Thread} → OwnerStep false s t → Answered s → Answered t
OwnerStep-Answered (OwnerStep.locks_base o c l) h = ground arith
OwnerStep-Answered (OwnerStep.creates_thread o) h = ground arith
OwnerStep-Answered (OwnerStep.sets_started o) h = ground arith
OwnerStep-Answered (OwnerStep.locks_loop o l) h = ground arith
OwnerStep-Answered (OwnerStep.sees_loop o l) h = ground arith
OwnerStep-Answered (OwnerStep.sleeps o l) h = ground arith
OwnerStep-Answered (OwnerStep.wakes_spuriously o l) h = ground arith
OwnerStep-Answered (OwnerStep.locks_again o l) h = ground arith
OwnerStep-Answered (OwnerStep.returns_loop o) h = ground arith
OwnerStep-Answered (OwnerStep.discards o) h = ground arith
OwnerStep-Answered (OwnerStep.quits_and_joins o l) h = ground arith
OwnerStep-Answered (OwnerStep.only_joins o l) h = ground arith
OwnerStep-Answered (OwnerStep.joined o w) h = ground arith

WorkerStep-Answered : {s t : Thread} → WorkerStep false s t → Answered s → Answered t
WorkerStep-Answered (WorkerStep.publishes w d) h = ground arith
WorkerStep-Answered (WorkerStep.enters w l) h = ground arith
WorkerStep-Answered (WorkerStep.goes_on w f) h = ground arith
WorkerStep-Answered (WorkerStep.waits w f) h = ground arith
WorkerStep-Answered (WorkerStep.wakes_spuriously w e) h = ground arith
WorkerStep-Answered (WorkerStep.resumes w l) h = ground arith
WorkerStep-Answered (WorkerStep.gives_up w q) h = ground arith
WorkerStep-Answered (WorkerStep.goes_on_late w q) h = ground arith
WorkerStep-Answered (WorkerStep.locks_loop w d l) h = ground arith
WorkerStep-Answered (WorkerStep.uses_destroyed w d) h = ground arith
WorkerStep-Answered (WorkerStep.publishes_destroyed w d) h = ground arith
WorkerStep-Answered (WorkerStep.clears_quit w) h = ground arith
WorkerStep-Answered (WorkerStep.leaves w q) h = ground arith

UserStep-Answered : {s t : Thread} → UserStep s t → Answered s → Answered t
UserStep-Answered (UserStep.quits l) h = ground arith

Reach-Answered : {s : Thread} → Reach false s → Answered s
Reach-Answered now = ground arith
Reach-Answered (next r (of_owner st)) = OwnerStep-Answered st (Reach-Answered r)
Reach-Answered (next r (of_worker st)) = WorkerStep-Answered st (Reach-Answered r)
Reach-Answered (next r (of_user st)) = UserStep-Answered st (Reach-Answered r)

-- If no `wait` returns without a notification, GetLoopInThread returns no null pointer, however the
-- owner and the new thread interleave.
pub Reach-got : {s : Thread} {there : Bool} → Reach false s → s.owner ≡ got there → there ≡ true
Reach-got r is_got = sym (ap answer is_got) ∙ (Reach-Answered r).right
