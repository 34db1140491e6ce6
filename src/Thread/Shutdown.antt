-- ===== src/Thread/Shutdown.antt =====
-- event_loop_thread.cpp: what the destructor of EventLoopThread does to a loop that runs, and to one
-- that has not begun to.
use network_poller.Prelude.{◌≡◌, ◌≢◌, ◌⊎◌, inl, inr, refl, Bool, true, false, not, arith}
use network_poller.Thread.Defs.{
  Owner, joining, gone, Worker, published, looping, finished, broken, Thread, at_rest, OwnerStep,
  WorkerStep, UserStep, Step, of_owner, of_worker, of_user, Later, now, next, unasked,
}

-- The new thread stands before `quit_ = false`, or in a loop that nobody has asked to end since.
abbrev deaf : Worker → Bool → Bool
deaf published quit = true
deaf looping quit = not quit
deaf _ quit = false

record Hangs (s : Thread) : Type 0 where
  in_join : s.owner ≡ joining
  no_end : deaf s.worker s.quit ≡ true

OwnerStep-Hangs : {b : Bool} {s t : Thread} → OwnerStep b s t → Hangs s → Hangs t
OwnerStep-Hangs (OwnerStep.joined o w) h = absurd (ground arith)
OwnerStep-Hangs (OwnerStep.locks_base o c l) h = absurd (ground arith)
OwnerStep-Hangs (OwnerStep.creates_thread o) h = absurd (ground arith)
OwnerStep-Hangs (OwnerStep.sets_started o) h = absurd (ground arith)
OwnerStep-Hangs (OwnerStep.locks_loop o l) h = absurd (ground arith)
OwnerStep-Hangs (OwnerStep.sees_loop o l) h = absurd (ground arith)
OwnerStep-Hangs (OwnerStep.sleeps o l) h = absurd (ground arith)
OwnerStep-Hangs (OwnerStep.wakes_spuriously o l) h = absurd (ground arith)
OwnerStep-Hangs (OwnerStep.locks_again o l) h = absurd (ground arith)
OwnerStep-Hangs (OwnerStep.returns_loop o) h = absurd (ground arith)
OwnerStep-Hangs (OwnerStep.discards o) h = absurd (ground arith)
OwnerStep-Hangs (OwnerStep.quits_and_joins o l) h = absurd (ground arith)
OwnerStep-Hangs (OwnerStep.only_joins o l) h = absurd (ground arith)

WorkerStep-Hangs : {b : Bool} {s t : Thread} → WorkerStep b s t → Hangs s → Hangs t
WorkerStep-Hangs (WorkerStep.clears_quit w) h = ground arith
WorkerStep-Hangs (WorkerStep.leaves w q) h = absurd (ground arith)
WorkerStep-Hangs (WorkerStep.enters w l) h = absurd (ground arith)
WorkerStep-Hangs (WorkerStep.goes_on w f) h = absurd (ground arith)
WorkerStep-Hangs (WorkerStep.waits w f) h = absurd (ground arith)
WorkerStep-Hangs (WorkerStep.wakes_spuriously w e) h = absurd (ground arith)
WorkerStep-Hangs (WorkerStep.resumes w l) h = absurd (ground arith)
WorkerStep-Hangs (WorkerStep.gives_up w q) h = absurd (ground arith)
WorkerStep-Hangs (WorkerStep.goes_on_late w q) h = absurd (ground arith)
WorkerStep-Hangs (WorkerStep.locks_loop w d l) h = absurd (ground arith)
WorkerStep-Hangs (WorkerStep.uses_destroyed w d) h = absurd (ground arith)
WorkerStep-Hangs (WorkerStep.publishes w d) h = absurd (ground arith)
WorkerStep-Hangs (WorkerStep.publishes_destroyed w d) h = absurd (ground arith)

Later-Hangs :
    {b : Bool} {s t : Thread} (later : Later b s t) → unasked later ≡ true → Hangs s → Hangs t
Later-Hangs now still h = h
Later-Hangs (next r (of_owner st)) still h = OwnerStep-Hangs st (Later-Hangs r still h)
Later-Hangs (next r (of_worker st)) still h = WorkerStep-Hangs st (Later-Hangs r still h)
Later-Hangs (next r (of_user st)) still h = absurd (ground arith)

-- If the destructor runs while the new thread has published its loop and not yet begun Loop, then
-- its Quit is overwritten: as long as no task and no other thread calls Quit of the loop, the owner stays
-- in `join`, and the new thread does not end, whatever else happens later.
pub quit_before_loop-hangs :
    {b : Bool} (s : Thread) {t : Thread}
    → at_rest s.owner ≡ true
    → s.loop_set ≡ true
    → s.worker ≡ published
    → (later : Later b (record s { owner = joining; quit = true; quited = true }) t)
    → unasked later ≡ true
    → (t.owner ≡ joining) × (t.worker ≢ finished)
quit_before_loop-hangs s {t} rests there early later still =
    let h : Hangs t = Later-Hangs later still (record { in_join = refl; no_end = rw early refl }) in
    (h.in_join, λ done. ground arith)

-- The destructor is on its way: the loop has been asked to end, or has ended.
abbrev on_its_way : Owner → Worker → Bool → Bool
on_its_way joining looping quit = quit
on_its_way joining finished quit = true
on_its_way gone finished quit = true
on_its_way _ _ quit = false

abbrev Ends : Thread → Type 0
Ends s = on_its_way s.owner s.worker s.quit ≡ true

Step-Ends : {b : Bool} {s t : Thread} → Step b s t → Ends s → Ends t
Step-Ends (of_owner (OwnerStep.joined o w)) h = ground arith
Step-Ends (of_worker (WorkerStep.leaves w q)) h = ground arith
Step-Ends (of_owner (OwnerStep.locks_base o c l)) h = absurd (ground arith)
Step-Ends (of_owner (OwnerStep.creates_thread o)) h = absurd (ground arith)
Step-Ends (of_owner (OwnerStep.sets_started o)) h = absurd (ground arith)
Step-Ends (of_owner (OwnerStep.locks_loop o l)) h = absurd (ground arith)
Step-Ends (of_owner (OwnerStep.sees_loop o l)) h = absurd (ground arith)
Step-Ends (of_owner (OwnerStep.sleeps o l)) h = absurd (ground arith)
Step-Ends (of_owner (OwnerStep.wakes_spuriously o l)) h = absurd (ground arith)
Step-Ends (of_owner (OwnerStep.locks_again o l)) h = absurd (ground arith)
Step-Ends (of_owner (OwnerStep.returns_loop o)) h = absurd (ground arith)
Step-Ends (of_owner (OwnerStep.discards o)) h = absurd (ground arith)
Step-Ends (of_owner (OwnerStep.quits_and_joins o l)) h = absurd (ground arith)
Step-Ends (of_owner (OwnerStep.only_joins o l)) h = absurd (ground arith)
Step-Ends (of_worker (WorkerStep.clears_quit w)) h = absurd (ground arith)
Step-Ends (of_worker (WorkerStep.enters w l)) h = absurd (ground arith)
Step-Ends (of_worker (WorkerStep.goes_on w f)) h = absurd (ground arith)
Step-Ends (of_worker (WorkerStep.waits w f)) h = absurd (ground arith)
Step-Ends (of_worker (WorkerStep.wakes_spuriously w e)) h = absurd (ground arith)
Step-Ends (of_worker (WorkerStep.resumes w l)) h = absurd (ground arith)
Step-Ends (of_worker (WorkerStep.gives_up w q)) h = absurd (ground arith)
Step-Ends (of_worker (WorkerStep.goes_on_late w q)) h = absurd (ground arith)
Step-Ends (of_worker (WorkerStep.locks_loop w d l)) h = absurd (ground arith)
Step-Ends (of_worker (WorkerStep.uses_destroyed w d)) h = absurd (ground arith)
Step-Ends (of_worker (WorkerStep.publishes w d)) h = absurd (ground arith)
Step-Ends (of_worker (WorkerStep.publishes_destroyed w d)) h = absurd (ground arith)
Step-Ends (of_user (UserStep.quits l)) h = ground arith

Later-Ends : {b : Bool} {s t : Thread} → Later b s t → Ends s → Ends t
Later-Ends now h = h
Later-Ends (next r st) h = Step-Ends st (Later-Ends r h)

on_its_way-cases :
    (o : Owner) (w : Worker) (quit : Bool)
    → on_its_way o w quit ≡ true
    → ((o ≡ joining) × (w ≡ looping) × (quit ≡ true))
      ⊎ (((o ≡ joining) × (w ≡ finished)) ⊎ (o ≡ gone))
on_its_way-cases o w quit h = ground arith

Ends-gone : {b : Bool} (t : Thread) → Ends t → (u : Thread) × Later b t u × (u.owner ≡ gone)
Ends-gone t h = elim (on_its_way-cases t.owner t.worker t.quit h) [
  | inl (o, w, q) ↦ (
    record t { worker = finished; owner = gone },
    next (next now (of_worker (WorkerStep.leaves w q))) (of_owner (OwnerStep.joined o refl)),
    refl,
  )
  | inr (inl (o, w)) ↦ (record t { owner = gone }, next now (of_owner (OwnerStep.joined o w)), refl)
  | inr (inr done) ↦ (t, now, done)
]

-- If the destructor runs while the new thread is in Loop, then, whatever steps follow, both threads
-- can still come to their end, and no step uses a member of the object after its destruction.
pub quit_in_loop-ends :
    {b : Bool} (s : Thread) {t : Thread}
    → at_rest s.owner ≡ true
    → s.loop_set ≡ true
    → s.worker ≡ looping
    → Later b (record s { owner = joining; quit = true; quited = true }) t
    → ((u : Thread) × Later b t u × (u.owner ≡ gone)) × (t.worker ≢ broken)
quit_in_loop-ends s {t} rests there in_loop later =
    let h : Ends t = Later-Ends later (rw in_loop refl) in (Ends-gone t h, λ bad. ground arith)
