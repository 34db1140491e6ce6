-- ===== src/Thread/Defs.antt =====
-- class EncThread of core/thread/thread.cpp and class EventLoopThread of
-- core/net/event/event_loop_thread.cpp: one object, its owner, and the thread that it starts, one
-- shared access or one hold of a mutex at a time.
use network_poller.Prelude.{◌≡◌, Bool, true, false}

-- Who holds a mutex.
pub data Holder : Type 0 where
  free by_owner by_worker : Holder

-- Where the owner stands: in Start, in GetLoopInThread or in the destructors.
pub data Owner : Type 0 where
  fresh : Owner  -- constructed, not started
  start_locked : Owner  -- Start: holds EncThread::mutex_
  start_created : Owner  -- Start: the thread is there, `started_` not yet set
  started : Owner  -- Start has returned
  get_locked : Owner  -- GetLoopInThread: holds EventLoopThread::mutex_
  sleeping : Owner  -- GetLoopInThread: in `cond_.wait`
  waking : Owner  -- GetLoopInThread: woken, before it has the mutex again
  woken : Owner  -- GetLoopInThread: woken, with the mutex
  got : (loop_there : Bool) → Owner  -- GetLoopInThread has returned a loop, or null
  joining : Owner  -- the destructor of EncThread is in `join`
  gone : Owner  -- both destructors have returned

-- Where the new thread stands: in ThreadFunc, in `run`, or in `EventLoop::Loop`.
pub data Worker : Type 0 where
  unborn : Worker
  entering : Worker  -- ThreadFunc: before it has EncThread::mutex_
  checking : Worker  -- ThreadFunc: with the mutex
  waiting : Worker  -- ThreadFunc: in `condition_.wait`
  notified : Worker  -- ThreadFunc: woken, before it has the mutex again
  resumed : Worker  -- ThreadFunc: woken, with the mutex
  running : Worker  -- `run`: its EventLoop is constructed
  publishing : Worker  -- `run`: holds EventLoopThread::mutex_
  published : Worker  -- `run`: before the first line of Loop
  looping : Worker  -- in Loop, after `quit_ = false`
  finished : Worker  -- the EventLoop is destroyed, and the thread has ended
  broken : Worker  -- used a member of an object that is destroyed

-- The object and what the two share. `loop_set` is whether `loop_` is set, `quit` the loop's `quit_`.
pub record Thread : Type 0 where
  pub owner : Owner
  pub worker : Worker
  pub created : Bool
  pub started_flag : Bool
  pub quited : Bool
  pub loop_set : Bool
  pub quit : Bool
  pub base_lock : Holder
  pub loop_lock : Holder

-- The constructors.
abbrev pub new_thread : Thread
new_thread = record {
  owner = fresh;
  worker = unborn;
  created = false;
  started_flag = false;
  quited = false;
  loop_set = false;
  quit = false;
  base_lock = free;
  loop_lock = free;
}

-- `cond_.notify_one` and `condition_.notify_one`, which wake one that sleeps.
abbrev pub wake_owner : Owner → Owner
wake_owner sleeping = waking
wake_owner o = o

abbrev pub wake_worker : Worker → Worker
wake_worker waiting = notified
wake_worker v = v

-- Where the owner may call the next function.
abbrev pub at_rest : Owner → Bool
at_rest started = true
at_rest (got _) = true
at_rest _ = false

-- Steps of the owner. `spurious` is whether `wait` may return without a notification.
pub data OwnerStep (spurious : Bool) (s : Thread) : Thread → Type 0 where
  -- Start
  locks_base :
      s.owner ≡ fresh
      → s.created ≡ false
      → s.base_lock ≡ free
      → OwnerStep spurious s (record s { owner = start_locked; base_lock = by_owner })
  creates_thread :
      s.owner ≡ start_locked
      → OwnerStep spurious s (record s { owner = start_created; created = true; worker = entering })
  sets_started :
      s.owner ≡ start_created
      → OwnerStep spurious s (record s {
        owner = started;
        started_flag = true;
        worker = wake_worker s.worker;
        base_lock = free;
      })
  -- GetLoopInThread
  locks_loop :
      at_rest s.owner ≡ true
      → s.loop_lock ≡ free
      → OwnerStep spurious s (record s { owner = get_locked; loop_lock = by_owner })
  sees_loop :
      s.owner ≡ get_locked
      → s.loop_set ≡ true
      → OwnerStep spurious s (record s { owner = got true; loop_lock = free })
  sleeps :
      s.owner ≡ get_locked
      → s.loop_set ≡ false
      → OwnerStep spurious s (record s { owner = sleeping; loop_lock = free })
  wakes_spuriously :
      s.owner ≡ sleeping → spurious ≡ true → OwnerStep spurious s (record s { owner = waking })
  locks_again :
      s.owner ≡ waking
      → s.loop_lock ≡ free
      → OwnerStep spurious s (record s { owner = woken; loop_lock = by_owner })
  returns_loop :
      s.owner ≡ woken → OwnerStep spurious s (record s { owner = got s.loop_set; loop_lock = free })
  -- ~EventLoopThread and ~EncThread
  discards : s.owner ≡ fresh → OwnerStep spurious s (record s { owner = gone })
  quits_and_joins :
      at_rest s.owner ≡ true
      → s.loop_set ≡ true
      → OwnerStep spurious s (record s { owner = joining; quit = true; quited = true })
  only_joins :
      at_rest s.owner ≡ true
      → s.loop_set ≡ false
      → OwnerStep spurious s (record s { owner = joining; quited = true })
  joined :
      s.owner ≡ joining → s.worker ≡ finished → OwnerStep spurious s (record s { owner = gone })

-- Whether ~EventLoopThread has destroyed the members of EventLoopThread.
abbrev pub destroyed : Owner → Bool
destroyed joining = true
destroyed gone = true
destroyed _ = false

-- Steps of the new thread.
pub data WorkerStep (spurious : Bool) (s : Thread) : Thread → Type 0 where
  -- ThreadFunc
  enters :
      s.worker ≡ entering
      → s.base_lock ≡ free
      → WorkerStep spurious s (record s { worker = checking; base_lock = by_worker })
  goes_on :
      s.worker ≡ checking
      → s.started_flag ≡ true
      → WorkerStep spurious s (record s { worker = running; base_lock = free })
  waits :
      s.worker ≡ checking
      → s.started_flag ≡ false
      → WorkerStep spurious s (record s { worker = waiting; base_lock = free })
  wakes_spuriously :
      s.worker ≡ waiting → spurious ≡ true → WorkerStep spurious s (record s { worker = notified })
  resumes :
      s.worker ≡ notified
      → s.base_lock ≡ free
      → WorkerStep spurious s (record s { worker = resumed; base_lock = by_worker })
  gives_up :
      s.worker ≡ resumed
      → s.quited ≡ true
      → WorkerStep spurious s (record s { worker = finished; base_lock = free })
  goes_on_late :
      s.worker ≡ resumed
      → s.quited ≡ false
      → WorkerStep spurious s (record s { worker = running; base_lock = free })
  -- `run` of EventLoopThread
  locks_loop :
      s.worker ≡ running
      → destroyed s.owner ≡ false
      → s.loop_lock ≡ free
      → WorkerStep spurious s (record s { worker = publishing; loop_lock = by_worker })
  uses_destroyed :
      s.worker ≡ running
      → destroyed s.owner ≡ true
      → WorkerStep spurious s (record s { worker = broken })
  publishes_destroyed :
      s.worker ≡ publishing
      → destroyed s.owner ≡ true
      → WorkerStep spurious s (record s { worker = broken })
  publishes :
      s.worker ≡ publishing
      → destroyed s.owner ≡ false
      → WorkerStep spurious s (record s {
        worker = published;
        loop_set = true;
        owner = wake_owner s.owner;
        loop_lock = free;
      })
  -- EventLoop::Loop
  clears_quit :
      s.worker ≡ published → WorkerStep spurious s (record s { worker = looping; quit = false })
  leaves :
      s.worker ≡ looping → s.quit ≡ true → WorkerStep spurious s (record s { worker = finished })

-- Whether there is an EventLoop that can be asked to end.
abbrev pub has_loop : Worker → Bool
has_loop published = true
has_loop looping = true
has_loop _ = false

-- A step of a task that the loop runs, or of any other thread that knows the loop: `EventLoop::Quit`.
pub data UserStep (s : Thread) : Thread → Type 0 where
  quits : has_loop s.worker ≡ true → UserStep s (record s { quit = true })

pub data Step (spurious : Bool) (s t : Thread) : Type 0 where
  of_owner : OwnerStep spurious s t → Step spurious s t
  of_worker : WorkerStep spurious s t → Step spurious s t
  of_user : UserStep s t → Step spurious s t

pub data Later (spurious : Bool) (s : Thread) : Thread → Type 0 where
  now : Later spurious s s
  next : {t u : Thread} → Later spurious s t → Step spurious t u → Later spurious s u

-- No user of the loop has called Quit on the way.
abbrev pub unasked : {spurious : Bool} {s t : Thread} → Later spurious s t → Bool
unasked now = true
unasked (next r (of_owner _)) = unasked r
unasked (next r (of_worker _)) = unasked r
unasked (next r (of_user _)) = false

-- What can follow the construction.
abbrev pub Reach : Bool → Thread → Type 0
Reach spurious = Later spurious new_thread
