-- ===== src/Thread/Base.antt =====
-- Join, GetThreadID and the run of EncThread itself in thread.cpp, which EventLoopThread overrides.
use network_poller.Prelude.{ℕ, suc, Bool, true, false, List, [], ◌∷◌, if◌then◌else◌}
use network_poller.Result.{Result, ok, fault, undefined}
use network_poller.Thread.Defs.{Worker, finished, Thread}

abbrev is_finished : Worker → Bool
is_finished finished = true
is_finished _ = false

-- Join reads through a null pointer if the thread was never started. Otherwise the Boolean is whether
-- it returns now, or waits for the thread.
unfoldable pub join : Thread → Result Bool
join s = if s.created then ok (is_finished s.worker) else fault undefined

-- GetThreadID, of a thread with this id.
unfoldable pub get_thread_id : (id : ℕ) → Thread → Result ℕ
get_thread_id id s = if s.created then ok id else fault undefined

-- The loop of EncThread::run, over the values of `quited_` that its tests read: whether it has ended,
-- and how many seconds it has slept.
unfoldable pub base_run : List Bool → Bool × ℕ
base_run [] = (false, 0)
base_run (quited ∷ rest) =
    let (ended, seconds) = base_run rest in if quited then (true, 0) else (ended, suc seconds)
