-- ===== src/Loop/External.antt =====
-- What core/net/event/event_loop.cpp uses of code outside the repository's own: the lock-free task
-- queue, and the eventfd behind `wakeup_fd_`. Both are parameters of the model.
use network_poller.Prelude.{ℕ, ◌≡◌, Option, none, some, List, [], ◌∷◌, ◌++◌}

-- moodycamel::ReaderWriterQueue, as its one producing and its one consuming thread see it: first in,
-- first out; `enqueue` as long as memory can be had. What calls of `enqueue` by several threads do is
-- outside this interface.
pub record TaskQueue (T : Type 0) : Type 1 where
  pub Queue : Type 0
  pub items : Queue → List T
  pub enqueue : T → Queue → Queue
  pub try_dequeue : Queue → Option (T × Queue)
  pub enqueue_lem : (t : T) (q : Queue) → items (enqueue t q) ≡ items q ++ t ∷ []
  pub dequeue_none : (q : Queue) → items q ≡ [] → try_dequeue q ≡ none
  pub dequeue_some :
      (q : Queue) (t : T) (ts : List T)
      → items q ≡ t ∷ ts
      → (q' : Queue) × (try_dequeue q ≡ some (t, q')) × (items q' ≡ ts)

-- What `read` and `write` return: a count, or -1 with `errno`; then `logged` is what `errno` is once the
-- caller has logged the error.
pub data IoResult : Type 0 where
  count : ℕ → IoResult
  io_failed : (errno logged : ℕ) → IoResult

-- An eventfd object, by the size of the buffer that is passed.
pub record EventFd : Type 1 where
  pub Counter : Type 0
  pub write : ℕ → ℕ → Counter → IoResult × Counter
  pub read : ℕ → Counter → IoResult × Counter
