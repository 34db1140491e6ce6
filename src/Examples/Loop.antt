-- ===== src/Examples/Loop.antt =====
-- EventLoop on the concrete interest list and queue, with tasks that are numbers.
use network_poller.Prelude.{
  ℕ, ◌≡◌, refl, sym, true, false, some, none, List, [], ◌∷◌, ◌++◌, arith, append-nil,
}
use network_poller.Result.{Result, ok}
use network_poller.Channel.{new_channel}
use network_poller.Channel.Flags.{Interest}
use network_poller.Poller.{WaitResult, happened, wait_failed}
use network_poller.Loop.External.{TaskQueue}
use network_poller.Loop.{
  World, Round, while_not_quit, Follows, perform_each, apply_each, enables_writing, disables_all,
  history-Follows, Orderly, while_not_quit-serves, Registry, Unused, close_event_loop,
  close_event_loop-forgets, disable_all, disable_all-twice,
}
use network_poller.Examples.Kernel.{table_epoll, table_room, list_queue}
use network_poller.Examples.Worlds.{
  fresh, reading_only, watching_world, watching-Registry, seven-IsKnown, idle_world, idle-Registry,
  idle-IsFree,
}

abbrev tasks : TaskQueue ℕ
tasks = list_queue ℕ

-- The state beside the loop is the log of the tasks that ran.
abbrev Sample : Type 0
Sample = World table_epoll tasks (List ℕ)

abbrev exec : ℕ → Sample → Result Sample
exec task w = ok (record w { rest = w.rest ++ task ∷ [] })

abbrev handle : ℕ → Sample → Result Sample
handle id w = ok (record w { queue = w.queue ++ id ∷ [] })

orderly : Orderly table_epoll tasks exec handle (λ xs. xs)
orderly = record {
  runs = λ task w. (
    record w { rest = w.rest ++ task ∷ [] },
    refl,
    record {
      posted = [];
      queued = sym (append-nil w.queue);
      logged = refl;
      same_quit = refl;
      same_thread = refl;
    },
  );
  handles = λ id w. (
    record w { queue = w.queue ++ id ∷ [] },
    refl,
    record {
      posted = id ∷ [];
      queued = refl;
      logged = sym (append-nil w.rest);
      same_quit = refl;
      same_thread = refl;
    },
  );
}

abbrev start : Sample
start = idle_world ℕ []

history-Follows_example :
    (w : Sample) × (perform_each table_epoll tasks (enables_writing ∷ disables_all ∷ []) 1 7 start
      ≡ ok w)
    × Follows table_epoll tasks table_room 7 w (
        apply_each
          (enables_writing ∷ disables_all ∷ [])
          (record { reading = false; writing = false }))
history-Follows_example =
    history-Follows table_epoll tasks table_room 7 enables_writing (disables_all ∷ []) start
      (record { reading = false; writing = false }) (idle-Registry ℕ {R = List ℕ} [])
      (idle-IsFree ℕ {R = List ℕ} [] 7) refl

abbrev nothing : Interest
nothing = record { reading = false; writing = false }

abbrev waiting : Sample
waiting = record start { queue = 21 ∷ 22 ∷ [] }

abbrev calm : WaitResult → List ℕ → Round ℕ
calm waited arrived = record { arrived = arrived; asked_to_quit = false; waited = waited }

abbrev rounds : List (Round ℕ)
rounds = calm (happened ((1, 7) ∷ [])) (30 ∷ []) ∷ calm (wait_failed 4) [] ∷ []

while_not_quit-serves_example :
    (w : Sample) × (later : List ℕ) × (while_not_quit table_epoll tasks exec handle 1 rounds waiting
      ≡ ok (false, w))
    × (w.rest ≡ (21 ∷ 22 ∷ []) ++ later)
while_not_quit-serves_example =
    while_not_quit-serves table_epoll tasks exec handle (λ xs. xs) orderly rounds waiting
      (21 ∷ 22 ∷ []) [] (refl, (refl, tt)) refl refl (omega arith)

abbrev quitting : Round ℕ
quitting = record { arrived = 40 ∷ []; asked_to_quit = true; waited = wait_failed 4 }

abbrev other_thread : ℕ
other_thread = 2

disable_all-twice_example :
    (w1 w2 : Sample) × (disable_all table_epoll tasks 1 7 (watching_world ℕ [] reading_only)
      ≡ ok w1)
    × (disable_all table_epoll tasks 1 7 w1 ≡ ok w2)
    × (w1.poller.kernel 5 ≡ none)
    × (w2.poller.kernel 5 ≡ some (0, 7))
disable_all-twice_example =
    disable_all-twice table_epoll table_room tasks (watching_world ℕ [] reading_only) 7
      (watching-Registry ℕ {R = List ℕ} [] reading_only) refl

unused : Unused 100 fresh
unused = record { address = λ i. refl; owner = λ i. refl; new_yet = λ i. refl }

close_event_loop-forgets_example :
    (w : Sample) × (close_event_loop table_epoll tasks 1 7 (watching_world ℕ [] reading_only)
      ≡ ok w)
    × Registry table_epoll tasks w
    × ((w.heap 7).status ≡ new_channel)
    × (w.poller.channels 5 ≡ none)
    × (w.poller.kernel 5 ≡ none)
close_event_loop-forgets_example =
    close_event_loop-forgets table_epoll table_room tasks (watching_world ℕ [] reading_only) 7
      (watching-Registry ℕ {R = List ℕ} [] reading_only)
      (seven-IsKnown ℕ {R = List ℕ} [] reading_only) refl
