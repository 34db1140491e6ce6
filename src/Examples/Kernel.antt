-- ===== src/Examples/Kernel.antt =====
-- Code outside the repository, made concrete: an interest list that fails as epoll_ctl(2) does, and a
-- queue that is a list.
use network_poller.Prelude.{
  ℕ, ◌≡◌, refl, Bool, true, false, Option, none, some, List, [], ◌∷◌, ◌++◌, arith,
}
use network_poller.Poller.Epoll.{Epoll, HasRoom, Ctl, ctl_add, ctl_mod, ctl_del, update}
use network_poller.Loop.External.{TaskQueue}

abbrev pub Table : Type 0
Table = ℕ → Option (ℕ × ℕ)

-- The call, by the entry that the descriptor has: EEXIST and ENOENT are the failures.
abbrev pub answer : Ctl → Option (ℕ × ℕ) → ℕ → ℕ → ℕ → Table → Bool × Table
answer ctl_add none fd events ptr k = (true, update k fd (some (events, ptr)))
answer ctl_add (some x) fd events ptr k = (false, k)
answer ctl_mod none fd events ptr k = (false, k)
answer ctl_mod (some x) fd events ptr k = (true, update k fd (some (events, ptr)))
answer ctl_del none fd events ptr k = (false, k)
answer ctl_del (some x) fd events ptr k = (true, update k fd none)

pub failed_lem :
    (op : Ctl) (o : Option (ℕ × ℕ)) (fd events ptr : ℕ) (k : Table)
    → (answer op o fd events ptr k).0 ≡ false
    → (j : ℕ) → (answer op o fd events ptr k).1 j ≡ k j
failed_lem ctl_add none fd events ptr k h j = absurd (ground (arith, h))
failed_lem ctl_add (some x) fd events ptr k h j = refl
failed_lem ctl_mod none fd events ptr k h j = refl
failed_lem ctl_mod (some x) fd events ptr k h j = absurd (ground (arith, h))
failed_lem ctl_del none fd events ptr k h j = refl
failed_lem ctl_del (some x) fd events ptr k h j = absurd (ground (arith, h))

pub added_lem :
    (o : Option (ℕ × ℕ)) (fd events ptr : ℕ) (k : Table)
    → (answer ctl_add o fd events ptr k).0 ≡ true
    → (j : ℕ) → (answer ctl_add o fd events ptr k).1 j ≡ update k fd (some (events, ptr)) j
added_lem none fd events ptr k h j = refl
added_lem (some x) fd events ptr k h j = absurd (ground (arith, h))

pub modified_lem :
    (o : Option (ℕ × ℕ)) (fd events ptr : ℕ) (k : Table)
    → (answer ctl_mod o fd events ptr k).0 ≡ true
    → (j : ℕ) → (answer ctl_mod o fd events ptr k).1 j ≡ update k fd (some (events, ptr)) j
modified_lem none fd events ptr k h j = absurd (ground (arith, h))
modified_lem (some x) fd events ptr k h j = refl

pub deleted_lem :
    (o : Option (ℕ × ℕ)) (fd events ptr : ℕ) (k : Table)
    → (answer ctl_del o fd events ptr k).0 ≡ true
    → (j : ℕ) → (answer ctl_del o fd events ptr k).1 j ≡ update k fd none j
deleted_lem none fd events ptr k h j = absurd (ground (arith, h))
deleted_lem (some x) fd events ptr k h j = refl

abbrev pub table_epoll : Epoll
table_epoll = record {
  Kernel = Table;
  interest = λ k. k;
  ctl = λ op fd events ptr k. answer op (k fd) fd events ptr k;
  ctl_failed = λ op fd events ptr k. failed_lem op (k fd) fd events ptr k;
  ctl_added = λ fd events ptr k. added_lem (k fd) fd events ptr k;
  ctl_modified = λ fd events ptr k. modified_lem (k fd) fd events ptr k;
  ctl_deleted = λ fd events ptr k. deleted_lem (k fd) fd events ptr k;
}

pub table_room : HasRoom table_epoll
table_room = record {
  adds = λ fd events ptr k h. rw h refl;
  modifies = λ fd events ptr k x h. rw h refl;
  deletes = λ fd events ptr k x h. rw h refl;
}

abbrev pub dequeue : {T : Type 0} → List T → Option (T × List T)
dequeue [] = none
dequeue (t ∷ ts) = some (t, ts)

pub dequeue_nil : {T : Type 0} (q : List T) → q ≡ [] → dequeue q ≡ none
dequeue_nil q h = rw h refl

abbrev pub list_queue : (T : Type 0) → TaskQueue T
list_queue T = record {
  Queue = List T;
  items = λ q. q;
  enqueue = λ t q. q ++ t ∷ [];
  try_dequeue = dequeue;
  enqueue_lem = λ t q. refl;
  dequeue_none = dequeue_nil;
  dequeue_some = λ q t ts h. (ts, rw h refl, refl);
}
