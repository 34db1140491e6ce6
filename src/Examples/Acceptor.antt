-- ===== src/Examples/Acceptor.antt =====
-- A descriptor table of eight entries, and an acceptor with it.
use network_poller.Prelude.{
  ℕ, zero, suc, ◌<◌, ◌≡◌, inl, inr, refl, sym, ap, subst, Bool, true, false, Option, none, some, [],
  ◌∷◌, arith, if◌then◌else◌,
}
use network_poller.Poller.Epoll.{same_or_not, update}
use network_poller.Acceptor.Files.{Files, Lowest}
use network_poller.Loop.{World}
use network_poller.Examples.Kernel.{table_epoll, list_queue}
use network_poller.Examples.Worlds.{idle_world}
use network_poller.Acceptor.{
  Acceptor, pending, failing, relieve, accept_loop, accept_loop-Busy, relieve-full,
}

-- The lowest of the numbers below `k` that the table does not have.
unfoldable search : ℕ → (ℕ → Bool) → Option ℕ
search zero t = none
search (suc k) t = elim (search k t) [ none ↦ if t k then none else some k | some n ↦ some n ]

search-full : (k : ℕ) (t : ℕ → Bool) → ((j : ℕ) → j < k → t j ≡ true) → search k t ≡ none
unfolding search
search-full zero t full = refl
search-full (suc k) t full =
    rw (search-full k t (λ j lt. full j (omega arith)), full k (omega arith)) refl

search-Lowest : (k n : ℕ) (t : ℕ → Bool) → n < k → Lowest (λ s j. s j) t n → search k t ≡ some n
unfolding search
search-Lowest zero n t lt lowest = absurd (omega arith)
search-Lowest (suc k) n t lt (shut, below) = elim (same_or_not n k) [
  | inl same ↦
      let shut_k : t k ≡ false = subst (λ i. t i ≡ false) same shut in
      rw (search-full k t (λ j before. below j (omega arith)), shut_k) (ap some (sym same))
  | inr ne ↦ rw (search-Lowest k n t (omega arith) (shut, below)) refl
]

abbrev with_descriptor : (ℕ → Bool) → ℕ → ℕ × (ℕ → Bool)
with_descriptor t n = (n, update t n true)

unfoldable pub take_lowest : (ℕ → Bool) → Option (ℕ × (ℕ → Bool))
unfolding search
take_lowest t = elim (search 8 t) [ none ↦ none | some n ↦ some (with_descriptor t n) ]

pub take_lowest-full : (t : ℕ → Bool) → ((j : ℕ) → j < 8 → t j ≡ true) → take_lowest t ≡ none
unfolding take_lowest
take_lowest-full t full = rw (search-full 8 t full, take_lowest) refl

pub take_lowest-Lowest :
    (t : ℕ → Bool) (n : ℕ)
    → n < 8
    → Lowest (λ s j. s j) t n
    → take_lowest t ≡ some (n, update t n true)
unfolding take_lowest
take_lowest-Lowest t n lt lowest = rw (search-Lowest 8 n t lt lowest, take_lowest) refl

abbrev pub eight : Files
eight = record {
  Table = ℕ → Bool;
  is_open = λ t j. t j;
  limit = 8;
  close = λ fd t. update t fd false;
  close_lem = λ fd t j. refl;
  obtain = take_lowest;
  obtain_full = take_lowest-full;
  obtain_lowest = λ t n lt lowest. (update t n true, take_lowest-Lowest t n lt lowest, λ j. refl);
}

-- The standard streams, the listening socket and the reserve are open.
abbrev pub five_open : ℕ → Bool
five_open zero = true
five_open (suc zero) = true
five_open (suc (suc zero)) = true
five_open (suc (suc (suc zero))) = true
five_open (suc (suc (suc (suc zero)))) = true
five_open (suc (suc (suc (suc (suc j))))) = false

abbrev pub listening_with : (ℕ → Bool) → Acceptor eight
listening_with t = record {
  channel = 3;
  idle_fd = 4;
  has_callback = true;
  listening = true;
  handed = [];
  table = t;
}

-- Two errors that stay: EBADF, and ECONNABORTED.
accept_loop-Busy_example :
    (accept_loop eight
      (failing 9 false ∷ failing 103 true ∷ pending ∷ [])
      (listening_with five_open)).0
    ≡ false
accept_loop-Busy_example =
    accept_loop-Busy eight (failing 9 false ∷ failing 103 true ∷ pending ∷ [])
      (listening_with five_open) (omega arith, (omega arith, tt))

abbrev all_open : ℕ → Bool
all_open j = true

relieve-full_example :
    ((j : ℕ) → (relieve eight true (listening_with all_open)).table j ≡ true)
    × ((relieve eight true (listening_with all_open)).handed ≡ [])
    × ((relieve eight true (listening_with all_open)).idle_fd ≡ 4)
relieve-full_example = relieve-full eight (listening_with all_open) (omega arith) (λ j lt. refl)

-- Standard output has been closed.
abbrev one_shut : ℕ → Bool
one_shut = update five_open 1 false

abbrev quiet_world : World table_epoll (list_queue (Unit {0})) (Acceptor eight)
quiet_world = idle_world (Unit {0}) (listening_with five_open)
