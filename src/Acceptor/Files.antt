-- ===== src/Acceptor/Files.antt =====
-- What core/net/tcp/tcp_acceptor.cpp uses of the process's descriptor table, as close(2), open(2)
-- and accept(2) document it: a new descriptor is the lowest number that is not open, below the limit
-- of RLIMIT_NOFILE. The table is a parameter of the model.
use network_poller.Prelude.{ℕ, ◌<◌, ◌≡◌, Bool, true, false, Option, none, some, ◌==◌, if◌then◌else◌}

-- A descriptor that is not open, with none below it that is not.
abbrev pub Lowest : {T : Type 0} → (T → ℕ → Bool) → T → ℕ → Type 0
Lowest is_open t n = (is_open t n ≡ false) × ((j : ℕ) → j < n → is_open t j ≡ true)

pub record Files : Type 1 where
  pub Table : Type 0
  pub is_open : Table → ℕ → Bool
  pub limit : ℕ
  -- closing a descriptor that is not open fails and changes nothing
  pub close : ℕ → Table → Table
  pub close_lem :
      (fd : ℕ) (t : Table) (j : ℕ)
      → is_open (close fd t) j ≡ (if fd == j then false else is_open t j)
  -- a new descriptor, for a file or for a connection
  pub obtain : Table → Option (ℕ × Table)
  pub obtain_full : (t : Table) → ((j : ℕ) → j < limit → is_open t j ≡ true) → obtain t ≡ none
  pub obtain_lowest :
      (t : Table) (n : ℕ)
      → n < limit
      → Lowest is_open t n
      → (t' : Table) × (obtain t ≡ some (n, t'))
        × ((j : ℕ) → is_open t' j ≡ (if n == j then true else is_open t j))
