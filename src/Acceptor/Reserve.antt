-- ===== src/Acceptor/Reserve.antt =====
-- The reserve descriptor `idle_fd_` of tcp_acceptor.cpp.
use network_poller.Prelude.{
  ℕ, ◌<◌, ◌≡◌, ◌≢◌, refl, sym, ◌∙◌, subst, true, false, inl, inr, arith, ==_refl, ==_ne,
}
use network_poller.Poller.Epoll.{same_or_not}
use network_poller.Acceptor.Files.{Files, Lowest}
use network_poller.Acceptor.Defs.{Acceptor, relieve, after_obtain}

module _ (files : Files) where
  open files use {Table, is_open, limit, close, close_lem, obtain, obtain_full, obtain_lowest}

  pub closed_self : (fd : ℕ) (t : Table) → is_open (close fd t) fd ≡ false
  closed_self fd t = close_lem fd t fd ∙ rw (==_refl fd) refl

  closed_ne : (fd : ℕ) (t : Table) (j : ℕ) → fd ≢ j → is_open (close fd t) j ≡ is_open t j
  closed_ne fd t j ne = close_lem fd t j ∙ rw (==_ne fd j ne) refl

  -- Obtaining the lowest descriptor `n`.
  record Opened (n : ℕ) (t : Table) : Type 0 where
    self : is_open (after_obtain files t) n ≡ true
    others : (j : ℕ) → n ≢ j → is_open (after_obtain files t) j ≡ is_open t j

  Lowest-Opened : (n : ℕ) (t : Table) → n < limit → Lowest is_open t n → Opened n t
  Lowest-Opened n t lt lowest =
      let (t', got, now) = obtain_lowest t n lt lowest in
      record {
        self = rw (got, after_obtain) (now n ∙ rw (==_refl n) refl);
        others = λ j ne. rw (got, after_obtain) (now j ∙ rw (==_ne n j ne) refl);
      }

  -- Closing a descriptor that is open and below which all are open, and opening one again, changes
  -- nothing.
  reopen :
      (fd : ℕ) (t : Table)
      → fd < limit
      → ((j : ℕ) → j < fd → is_open t j ≡ true)
      → is_open t fd ≡ true
      → (j : ℕ) → is_open (after_obtain files (close fd t)) j ≡ is_open t j
  reopen fd t small below self j =
      let below_closed : (i : ℕ) → i < fd → is_open (close fd t) i ≡ true =
        λ i lt. closed_ne fd t i (λ e. absurd (omega arith)) ∙ below i lt in
      let now = Lowest-Opened fd (close fd t) small (closed_self fd t, below_closed) in
      elim (same_or_not fd j) [
        | inl same ↦
            subst (λ i. is_open (after_obtain files (close fd t)) i ≡ is_open t i) same
              (now.self ∙ sym self)
        | inr ne ↦ now.others j ne ∙ closed_ne fd t j ne
      ]

  -- With a table that is full, as for EMFILE, and a connection that waits, the branch for an error
  -- drops that connection and has its reserve again: all descriptors are open as before, and nothing
  -- is handed over.
  pub relieve-full :
      (a : Acceptor files)
      → a.idle_fd < limit
      → ((j : ℕ) → j < limit → is_open a.table j ≡ true)
      → ((j : ℕ) → is_open (relieve files true a).table j ≡ is_open a.table j)
        × ((relieve files true a).handed ≡ a.handed)
        × ((relieve files true a).idle_fd ≡ a.idle_fd)
  unfolding relieve
  relieve-full a small full =
      let fd = a.idle_fd in
      let t2 = after_obtain files (close fd a.table) in
      let same : (j : ℕ) → is_open t2 j ≡ is_open a.table j =
        reopen fd a.table small (λ j lt. full j (omega arith)) (full fd small) in
      let again =
        reopen fd t2 small (λ j lt. same j ∙ full j (omega arith)) (same fd ∙ full fd small) in
      (λ j. again j ∙ same j, refl, refl)
