-- ===== src/Acceptor/Accepting.antt =====
-- `TcpAcceptor::AcceptHandle`: which connections it hands over, and when its loop ends.
use network_poller.Prelude.{
  ℕ, ◌≡◌, ◌≢◌, refl, sym, ◌∙◌, Bool, true, false, some, List, [], ◌∷◌, ◌++◌, arith, append-nil,
  append_assoc, ==_ne,
}
use network_poller.Acceptor.Files.{Files}
use network_poller.Acceptor.Defs.{
  Acceptor, Attempt, pending, failing, eagain, take_connection, on_error, accept_once, accept_loop,
}

-- One connection for each of the descriptors, and then none.
unfoldable pub connections : List ℕ → Bool → List Attempt
connections [] again = failing eagain again ∷ []
connections (_ ∷ fds) again = pending ∷ connections fds again

-- No attempt is the error EAGAIN.
abbrev pub Busy : List Attempt → Type 0
Busy [] = Unit {0}
Busy (pending ∷ xs) = Busy xs
Busy (failing errno again ∷ xs) = (errno ≢ eagain) × Busy xs

module _ (files : Files) where
  open files use {Table, is_open, limit, close, obtain}

  -- The table hands out these descriptors one after the other.
  abbrev pub Takes : List ℕ → Table → Table → Type 0
  Takes [] t t' = t ≡ t'
  Takes (fd ∷ fds) t t' = (u : Table) × (obtain t ≡ some (fd, u)) × Takes fds u t'

  one_connection :
      (fd : ℕ) (a : Acceptor files) (u : Table)
      → a.has_callback ≡ true
      → obtain a.table ≡ some (fd, u)
      → accept_once files pending a ≡ (false, record a { handed = a.handed ++ fd ∷ []; table = u })
  unfolding accept_once take_connection
  one_connection fd a u there got = rw (got, accept_once) (rw there refl)

  -- If the table has room for all connections that wait, AcceptHandle gives each to the callback, in
  -- the order of their arrival, and ends when there is none left.
  pub accept_loop-connections :
      (fds : List ℕ) (again : Bool) (a : Acceptor files) (t : Table)
      → a.has_callback ≡ true
      → Takes fds a.table t
      → accept_loop files (connections fds again) a
        ≡ (true, record a { handed = a.handed ++ fds; table = t })
  unfolding accept_loop connections accept_once on_error
  accept_loop-connections [] again a t there same = rw (append-nil a.handed, ← same) refl
  accept_loop-connections (fd ∷ fds) again a t there (u, got, rest) =
      let next : Acceptor files = record a { handed = a.handed ++ fd ∷ []; table = u } in
      rw (one_connection fd a u there got) (
        accept_loop-connections fds again next t there rest
        ∙ rw (append_assoc a.handed (fd ∷ []) fds) refl)

  not_done : (x : Attempt) (a : Acceptor files) → Busy (x ∷ []) → (accept_once files x a).0 ≡ false
  unfolding accept_once on_error
  not_done pending a busy = ground arith
  not_done (failing errno again) a (other, busy) = rw (==_ne eagain errno (λ e. other (sym e))) refl

  -- The loop ends at EAGAIN alone: over attempts none of which is EAGAIN it goes on, however many
  -- they are and whatever the other errors.
  pub accept_loop-Busy :
      (xs : List Attempt) (a : Acceptor files) → Busy xs → (accept_loop files xs a).0 ≡ false
  unfolding accept_loop
  accept_loop-Busy [] a busy = refl
  accept_loop-Busy (pending ∷ xs) a busy =
      rw (not_done pending a tt) (accept_loop-Busy xs (accept_once files pending a).1 busy)
  accept_loop-Busy (failing errno again ∷ xs) a (other, busy) =
      rw (not_done (failing errno again) a (other, tt))
        (accept_loop-Busy xs (accept_once files (failing errno again) a).1 busy)
