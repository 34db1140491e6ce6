-- ===== src/Poller/Epoll.antt =====
-- What core/net/poller_impl/epoll_poller.cpp uses of the kernel: one epoll instance, as epoll_ctl(2)
-- documents it. The kernel is a parameter of the model.
use mathlib.Core.Path.{fun_ext}
use network_poller.Prelude.{
  ℕ, ◌≡◌, ◌≢◌, ◌⊎◌, inl, inr, refl, sym, ◌∙◌, subst, arith, Bool, true, false, Option, none, some,
  ◌==◌, ==_refl, ==_ne, if◌then◌else◌,
}

-- EPOLL_CTL_ADD, EPOLL_CTL_MOD and EPOLL_CTL_DEL.
pub data Ctl : Type 0 where
  ctl_add ctl_mod ctl_del : Ctl

-- A function at one argument.
abbrev pub update {ℓ} : {A : Type ℓ} → (ℕ → A) → ℕ → A → ℕ → A
update f i a j = if i == j then a else f j

pub same_or_not : (i j : ℕ) → (i ≡ j) ⊎ (i ≢ j)
same_or_not i j = ground arith

pub update_self {ℓ} : {A : Type ℓ} (f : ℕ → A) (i : ℕ) (a : A) → update f i a i ≡ a
update_self f i a = rw (==_refl i) refl

pub update_ne {ℓ} : {A : Type ℓ} (f : ℕ → A) (i : ℕ) (a : A) (j : ℕ) → i ≢ j → update f i a j ≡ f j
update_ne f i a j ne = rw (==_ne i j ne) refl

-- The second of two updates at one place stands.
pub update-update {ℓ} :
    {A : Type ℓ} (f : ℕ → A) (i : ℕ) (a b : A) → update (update f i a) i b ≡ update f i b
update-update f i a b = fun_ext λ j. elim (same_or_not i j) [
  | inl same ↦ rw same (update_self (update f j a) j b ∙ sym (update_self f j b))
  | inr ne ↦ update_ne (update f i a) i b j ne ∙ update_ne f i a j ne ∙ sym (update_ne f i b j ne)
]

-- What holds of the new value, and of the old ones elsewhere, holds of all.
pub update_all {ℓ κ} :
    {A : Type ℓ} (P : ℕ → A → Type κ) (f : ℕ → A) (i : ℕ) (a : A)
    → P i a
    → ((j : ℕ) → i ≢ j → P j (f j))
    → (j : ℕ) → P j (update f i a j)
update_all P f i a here there j = elim (same_or_not i j) [
  | inl same ↦ subst (λ k. P k (update f i a k)) same (rw (update_self f i a) here)
  | inr ne ↦ rw (update_ne f i a j ne) (there j ne)
]

-- `interest k fd` is the entry of the interest list: the event mask and `data.ptr`.
-- `ctl op fd events ptr k` is whether the call succeeds, and the instance afterwards.
pub record Epoll : Type 1 where
  pub Kernel : Type 0
  pub interest : Kernel → ℕ → Option (ℕ × ℕ)
  pub ctl : Ctl → ℕ → ℕ → ℕ → Kernel → Bool × Kernel
  -- a call that fails leaves the interest list alone
  pub ctl_failed :
      (op : Ctl) (fd events ptr : ℕ) (k : Kernel)
      → (ctl op fd events ptr k).0 ≡ false
      → (j : ℕ) → interest (ctl op fd events ptr k).1 j ≡ interest k j
  -- EPOLL_CTL_ADD that succeeds enters the descriptor
  pub ctl_added :
      (fd events ptr : ℕ) (k : Kernel)
      → (ctl ctl_add fd events ptr k).0 ≡ true
      → (j : ℕ)
      → interest (ctl ctl_add fd events ptr k).1 j ≡ update (interest k) fd (some (events, ptr)) j
  -- EPOLL_CTL_MOD that succeeds replaces its entry
  pub ctl_modified :
      (fd events ptr : ℕ) (k : Kernel)
      → (ctl ctl_mod fd events ptr k).0 ≡ true
      → (j : ℕ)
      → interest (ctl ctl_mod fd events ptr k).1 j ≡ update (interest k) fd (some (events, ptr)) j
  -- EPOLL_CTL_DEL that succeeds removes it
  pub ctl_deleted :
      (fd events ptr : ℕ) (k : Kernel)
      → (ctl ctl_del fd events ptr k).0 ≡ true
      → (j : ℕ) → interest (ctl ctl_del fd events ptr k).1 j ≡ update (interest k) fd none j

-- The errors that epoll_ctl(2) leaves: EEXIST and ENOENT apart, none occurs, so an addition of a
-- descriptor that is not in the list succeeds, and a change or removal of one that is.
pub record HasRoom (e : Epoll) : Type 0 where
  pub adds :
      (fd events ptr : ℕ) (k : e.Kernel)
      → e.interest k fd ≡ none
      → (e.ctl ctl_add fd events ptr k).0 ≡ true
  pub modifies :
      (fd events ptr : ℕ) (k : e.Kernel) (x : ℕ × ℕ)
      → e.interest k fd ≡ some x
      → (e.ctl ctl_mod fd events ptr k).0 ≡ true
  pub deletes :
      (fd events ptr : ℕ) (k : e.Kernel) (x : ℕ × ℕ)
      → e.interest k fd ≡ some x
      → (e.ctl ctl_del fd events ptr k).0 ≡ true
