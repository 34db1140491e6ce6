-- ===== src/Server/System/Maps.antt =====
-- The map of each loop's poller, from a descriptor to a connection.
use network_poller.Prelude.{ℕ, ◌≡◌, ◌≢◌, sym, ap, ap₂, ◌∙◌, Option, none, some, inl, inr, ◌⊎◌}
use mathlib.Core.Option.{none-ne-some}
use network_poller.Poller.Epoll.{update, update_self, update_ne, same_or_not}

-- One entry of one of the maps is set.
abbrev pub update_at : (ℕ → ℕ → Option ℕ) → ℕ → ℕ → Option ℕ → ℕ → ℕ → Option ℕ
update_at f loop fd entry = update f loop (update (f loop) fd entry)

module _ (f : ℕ → ℕ → Option ℕ) (loop fd : ℕ) (entry : Option ℕ) where
  pub update_at_self : update_at f loop fd entry loop fd ≡ entry
  update_at_self =
      ap (λ g. g fd) (update_self f loop (update (f loop) fd entry)) ∙ update_self (f loop) fd entry

  pub update_at-cases :
      (l i : ℕ) → ((loop ≡ l) × (fd ≡ i)) ⊎ (update_at f loop fd entry l i ≡ f l i)
  update_at-cases l i = elim (same_or_not loop l) [
    | inr ne ↦ inr (ap (λ g. g i) (update_ne f loop (update (f loop) fd entry) l ne))
    | inl same ↦ elim (same_or_not fd i) [
      | inl same_fd ↦ inl (same, same_fd)
      | inr ne ↦ inr (
          rw (← same) (
            ap (λ g. g i) (update_self f loop (update (f loop) fd entry))
            ∙ update_ne (f loop) fd entry i ne))
    ]
  ]

  -- An entry of another connection stays, and no other comes.
  pub update_at_kept :
      (k l i : ℕ) → f loop fd ≢ some k → f l i ≡ some k → update_at f loop fd entry l i ≡ some k
  update_at_kept k l i free there = elim (update_at-cases l i) [
    | inl (same, same_fd) ↦ absurd (free (ap₂ f same same_fd ∙ there))
    | inr e ↦ e ∙ there
  ]

  pub update_at_back :
      (k l i : ℕ) → entry ≢ some k → update_at f loop fd entry l i ≡ some k → f l i ≡ some k
  update_at_back k l i other there = elim (update_at-cases l i) [
    | inl (same, same_fd) ↦
        absurd (other (sym update_at_self ∙ ap₂ (update_at f loop fd entry) same same_fd ∙ there))
    | inr e ↦ sym e ∙ there
  ]

-- One entry of the server's map is erased.
module _ (f : ℕ → Option ℕ) (i : ℕ) where
  pub erased_kept : (k j : ℕ) → f i ≢ some k → f j ≡ some k → update f i none j ≡ some k
  erased_kept k j free there = elim (same_or_not i j) [
    | inl same ↦ absurd (free (ap f same ∙ there))
    | inr ne ↦ update_ne f i none j ne ∙ there
  ]

  pub erased_back : (k j : ℕ) → update f i none j ≡ some k → f j ≡ some k
  erased_back k j there = elim (same_or_not i j) [
    | inl same ↦
        absurd (none-ne-some k (sym (update_self f i none) ∙ ap (update f i none) same ∙ there))
    | inr ne ↦ sym (update_ne f i none j ne) ∙ there
  ]

  pub erased_own : (k : ℕ) → ((j : ℕ) → f j ≡ some k → i ≡ j) → (j : ℕ) → update f i none j ≢ some k
  erased_own k only j there =
      none-ne-some k
        (sym (update_self f i none) ∙ ap (update f i none) (only j (erased_back k j there)) ∙ there)
