-- ===== src/Server/System/Queues.antt =====
-- The queues of the loops, by the connection that a functor is about.
use network_poller.Prelude.{
  length, suc, ℕ, ◌≡◌, ◌≢◌, refl, sym, ap, ◌∙◌, Bool, true, false, none, some, inl, inr, List, [],
  ◌∷◌, ◌++◌, ◌⊎◌, ◌==◌, if◌then◌else◌, arith, Bool-cases,
}
use network_poller.Server.Defs.{Post, listens, establishes, destroys, removes}
use network_poller.Server.System.Defs.{dequeue}

-- Whether a functor is bound to the connection.
abbrev pub concerns : ℕ → Post → Bool
concerns conn listens = false
concerns conn (establishes c) = c == conn
concerns conn (destroys c) = c == conn
concerns conn (removes c) = c == conn

-- What the queues hold for one connection, oldest first.
abbrev pub mine : ℕ → List (ℕ × Post) → List (ℕ × Post)
mine conn [] = []
mine conn (x ∷ xs) = if concerns conn x.1 then x ∷ mine conn xs else mine conn xs

pub mine-cons_its :
    (conn : ℕ) (x : ℕ × Post) (xs : List (ℕ × Post))
    → concerns conn x.1 ≡ true
    → mine conn (x ∷ xs) ≡ x ∷ mine conn xs
mine-cons_its conn x xs its = rw its refl

pub mine-cons_other :
    (conn : ℕ) (x : ℕ × Post) (xs : List (ℕ × Post))
    → concerns conn x.1 ≡ false
    → mine conn (x ∷ xs) ≡ mine conn xs
mine-cons_other conn x xs other = rw other refl

pub mine-append :
    (conn : ℕ) (xs ys : List (ℕ × Post)) → mine conn (xs ++ ys) ≡ mine conn xs ++ mine conn ys
mine-append conn [] ys = refl
mine-append conn (x ∷ xs) ys = elim (Bool-cases (concerns conn x.1)) [
  | inl its ↦ rw (its, mine-append conn xs ys) refl
  | inr other ↦ rw (other, mine-append conn xs ys) refl
]

-- `rest` is what the queues hold without one functor of the loop.
pub data Taken (loop : ℕ) (what : Post) : List (ℕ × Post) → List (ℕ × Post) → Type 0 where
  first : {xs : List (ℕ × Post)} → Taken loop what ((loop, what) ∷ xs) xs
  later :
      {x : ℕ × Post} {xs rest : List (ℕ × Post)}
      → Taken loop what xs rest
      → Taken loop what (x ∷ xs) (x ∷ rest)

pub dequeue-Taken :
    (loop : ℕ) (xs : List (ℕ × Post))
    → (dequeue loop xs ≡ none)
      ⊎ ((what : Post) × (rest : List (ℕ × Post)) × (dequeue loop xs ≡ some (what, rest))
          × Taken loop what xs rest)
unfolding dequeue
dequeue-Taken loop [] = inl refl
dequeue-Taken loop (x ∷ xs) = elim (Bool-cases (loop == x.0)) [
  | inl its ↦
      let same : loop ≡ x.0 = ground arith in
      inr (x.1, xs, rw (its, dequeue) refl, rw (← same) first)
  | inr other ↦ elim (dequeue-Taken loop xs) [
    | inl empty ↦ inl (rw (other, empty, dequeue) refl)
    | inr (what, rest, got, taken) ↦
        inr (what, x ∷ rest, rw (other, got, dequeue) refl, later taken)
  ]
]

cons_parts : {x y : ℕ × Post} {xs ys : List (ℕ × Post)} → x ∷ xs ≡ y ∷ ys → (x ≡ y) × (xs ≡ ys)
cons_parts e = grind arith

module _ {loop : ℕ} {what : Post} (conn : ℕ) where
  -- The functors for another connection stay.
  pub mine-Taken_other :
      {xs rest : List (ℕ × Post)}
      → Taken loop what xs rest
      → concerns conn what ≡ false
      → mine conn rest ≡ mine conn xs
  mine-Taken_other first other = rw other refl
  mine-Taken_other (later {x} {xs} {rest} taken) other =
      ap (λ ys. if concerns conn x.1 then x ∷ ys else ys) (mine-Taken_other taken other)

  -- A functor for the connection was in the queues.
  pub mine-Taken_some :
      {xs rest : List (ℕ × Post)}
      → Taken loop what xs rest
      → concerns conn what ≡ true
      → mine conn xs ≢ []
  mine-Taken_some (first {xs}) its empty =
      let e = sym (mine-cons_its conn (loop, what) xs its) ∙ empty in grind arith
  mine-Taken_some (later {x} {xs} {rest} taken) its empty = elim (Bool-cases (concerns conn x.1)) [
    | inl too ↦ let e = sym (mine-cons_its conn x xs too) ∙ empty in grind arith
    | inr other ↦ mine-Taken_some taken its (sym (mine-cons_other conn x xs other) ∙ empty)
  ]

  -- If it was the only one, none is left.
  pub mine-Taken_only :
      {xs rest : List (ℕ × Post)} {x : ℕ × Post}
      → Taken loop what xs rest
      → concerns conn what ≡ true
      → mine conn xs ≡ x ∷ []
      → (x ≡ (loop, what)) × (mine conn rest ≡ [])
  mine-Taken_only (first {xs}) its one =
      let (same, empty) = cons_parts (sym (mine-cons_its conn (loop, what) xs its) ∙ one) in
      (sym same, empty)
  mine-Taken_only (later {x} {xs} {rest} taken) its one = elim (Bool-cases (concerns conn x.1)) [
    | inl too ↦
        absurd (mine-Taken_some taken its (cons_parts (sym (mine-cons_its conn x xs too) ∙ one)).1)
    | inr other ↦
        let (same, empty) =
          mine-Taken_only taken its (sym (mine-cons_other conn x xs other) ∙ one) in
        (same, mine-cons_other conn x rest other ∙ empty)
  ]

pub length-Taken :
    {loop : ℕ} {what : Post} {xs rest : List (ℕ × Post)}
    → Taken loop what xs rest
    → suc (length rest) ≡ length xs
length-Taken first = refl
length-Taken (later taken) = omega (arith, length-Taken taken)
