-- ===== src/Pool.antt =====
-- class EventLoopThreadPool of core/net/event/event_loop_thread_pool.cpp.
use network_poller.Prelude.{
  ℕ, zero, suc, ◌+◌, ◌%◌, ◌≤◌, ◌<◌, ◌≡◌, refl, sym, ap, ◌∙◌, Option, none, some, inl, inr, ◌⊎◌,
  List, [], ◌∷◌, ◌++◌, arith, leb, Bool, true, false, if◌then◌else◌, length, drop, length-drop,
  drop-drop, Bool-cases,
}
use native.Mathlib.Nat.{mod-lt}
use network_poller.Buffer.{u32_mod, ◌>>=◌}

-- Loops are known by their addresses. The threads behind them are not modelled here.
pub record Pool : Type 0 where
  pub thread_num : ℕ
  pub main_loop : ℕ
  pub next_index : ℕ
  pub loops : List ℕ

-- The constructor.
unfoldable pub new_pool : ℕ → ℕ → Pool
new_pool num loop = record { thread_num = num; main_loop = loop; next_index = 0; loops = [] }

-- `std::vector::operator[]`; `none` is an access outside the vector.
unfoldable pub get_elem? : List ℕ → ℕ → Option ℕ
get_elem? xs i = elim (drop i xs) [ [] ↦ none | x ∷ _ ↦ some x ]

-- Initialize: `started i` is what GetLoopInThread of the i-th new thread returns.
unfoldable pub start_from : (ℕ → ℕ) → ℕ → ℕ → List ℕ
start_from started i zero = []
start_from started i (suc n) = started i ∷ start_from started (i + 1) n

unfoldable pub initialize : (ℕ → ℕ) → Pool → Pool
unfolding start_from
initialize started p = record p { loops = p.loops ++ start_from started 0 p.thread_num }

-- `empty()`.
abbrev pub is_nil : List ℕ → Bool
is_nil [] = true
is_nil (_ ∷ _) = false

-- GetEventLoopFromPool; `++next_index_` is on a `uint32_t`.
unfoldable pub get_event_loop_from_pool : Pool → Option (ℕ × Pool)
get_event_loop_from_pool p = if is_nil p.loops then some (p.main_loop, p) else (do
  loop ← get_elem? p.loops p.next_index
  let next = (p.next_index + 1) % u32_mod
  some (loop, record p { next_index = if leb (length p.loops) next then 0 else next }))

-- GetEventLoopFromPoolForHash.
unfoldable pub get_event_loop_from_pool_for_hash : ℕ → Pool → Option ℕ
get_event_loop_from_pool_for_hash hash p =
    if is_nil p.loops then some p.main_loop else get_elem? p.loops (hash % length p.loops % u32_mod)

-- Repeated calls, and the loops that they hand out.
pub get_many : ℕ → Pool → Option (List ℕ × Pool)
get_many zero p = some ([], p)
get_many (suc n) p = do
  (loop, p1) ← get_event_loop_from_pool p
  (loops, p2) ← get_many n p1
  some (loop ∷ loops, p2)

not-is_nil :
    (n : ℕ) (xs : List ℕ) {x : ℕ} {rest : List ℕ} → drop n xs ≡ x ∷ rest → is_nil xs ≡ false
not-is_nil n [] h = absurd (omega (arith, ap length h, length-drop {A = ℕ} n []))
not-is_nil n (x ∷ xs) h = refl

get_elem?-drop :
    (xs : List ℕ) (i : ℕ) {x : ℕ} {rest : List ℕ} → drop i xs ≡ x ∷ rest → get_elem? xs i ≡ some x
unfolding get_elem?
get_elem?-drop xs i h = rw (h, get_elem?) refl

step :
    (p : Pool) (x : ℕ) (rest : List ℕ)
    → drop p.next_index p.loops ≡ x ∷ rest
    → length p.loops < u32_mod
    → get_event_loop_from_pool p
      ≡ some (
        x,
        record p {
          next_index = if leb (length p.loops) (p.next_index + 1) then 0 else p.next_index + 1;
        },
      )
unfolding get_event_loop_from_pool
step p x rest h small =
    let some_loops = not-is_nil p.next_index p.loops h in
    let below : p.next_index + 1 ≤ length p.loops =
      omega (arith, ap length h, length-drop p.next_index p.loops) in
    let e : (p.next_index + 1) % u32_mod ≡ p.next_index + 1 = omega arith in
    rw (some_loops, get_elem?-drop p.loops p.next_index h, e) refl

-- From any place in the round, as many calls as there are loops from that place on hand out exactly
-- these, in the order of the pool, without an access outside the vector; then the round begins again.
pub get_many-round :
    (p : Pool) (x : ℕ) (rest : List ℕ)
    → drop p.next_index p.loops ≡ x ∷ rest
    → length p.loops < u32_mod
    → get_many (length (x ∷ rest)) p ≡ some (x ∷ rest, record p { next_index = 0 })
unfolding get_many
get_many-round p x [] h small =
    let last : leb (length p.loops) (p.next_index + 1) ≡ true =
      ground (arith, ap length h, length-drop p.next_index p.loops) in
    rw (step p x [] h small, last) refl
get_many-round p x (y ∷ rest) h small =
    let more : leb (length p.loops) (p.next_index + 1) ≡ false =
      ground (arith, ap length h, length-drop p.next_index p.loops) in
    let moved : Pool = record p { next_index = p.next_index + 1 } in
    let there : drop moved.next_index moved.loops ≡ y ∷ rest =
      sym (drop-drop 1 p.next_index p.loops) ∙ ap (drop 1) h in
    rw (step p x (y ∷ rest) h small, more, get_many-round moved y rest there small) refl

drop-cons :
    (xs : List ℕ) (i : ℕ) → i < length xs → (x : ℕ) × (rest : List ℕ) × (drop i xs ≡ x ∷ rest)
drop-cons [] i h = absurd (omega arith)
drop-cons (x ∷ xs) zero h = (x, xs, refl)
drop-cons (x ∷ xs) (suc i) h = drop-cons xs i (omega arith)

-- For every hash code the pool hands out the main loop if it has no other, and otherwise the loop at
-- the remainder of the code by their number, which is never outside the vector.
pub get_event_loop_from_pool_for_hash-total :
    (hash : ℕ) (p : Pool)
    → length p.loops < u32_mod
    → ((is_nil p.loops ≡ true) × (get_event_loop_from_pool_for_hash hash p ≡ some p.main_loop))
      ⊎ ((is_nil p.loops ≡ false)
          × (x : ℕ) × (rest : List ℕ) × (drop (hash % length p.loops) p.loops ≡ x ∷ rest)
          × (get_event_loop_from_pool_for_hash hash p ≡ some x))
unfolding get_event_loop_from_pool_for_hash
get_event_loop_from_pool_for_hash-total hash p small = elim (Bool-cases (is_nil p.loops)) [
  | inl none_there ↦ inl (none_there, rw none_there refl)
  | inr some_there ↦
      let below : hash % length p.loops < length p.loops =
        mod-lt hash (length-positive p.loops some_there) in
      let (x, rest, there) = drop-cons p.loops (hash % length p.loops) below in
      let e : hash % length p.loops % u32_mod ≡ hash % length p.loops = omega arith in
      inr (
        some_there,
        x,
        rest,
        there,
        rw (some_there, e) (get_elem?-drop p.loops (hash % length p.loops) there),
      )
]
  where
    length-positive : (xs : List ℕ) → is_nil xs ≡ false → 0 < length xs
    length-positive [] h = absurd (ground (arith, h))
    length-positive (x ∷ xs) h = omega arith

length-start_from : (started : ℕ → ℕ) (i n : ℕ) → length (start_from started i n) ≡ n
unfolding start_from
length-start_from started i zero = refl
length-start_from started i (suc n) = ap suc (length-start_from started (i + 1) n)

-- A new pool of `n` threads, once initialised, hands out the loops of its threads one after the
-- other, in the order of their start, and then begins again with the first.
pub initialize-round :
    (started : ℕ → ℕ) (n loop : ℕ)
    → 0 < n
    → n < u32_mod
    → get_many n (initialize started (new_pool n loop))
      ≡ some (start_from started 0 n, initialize started (new_pool n loop))
unfolding initialize new_pool start_from
initialize-round started zero loop some_threads small = absurd (omega arith)
initialize-round started (suc n) loop some_threads small =
    let p : Pool = initialize started (new_pool (suc n) loop) in
    let e = length-start_from started 1 n in
    ap (λ k. get_many (suc k) p) (sym e)
    ∙ get_many-round p (started 0) (start_from started 1 n) refl (omega (arith, e))
