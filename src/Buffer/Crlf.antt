-- ===== src/Buffer/Crlf.antt =====
-- `Buffer::FindCRLF` and `Buffer::RetrieveUntil`: lines in the readable bytes.
use network_poller.Prelude.{
  ℕ, zero, suc, ◌+◌, ◌-◌, ◌%◌, ◌≤◌, ◌<◌, ◌≡◌, refl, ap, ◌∙◌, Option, none, some, inl, inr, List, [],
  ◌∷◌, arith, length, length-take, length-drop, subst, take, drop, ◌&&◌, ◌==◌, Bool-cases,
}
use network_poller.Buffer.Defs.{Buffer, u32_mod, search_crlf, find_crlf, retrieve_until}
use network_poller.Buffer.Inv.{IsValid, contents, length-contents, copy_from_fits}
use network_poller.Buffer.Read.{contents-clear_read_index, clear_read_index-IsValid}

abbrev pub crlf : List ℕ
crlf = 13 ∷ 10 ∷ []

-- "\r\n" stands `k` bytes into the text.
abbrev pub CrlfAt : List ℕ → ℕ → Type 0
CrlfAt xs k = take 2 (drop k xs) ≡ crlf

-- The place that a search from `at` reports: the first one, or none where there is none.
abbrev pub Finds : ℕ → List ℕ → Option ℕ → Type 0
Finds at xs none = (k : ℕ) → ¬ CrlfAt xs k
Finds at xs (some p) = (k : ℕ) × (p ≡ at + k) × CrlfAt xs k × ((j : ℕ) → j < k → ¬ CrlfAt xs j)

CrlfAt-le : (xs : List ℕ) (k : ℕ) → CrlfAt xs k → k + 2 ≤ length xs
CrlfAt-le xs k e = omega (arith, ap length e, length-take 2 (drop k xs), length-drop k xs)

search-cons :
    (at c : ℕ) (xs : List ℕ) (o : Option ℕ)
    → ¬ CrlfAt (c ∷ xs) 0
    → Finds (at + 1) xs o
    → Finds at (c ∷ xs) o
search-cons at c xs none miss f = later
  where
    later : (k : ℕ) → ¬ CrlfAt (c ∷ xs) k
    later zero e = miss e
    later (suc k) e = f k e
search-cons at c xs (some p) miss (k, e, hit, first) = (suc k, omega arith, hit, earlier)
  where
    earlier : (j : ℕ) → j < suc k → ¬ CrlfAt (c ∷ xs) j
    earlier zero h e = miss e
    earlier (suc j) h e = first j (omega arith) e

not-CrlfAt-nil : (k : ℕ) → ¬ CrlfAt [] k
not-CrlfAt-nil zero e = cc
not-CrlfAt-nil (suc k) e = cc

not-CrlfAt-one : (c k : ℕ) → ¬ CrlfAt (c ∷ []) k
not-CrlfAt-one c zero e = cc
not-CrlfAt-one c (suc k) e = not-CrlfAt-nil k e

search_crlf-Finds : (at : ℕ) (xs : List ℕ) → Finds at xs (search_crlf at xs)
unfolding search_crlf
search_crlf-Finds at [] = not-CrlfAt-nil
search_crlf-Finds at (c ∷ []) = not-CrlfAt-one c
search_crlf-Finds at (c ∷ d ∷ rest) = elim (Bool-cases ((c == 13) && (d == 10))) [
  | inl hit ↦ rw hit (0, omega arith, ground arith, λ j h e. absurd (omega arith))
  | inr miss ↦
      rw miss
        (search-cons at c (d ∷ rest) _ (λ e. ground arith) (search_crlf-Finds (at + 1) (d ∷ rest)))
]

-- `FindCRLF` never reads outside the buffer, and returns the offset of the first "\r\n" among the
-- readable bytes, or null exactly where there is none.
pub find_crlf-Finds :
    {b : Buffer}
    → IsValid b
    → (o : Option ℕ) × (find_crlf b ≡ some o) × Finds b.read_index (contents b) o
unfolding find_crlf
find_crlf-Finds {b} v = (
  search_crlf b.read_index (contents b),
  rw
      (copy_from_fits b.read_index (b.write_index - b.read_index) b.buffer
        (omega (arith, v.write_le, v.read_le)))
      refl,
  search_crlf-Finds b.read_index (contents b),
)

-- Retrieving up to a place among the readable bytes, or to their end, removes what stands before it.
pub contents-retrieve_until :
    {b : Buffer} (last : ℕ)
    → IsValid b
    → b.read_index ≤ last
    → last ≤ b.write_index
    → IsValid (retrieve_until b last)
      × (contents (retrieve_until b last) ≡ drop (last - b.read_index) (contents b))
unfolding retrieve_until
contents-retrieve_until {b} last v lo hi =
    let e : (last - b.read_index) % u32_mod ≡ last - b.read_index =
      omega (arith, v.write_le, v.small) in
    ground (
      arith,
      clear_read_index-IsValid ((last - b.read_index) % u32_mod) v,
      contents-clear_read_index ((last - b.read_index) % u32_mod) v,
      e,
    )

-- Retrieving up to the line end that FindCRLF found keeps the invariant and leaves the text from that
-- "\r\n" on.
pub retrieve_until-find_crlf :
    {b : Buffer} (p : ℕ)
    → IsValid b
    → find_crlf b ≡ some (some p)
    → IsValid (retrieve_until b p)
      × (contents (retrieve_until b p) ≡ drop (p - b.read_index) (contents b))
      × (take 2 (contents (retrieve_until b p)) ≡ crlf)
retrieve_until-find_crlf {b} p v e =
    let (o, ran, found) = find_crlf-Finds v in
    let same : o ≡ some p = cc in
    let (k, at, hit, _) = subst (Finds b.read_index (contents b)) same found in
    let room = CrlfAt-le (contents b) k hit in
    let (valid, rest) =
      contents-retrieve_until p v (omega (arith, at))
        (omega (arith, at, room, length-contents v)) in
    let there : p - b.read_index ≡ k = omega (arith, at) in
    (valid, rest, ap (take 2) (rest ∙ ap (λ n. drop n (contents b)) there) ∙ hit)
