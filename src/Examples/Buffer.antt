-- ===== src/Examples/Buffer.antt =====
-- The byte buffer at a concrete state.
use network_poller.Prelude.{ℕ, ◌≡◌, refl, Option, some, List, [], ◌∷◌, arith}
use network_poller.Buffer.{
  Buffer, copy_from, search_crlf, IsValid, contents, append, find_crlf, Stored, Finds, Call, puts,
  fills, gets, skips, run, run_queue, append_lem, find_crlf-Finds, run_refines,
}

-- One byte read, "A", "\r" and "\n" waiting, two free places.
abbrev sample : Buffer
sample = record { read_index = 1; write_index = 4; buffer = 9 ∷ 65 ∷ 13 ∷ 10 ∷ 0 ∷ 0 ∷ [] }

sample-IsValid : IsValid sample
sample-IsValid = record { read_le = omega arith; write_le = omega arith; small = omega arith }

abbrev bytes : List ℕ
bytes = 66 ∷ 67 ∷ 68 ∷ []

abbrev calls : List Call
calls = puts bytes ∷ gets 2 ∷ fills (1 ∷ 2 ∷ []) ∷ skips 1 ∷ gets 9 ∷ []

run_refines_example :
    (out : List (List ℕ) × Buffer) × (run sample calls ≡ some out)
    × (run_queue (contents sample) calls ≡ (out.0, contents out.1))
    × IsValid out.1
run_refines_example = run_refines calls sample-IsValid (omega arith)

append_lem_example : (b : Buffer) × (append sample bytes ≡ some b) × Stored sample b bytes
append_lem_example = append_lem bytes sample-IsValid (omega arith)

find_crlf-Finds_example : (o : Option ℕ) × (find_crlf sample ≡ some o) × Finds 1 (contents sample) o
find_crlf-Finds_example = find_crlf-Finds sample-IsValid

found : find_crlf sample ≡ some (some 2)
unfolding find_crlf copy_from search_crlf
found = refl
