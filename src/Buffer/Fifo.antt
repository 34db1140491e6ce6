-- ===== src/Buffer/Fifo.antt =====
-- The buffer as a byte queue: any history of its operations, against the queue of its contents.
use network_poller.Prelude.{
  ℕ, ◌+◌, ◌<◌, ◌≡◌, refl, ap, Option, some, List, [], ◌∷◌, ◌++◌, arith, length, take, drop,
}
use network_poller.Buffer.Defs.{
  Buffer, u32_mod, append, read_bytes, clear_read_index, received, read_from_fd, ◌>>=◌,
}
use network_poller.Buffer.Inv.{IsValid, contents}
use network_poller.Buffer.Append.{append_lem}
use network_poller.Buffer.Read.{
  read_bytes_lem, write-clear_read_index-le, contents-clear_read_index, clear_read_index-IsValid,
}
use network_poller.Buffer.ReadFd.{read_from_fd-received}

-- A client's calls.
pub data Call : Type 0 where
  puts : List ℕ → Call
  fills : List ℕ → Call
  gets : ℕ → Call
  skips : ℕ → Call

-- The bytes that each call hands to the client.
pub run : Buffer → List Call → Option (List (List ℕ) × Buffer)
run b [] = some ([], b)
run b (puts xs ∷ cs) = do b' ← append b xs; run b' cs
run b (fills xs ∷ cs) = do (_, b') ← read_from_fd b (received xs); run b' cs
run b (gets n ∷ cs) = do
  (bytes, b') ← read_bytes b n
  (out, last) ← run b' cs
  some (bytes ∷ out, last)
run b (skips n ∷ cs) = run (clear_read_index b n) cs

-- The same calls on a queue of bytes.
pub run_queue : List ℕ → List Call → List (List ℕ) × List ℕ
run_queue q [] = ([], q)
run_queue q (puts xs ∷ cs) = run_queue (q ++ xs) cs
run_queue q (fills xs ∷ cs) = run_queue (q ++ xs) cs
run_queue q (gets n ∷ cs) = let (out, last) = run_queue (drop n q) cs in (take n q ∷ out, last)
run_queue q (skips n ∷ cs) = run_queue (drop n q) cs

-- How many bytes the calls put in.
abbrev pub total : List Call → ℕ
total [] = 0
total (puts xs ∷ cs) = length xs + total cs
total (fills xs ∷ cs) = length xs + total cs
total (gets n ∷ cs) = total cs
total (skips n ∷ cs) = total cs

-- A history of calls that puts in fewer than 2 ^ 32 bytes behind the write index never fails,
-- keeps the invariant, and hands out what the queue of the contents hands out.
pub run_refines :
    (cs : List Call) {b : Buffer}
    → IsValid b
    → b.write_index + total cs < u32_mod
    → (out : List (List ℕ) × Buffer) × (run b cs ≡ some out)
      × (run_queue (contents b) cs ≡ (out.0, contents out.1))
      × IsValid out.1
unfolding run run_queue
run_refines [] {b} v h = (([], b), refl, refl, v)
run_refines (puts xs ∷ cs) v h =
    let (b', ran, stored) = append_lem xs v (omega arith) in
    let (out, rest, same, valid) = run_refines cs stored.valid (omega (arith, stored.writing)) in
    (out, rw ran rest, rw (← stored.added) same, valid)
run_refines (fills xs ∷ cs) v h =
    let (b', ran, stored) = read_from_fd-received xs v (omega arith) in
    let (out, rest, same, valid) = run_refines cs stored.valid (omega (arith, stored.writing)) in
    (out, rw ran rest, rw (← stored.added) same, valid)
run_refines (gets n ∷ cs) {b} v h =
    let (taken, ran, t) = read_bytes_lem n v in
    let (out, rest, same, valid) = run_refines cs t.valid (omega (arith, t.writing)) in
    (
      (take n (contents b) ∷ out.0, out.1),
      rw (ran, rest) (ap (λ xs. some (xs ∷ out.0, out.1)) t.bytes),
      rw (← t.rest, same) refl,
      valid,
    )
run_refines (skips n ∷ cs) {b} v h =
    let (out, rest, same, valid) =
      run_refines cs (clear_read_index-IsValid n v)
        (omega (arith, write-clear_read_index-le b n)) in
    (out, rest, rw (← contents-clear_read_index n v) same, valid)
