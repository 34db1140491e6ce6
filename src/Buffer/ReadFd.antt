-- ===== src/Buffer/ReadFd.antt =====
-- `Buffer::ReadFromFD`: the two-part read through `readv`.
use network_poller.Prelude.{
  ℕ, ◌+◌, ◌%◌, ◌<◌, ◌≡◌, refl, ap, ◌∙◌, true, false, some, inl, inr, List, ◌++◌, arith, length,
  take, drop, length-take, length-drop, length-append, take-append-drop, append_assoc, Bool-cases,
  leb,
}
use network_poller.Buffer.Defs.{
  Buffer, u32_mod, received, failed, writable_bytes, advance, store_received, read_from_fd, append,
}
use network_poller.Buffer.Inv.{IsValid, contents, writable_bytes_lem}
use network_poller.Buffer.Append.{Stored, copy-Stored, append_lem}

store-short :
    {b : Buffer} (bytes : List ℕ)
    → IsValid b
    → leb (length bytes) (writable_bytes b) ≡ true
    → (b' : Buffer) × (store_received b bytes ≡ some b') × Stored b b' bytes
unfolding store_received
store-short {b} bytes v short =
    let (ys, copy, size, stored) =
      copy-Stored {b = b} bytes b.buffer v (ground (arith, writable_bytes_lem v)) v.small refl in
    (advance (record b { buffer = ys }) (length bytes), rw (short, copy) refl, stored)

Stored-trans :
    {b c d : Buffer} (xs ys zs : List ℕ)
    → xs ++ ys ≡ zs
    → Stored b c xs
    → Stored c d ys
    → Stored b d zs
Stored-trans {b} xs ys zs e s t = record {
  valid = t.valid;
  added =
      t.added
      ∙ ap (λ ws. ws ++ ys) s.added
      ∙ append_assoc (contents b) xs ys
      ∙ ap (λ ws. contents b ++ ws) e;
  reading = t.reading ∙ s.reading;
  writing = omega (arith, t.writing, s.writing, length-append xs ys, ap length e);
}

module _ {b : Buffer} (bytes : List ℕ) (v : IsValid b) where
  first : List ℕ
  first = take (writable_bytes b) bytes

  second : List ℕ
  second = drop (writable_bytes b) bytes

  full_lem :
      (ys : List ℕ)
      → length ys ≡ b.write_index + length first
      → record b { buffer = ys; write_index = length ys % u32_mod }
        ≡ advance (record b { buffer = ys }) (length first)
  unfolding advance
  full_lem ys size = rw size refl

  -- What follows the copy into the vector, once that is full.
  spill :
      (ys : List ℕ)
      → length ys ≡ b.write_index + length first
      → Stored b (advance (record b { buffer = ys }) (length first)) first
      → b.write_index + length bytes < u32_mod
      → (b' : Buffer) × (append (record b { buffer = ys; write_index = length ys % u32_mod }) second
          ≡ some b')
        × Stored b b' bytes
  unfolding first second
  spill ys size stored h =
      let (b', grown, more) = append_lem second stored.valid (
        omega (
          arith,
          stored.writing,
          length-drop (writable_bytes b) bytes,
          length-take (writable_bytes b) bytes,
        )) in
      (
        b',
        rw (full_lem ys size) grown,
        Stored-trans first second bytes (take-append-drop (writable_bytes b) bytes) stored more,
      )

  store-long :
      leb (length bytes) (writable_bytes b) ≡ false
      → b.write_index + length bytes < u32_mod
      → (b' : Buffer) × (store_received b bytes ≡ some b') × Stored b b' bytes
  unfolding store_received first second
  store-long long h =
      let room : length first ≡ writable_bytes b =
        ground (arith, length-take (writable_bytes b) bytes) in
      let (ys, copy, size, stored) =
        copy-Stored {b = b} first b.buffer v (omega (arith, writable_bytes_lem v)) v.small refl in
      let (b', grown, more) = spill ys (omega (arith, writable_bytes_lem v, v.write_le)) stored h in
      (b', rw (long, copy) grown, more)

-- While the write index stays below 2 ^ 32, `ReadFromFD` succeeds, keeps the invariant and adds
-- exactly the bytes received, whether or not they spill into `extrabuf`.
pub read_from_fd-received :
    {b : Buffer} (bytes : List ℕ)
    → IsValid b
    → b.write_index + length bytes < u32_mod
    → (b' : Buffer) × (read_from_fd b (received bytes) ≡ some (received bytes, b'))
      × Stored b b' bytes
unfolding read_from_fd
read_from_fd-received {b} bytes v h = elim (Bool-cases (leb (length bytes) (writable_bytes b))) [
  | inl short ↦ let (b', ran, stored) = store-short bytes v short in (b', rw ran refl, stored)
  | inr long ↦ let (b', ran, stored) = store-long bytes v long h in (b', rw ran refl, stored)
]

-- A failed `readv` leaves the buffer as it was and reports `errno`.
pub read_from_fd-failed : (b : Buffer) (e : ℕ) → read_from_fd b (failed e) ≡ some (failed e, b)
unfolding read_from_fd
read_from_fd-failed b e = refl
