-- ===== src/Buffer/Append.antt =====
-- `Buffer::Append` and `Buffer::EnsureWritableBytes`: what they store, for every input that fits.
use network_poller.Prelude.{
  ℕ, ◌+◌, ◌-◌, ◌%◌, ◌≤◌, ◌<◌, ◌≡◌, refl, sym, ap, ◌∙◌, some, List, ◌++◌, arith, length, take, drop,
  length-take, drop-append_le,
}
use network_poller.Buffer.Defs.{Buffer, u32_mod, copy_to, ensure_writable_bytes, append, advance}
use network_poller.Buffer.Inv.{
  IsValid, contents, writable_bytes_lem, length-resize, take-resize, copied, copy_to_fits,
  length-copied, take-copied, take-drop,
}

-- What growing the vector keeps.
record Grown (b b' : Buffer) (n : ℕ) : Type 0 where
  same_read : b'.read_index ≡ b.read_index
  same_write : b'.write_index ≡ b.write_index
  longer : length b.buffer ≤ length b'.buffer
  room : b.write_index + n ≤ length b'.buffer
  bounded : length b'.buffer < u32_mod
  prefix : take b.write_index b'.buffer ≡ take b.write_index b.buffer

ensure_writable_bytes-Grown :
    {b : Buffer} (n : ℕ)
    → IsValid b
    → b.write_index + n < u32_mod
    → Grown b (ensure_writable_bytes b n) n
unfolding ensure_writable_bytes
ensure_writable_bytes-Grown {b} n v h = ground (
  arith,
  writable_bytes_lem v,
  length-resize (b.write_index + n) b.buffer,
  take-resize b.write_index (b.write_index + n) b.buffer,
)

-- Bytes stored at the write index of a valid buffer with room for them.
pub record Stored (b b' : Buffer) (bytes : List ℕ) : Type 0 where
  pub valid : IsValid b'
  pub added : contents b' ≡ contents b ++ bytes
  pub reading : b'.read_index ≡ b.read_index
  pub writing : b'.write_index ≡ b.write_index + length bytes

module _ {b : Buffer} (v : IsValid b) (bytes xs : List ℕ)
    (fits : b.write_index + length bytes ≤ length xs)
    (same : take b.write_index xs ≡ take b.write_index b.buffer) where
  contents-copied :
      take
        (b.write_index + length bytes - b.read_index)
        (drop b.read_index (copied b.write_index bytes xs fits))
      ≡ contents b ++ bytes
  contents-copied =
      take-drop b.read_index (b.write_index + length bytes) _ (omega (arith, v.read_le))
      ∙ ap (drop b.read_index) (take-copied b.write_index bytes xs fits)
      ∙ drop-append_le b.read_index (take b.write_index xs) bytes
          (omega (arith, length-take b.write_index xs, v.read_le))
      ∙ ap (λ ys. drop b.read_index ys ++ bytes) same
      ∙ ap (λ ys. ys ++ bytes) (sym (take-drop b.read_index b.write_index b.buffer v.read_le))

-- A copy at the write index followed by `write_index_ += len`.
pub copy-Stored :
    {b : Buffer} (bytes xs : List ℕ)
    → IsValid b
    → b.write_index + length bytes ≤ length xs
    → length xs < u32_mod
    → take b.write_index xs ≡ take b.write_index b.buffer
    → (ys : List ℕ) × (copy_to b.write_index bytes xs ≡ some ys)
      × (length ys ≡ length xs)
      × Stored b (advance (record b { buffer = ys }) (length bytes)) bytes
unfolding advance
copy-Stored {b} bytes xs v fits small same = (
  copied b.write_index bytes xs fits,
  copy_to_fits b.write_index bytes xs fits,
  length-copied b.write_index bytes xs fits,
  record {
    valid = record {
      read_le = omega (arith, v.read_le);
      write_le = omega (arith, length-copied b.write_index bytes xs fits);
      small = omega (arith, length-copied b.write_index bytes xs fits);
    };
    added =
        let e : (b.write_index + length bytes) % u32_mod ≡ b.write_index + length bytes =
          omega arith in
        rw e (contents-copied v bytes xs fits same);
    reading = refl;
    writing = omega arith;
  },
)

Grown-IsValid : {b b' : Buffer} (n : ℕ) → IsValid b → Grown b b' n → IsValid b'
Grown-IsValid n v g = ground arith

contents-Grown : {b b' : Buffer} (n : ℕ) → IsValid b → Grown b b' n → contents b' ≡ contents b
contents-Grown {b} {b'} n v g =
    rw (g.same_read, g.same_write)
      (take-drop b.read_index b.write_index b'.buffer v.read_le
        ∙ ap (drop b.read_index) g.prefix
        ∙ sym (take-drop b.read_index b.write_index b.buffer v.read_le))

append-Grown :
    {b g : Buffer} (bytes : List ℕ)
    → IsValid b
    → Grown b g (length bytes)
    → ensure_writable_bytes b (length bytes) ≡ g
    → (b' : Buffer) × (append b bytes ≡ some b') × Stored b b' bytes
unfolding append
append-Grown {b} {g} bytes v grown e =
    let (ys, copy, size, stored) =
      copy-Stored {b = g} bytes g.buffer (Grown-IsValid (length bytes) v grown) (omega arith)
        grown.bounded refl in
    (
      advance (record g { buffer = ys }) (length bytes),
      rw (e, copy) refl,
      record {
        valid = stored.valid;
        added = stored.added ∙ ap (λ xs. xs ++ bytes) (contents-Grown (length bytes) v grown);
        reading = stored.reading ∙ grown.same_read;
        writing = omega (arith, stored.writing, grown.same_write);
      },
    )

-- `Append` succeeds while the write index stays below 2 ^ 32, keeps the invariant, and adds the
-- bytes behind those that are still to be read.
pub append_lem :
    {b : Buffer} (bytes : List ℕ)
    → IsValid b
    → b.write_index + length bytes < u32_mod
    → (b' : Buffer) × (append b bytes ≡ some b') × Stored b b' bytes
append_lem {b} bytes v h =
    append-Grown bytes v (ensure_writable_bytes-Grown (length bytes) v h) refl
