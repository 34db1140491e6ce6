-- ===== src/Buffer/Inv.antt =====
-- core/base/buffer/buffer.cpp: the index invariant, the counts that the code computes in machine
-- words, and the bytes that a copy into the vector leaves behind.
use network_poller.Prelude.{
  ℕ, ◌+◌, ◌-◌, ◌≤◌, ◌<◌, ◌≡◌, sym, ap, ◌∙◌, some, List, ◌++◌, arith, length, take, drop, replicate,
  length-append, length-take, length-drop, length-replicate, take-append_le, take-length-append,
  take_all, drop-take, append_assoc,
}
use network_poller.Buffer.Defs.{
  Buffer, u32_mod, resize, copy_to, copy_from, writable_bytes, readable_bytes,
}

-- `read_index_ <= write_index_ <= buffer_.size()`, and the size fits in 32 bits.
pub record IsValid (b : Buffer) : Type 0 where
  pub read_le : b.read_index ≤ b.write_index
  pub write_le : b.write_index ≤ length b.buffer
  pub small : length b.buffer < u32_mod

-- The bytes written and not yet read.
abbrev pub contents : Buffer → List ℕ
contents b = take (b.write_index - b.read_index) (drop b.read_index b.buffer)

pub readable_bytes_lem : {b : Buffer} → IsValid b → readable_bytes b ≡ b.write_index - b.read_index
unfolding readable_bytes
readable_bytes_lem v = omega arith

pub writable_bytes_lem :
    {b : Buffer} → IsValid b → writable_bytes b ≡ length b.buffer - b.write_index
unfolding writable_bytes
writable_bytes_lem v = omega arith

pub length-contents : {b : Buffer} → IsValid b → length (contents b) ≡ b.write_index - b.read_index
length-contents {b} v = omega (
  arith,
  length-take (b.write_index - b.read_index) (drop b.read_index b.buffer),
  length-drop b.read_index b.buffer,
)

pub length-resize : (n : ℕ) (xs : List ℕ) → length xs ≤ n → length (resize n xs) ≡ n
unfolding resize
length-resize n xs h = omega (
  arith,
  length-append (take n xs) (replicate (n - length xs) 0),
  length-take n xs,
  length-replicate {A = ℕ} (n - length xs) 0,
)

pub take-resize :
    (m n : ℕ) (xs : List ℕ) → length xs ≤ n → m ≤ length xs → take m (resize n xs) ≡ take m xs
unfolding resize
take-resize m n xs h k = rw (take_all n xs h) (take-append_le m xs (replicate (n - length xs) 0) k)

-- A copy within the vector succeeds: what is before it stays, then the bytes, and the length stays.
module _ (at : ℕ) (bytes xs : List ℕ) (fits : at + length bytes ≤ length xs) where
  pub copied : List ℕ
  copied = take at xs ++ (bytes ++ drop (at + length bytes) xs)

  pub copy_to_fits : copy_to at bytes xs ≡ some copied
  unfolding copy_to copied
  copy_to_fits = ground arith

  pub length-copied : length copied ≡ length xs
  unfolding copied
  length-copied = omega (
    arith,
    length-append (take at xs) (bytes ++ drop (at + length bytes) xs),
    length-append bytes (drop (at + length bytes) xs),
    length-take at xs,
    length-drop (at + length bytes) xs,
  )

  length_head : length (take at xs ++ bytes) ≡ at + length bytes
  length_head = omega (arith, length-append (take at xs) bytes, length-take at xs)

  pub take-copied : take (at + length bytes) copied ≡ take at xs ++ bytes
  unfolding copied
  take-copied =
      rw (← append_assoc) (rw (← length_head) (take-length-append (take at xs ++ bytes) _))

-- Cutting off what was read does not depend on what follows the range.
pub take-drop : (r w : ℕ) (xs : List ℕ) → r ≤ w → take (w - r) (drop r xs) ≡ drop r (take w xs)
take-drop r w xs h =
    let e : w ≡ r + (w - r) = omega arith in
    sym (drop-take r (w - r) xs) ∙ ap (λ k. drop r (take k xs)) (sym e)

pub copy_from_fits :
    (at len : ℕ) (xs : List ℕ)
    → at + len ≤ length xs
    → copy_from at len xs ≡ some (take len (drop at xs))
unfolding copy_from
copy_from_fits at len xs h = ground arith
