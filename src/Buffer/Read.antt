-- ===== src/Buffer/Read.antt =====
-- `ClearReadIndex`, `ReadBytes`, `ReadAsString` and the two `ReadAll` functions: reading takes
-- bytes from the front and never leaves the vector.
use network_poller.Prelude.{
  ℕ, ◌+◌, ◌-◌, ◌%◌, ◌≤◌, ◌≡◌, refl, sym, ap, ◌∙◌, some, inl, inr, min, true, ◌↔◌, if◌then◌else◌,
  List, [], arith, length, take, drop, nil_of_length, take_all, drop_all, take-take_le, drop-drop,
  drop-take, Bool-cases, ltb, ltb→lt, ltb→le,
}
use network_poller.Buffer.Defs.{
  Buffer, u32_mod, copy_from, readable_bytes, clear_read_index, read_bytes, read_as_string,
  read_all_as_byte, is_empty,
}
use network_poller.Buffer.Inv.{
  IsValid, contents, readable_bytes_lem, length-contents, copy_from_fits,
}

pub clear_read_index-IsValid : {b : Buffer} (n : ℕ) → IsValid b → IsValid (clear_read_index b n)
unfolding clear_read_index
clear_read_index-IsValid n v = ground (arith, readable_bytes_lem v)

pub write-clear_read_index-le :
    (b : Buffer) (n : ℕ) → (clear_read_index b n).write_index ≤ b.write_index
unfolding clear_read_index
write-clear_read_index-le b n = ground arith

drop-contents :
    (b : Buffer) (n : ℕ)
    → n ≤ b.write_index - b.read_index
    → take (b.write_index - (b.read_index + n)) (drop (b.read_index + n) b.buffer)
      ≡ drop n (contents b)
drop-contents b n h =
    let e : b.write_index - b.read_index ≡ n + (b.write_index - (b.read_index + n)) = omega arith in
    let k = b.write_index - (b.read_index + n) in
    ap (take k) (sym (drop-drop n b.read_index b.buffer))
    ∙ sym (drop-take n k (drop b.read_index b.buffer))
    ∙ ap (λ m. drop n (take m (drop b.read_index b.buffer))) (sym e)

-- Clearing `n` bytes removes them from the front, all of them where there are no more than `n`.
pub contents-clear_read_index :
    {b : Buffer} (n : ℕ) → IsValid b → contents (clear_read_index b n) ≡ drop n (contents b)
unfolding clear_read_index
contents-clear_read_index {b} n v = elim (Bool-cases (ltb n (readable_bytes b))) [
  | inl some_left ↦
      let lt = ltb→lt n (readable_bytes b) some_left in
      let e : (b.read_index + n) % u32_mod ≡ b.read_index + n =
        omega (arith, readable_bytes_lem v) in
      rw some_left (rw e (drop-contents b n (omega (arith, readable_bytes_lem v))))
  | inr all_read ↦ rw all_read (
      sym (
        drop_all n (contents b) (
          omega (
            arith,
            ltb→le n (readable_bytes b) all_read,
            length-contents v,
            readable_bytes_lem v,
          ))))
]

-- `n` bytes, as `ReadBytes` clamps the length asked for.
clamp_read : (b : Buffer) (n : ℕ) → ℕ
clamp_read b n = if ltb (readable_bytes b) n then readable_bytes b else n

take-clamp :
    {b : Buffer} (n : ℕ) → IsValid b → take (clamp_read b n) (contents b) ≡ take n (contents b)
unfolding clamp_read
take-clamp {b} n v = elim (Bool-cases (ltb (readable_bytes b) n)) [
  | inl long ↦ rw long (
      take_all (readable_bytes b) (contents b)
        (omega (arith, length-contents v, readable_bytes_lem v))
      ∙ sym (
          take_all n (contents b)
            (omega (arith, length-contents v, readable_bytes_lem v, ltb→lt _ _ long))))
  | inr short ↦ rw short refl
]

drop-clamp :
    {b : Buffer} (n : ℕ) → IsValid b → drop (clamp_read b n) (contents b) ≡ drop n (contents b)
unfolding clamp_read
drop-clamp {b} n v = elim (Bool-cases (ltb (readable_bytes b) n)) [
  | inl long ↦ rw long (
      drop_all (readable_bytes b) (contents b)
        (omega (arith, length-contents v, readable_bytes_lem v))
      ∙ sym (
          drop_all n (contents b)
            (omega (arith, length-contents v, readable_bytes_lem v, ltb→lt _ _ long))))
  | inr short ↦ rw short refl
]

clamp-le : {b : Buffer} (n : ℕ) → IsValid b → clamp_read b n ≤ b.write_index - b.read_index
unfolding clamp_read
clamp-le n v = ground (arith, readable_bytes_lem v)

clamp-min : {b : Buffer} (n : ℕ) → IsValid b → clamp_read b n ≡ min n (length (contents b))
unfolding clamp_read
clamp-min n v = ground (arith, readable_bytes_lem v, length-contents v)

-- What `ReadBytes` hands over and leaves.
pub record Taken (b : Buffer) (n : ℕ) (out : List ℕ × Buffer) : Type 0 where
  pub bytes : out.0 ≡ take n (contents b)
  pub rest : contents out.1 ≡ drop n (contents b)
  pub valid : IsValid out.1
  pub writing : out.1.write_index ≤ b.write_index

copy_from-contents :
    {b : Buffer} (n : ℕ)
    → IsValid b
    → n ≤ b.write_index - b.read_index
    → copy_from b.read_index n b.buffer ≡ some (take n (contents b))
copy_from-contents {b} n v h =
    copy_from_fits b.read_index n b.buffer (omega (arith, v.write_le))
    ∙ ap some (sym (take-take_le n (b.write_index - b.read_index) (drop b.read_index b.buffer) h))

-- `ReadBytes` succeeds at every length: it hands over the first bytes, at most as many as there
-- are, leaves the others in order, and keeps the invariant.
pub read_bytes_lem :
    {b : Buffer} (n : ℕ)
    → IsValid b
    → (out : List ℕ × Buffer) × (read_bytes b n ≡ some out) × Taken b n out
unfolding read_bytes clamp_read
read_bytes_lem {b} n v = (
  (take (clamp_read b n) (contents b), clear_read_index b (clamp_read b n)),
  rw (copy_from-contents (clamp_read b n) v (clamp-le n v)) refl,
  record {
    bytes = take-clamp n v;
    rest = contents-clear_read_index (clamp_read b n) v ∙ drop-clamp n v;
    valid = clear_read_index-IsValid (clamp_read b n) v;
    writing = write-clear_read_index-le b (clamp_read b n);
  },
)

-- `ReadAsString` reads as `ReadBytes` does.
pub read_as_string-eq-read_bytes : (b : Buffer) (n : ℕ) → read_as_string b n ≡ read_bytes b n
unfolding read_as_string read_bytes
read_as_string-eq-read_bytes b n = refl

-- `ReadAllAsByte` hands over all that was to be read, and leaves the buffer empty.
pub read_all_as_byte_lem :
    {b : Buffer}
    → IsValid b
    → (b' : Buffer) × (read_all_as_byte b ≡ some (contents b, b')) × (contents b' ≡ []) × IsValid b'
unfolding read_all_as_byte
read_all_as_byte_lem {b} v =
    let (out, ran, t) = read_bytes_lem (readable_bytes b) v in
    let long : length (contents b) ≤ readable_bytes b =
      omega (arith, length-contents v, readable_bytes_lem v) in
    (
      out.1,
      ran ∙ ap (λ xs. some (xs, out.1)) (t.bytes ∙ take_all (readable_bytes b) (contents b) long),
      t.rest ∙ drop_all (readable_bytes b) (contents b) long,
      t.valid,
    )

-- `IsEmpty` holds exactly when nothing is left to read.
pub is_empty_lem : {b : Buffer} → IsValid b → (is_empty b ≡ true) ↔ (contents b ≡ [])
unfolding is_empty
is_empty_lem {b} v = (
  λ h. nil_of_length (contents b) (ground (arith, readable_bytes_lem v, length-contents v)),
  λ h. ground (arith, readable_bytes_lem v, length-contents v, ap length h),
)
