-- ===== src/Buffer/Defs.antt =====
-- class Buffer of core/base/buffer/buffer.h and buffer.cpp.
-- `none` is an access outside the vector, which C++ leaves undefined. A pointer into the vector
-- is the offset from `buffer_.begin()`.
use network_poller.Prelude.{
  ℕ, ◌+◌, ◌-◌, ◌%◌, ◌^◌, Bool, true, false, not, ◌&&◌, Option, none, some, List, [], ◌∷◌, ◌++◌, ltb,
  leb, ◌==◌, if◌then◌else◌, length, take, drop, replicate,
}

pub record Buffer : Type 0 where
  pub read_index : ℕ
  pub write_index : ℕ
  pub buffer : List ℕ

abbrev pub u32_mod : ℕ
u32_mod = 2 ^ 32

abbrev pub size_mod : ℕ
size_mod = 2 ^ 64

abbrev pub init_size : ℕ
init_size = 1024

-- `std::vector::resize`: cut, or filled up with zeros.
unfoldable pub resize : ℕ → List ℕ → List ℕ
resize n xs = take n xs ++ replicate (n - length xs) 0

-- `std::copy` to `buffer_.begin() + at`.
unfoldable pub copy_to : ℕ → List ℕ → List ℕ → Option (List ℕ)
copy_to at bytes xs =
    if leb (at + length bytes) (length xs)
    then some (take at xs ++ (bytes ++ drop (at + length bytes) xs))
    else none

-- `assign` from `buffer_.begin() + at`.
unfoldable pub copy_from : ℕ → ℕ → List ℕ → Option (List ℕ)
copy_from at len xs = if leb (at + len) (length xs) then some (take len (drop at xs)) else none

-- The constructor.
unfoldable pub new : ℕ → Buffer
new size = record { read_index = 0; write_index = 0; buffer = replicate size 0 }

-- `size_t` difference, returned as `uint32_t`.
unfoldable pub writable_bytes : Buffer → ℕ
writable_bytes b = (size_mod + length b.buffer - b.write_index) % size_mod % u32_mod

unfoldable pub readable_bytes : Buffer → ℕ
readable_bytes b = (u32_mod + b.write_index - b.read_index) % u32_mod

unfoldable pub is_readable : Buffer → Bool
is_readable b = if ltb 0 (readable_bytes b) then true else false

unfoldable pub is_empty : Buffer → Bool
unfolding is_readable
is_empty b = not (is_readable b)

unfoldable pub ensure_writable_bytes : Buffer → ℕ → Buffer
ensure_writable_bytes b len =
    if ltb (writable_bytes b) len
    then record b { buffer = resize ((b.write_index + len) % size_mod) b.buffer }
    else b

-- `write_index_ += n` on a `uint32_t`.
unfoldable pub advance : Buffer → ℕ → Buffer
advance b n = record b { write_index = (b.write_index + n) % u32_mod }

infixl 5 ◌>>=◌
abbrev pub ◌>>=◌ {ℓ κ} : {A : Type ℓ} {B : Type κ} → Option A → (A → Option B) → Option B
none >>= f = none
some a >>= f = f a

unfoldable pub append : Buffer → List ℕ → Option Buffer
append b bytes = do
  let b' = ensure_writable_bytes b (length bytes)
  xs ← copy_to b'.write_index bytes b'.buffer
  some (advance (record b' { buffer = xs }) (length bytes))

unfoldable pub reset_index : Buffer → Buffer
reset_index b = record b { read_index = 0; write_index = 0 }

unfoldable pub clear_read_index : Buffer → ℕ → Buffer
unfolding reset_index
clear_read_index b len =
    if ltb len (readable_bytes b)
    then record b { read_index = (b.read_index + len) % u32_mod }
    else reset_index b

-- `ReadBytes` and `ReadAsString`, which differ in the container that they assign to.
unfoldable pub read_bytes : Buffer → ℕ → Option (List ℕ × Buffer)
read_bytes b len = do
  let n = if ltb (readable_bytes b) len then readable_bytes b else len
  bytes ← copy_from b.read_index n b.buffer
  some (bytes, clear_read_index b n)

unfoldable pub read_as_string : Buffer → ℕ → Option (List ℕ × Buffer)
read_as_string b len = do
  let n = if ltb (readable_bytes b) len then readable_bytes b else len
  bytes ← copy_from b.read_index n b.buffer
  some (bytes, clear_read_index b n)

unfoldable pub read_all_as_byte : Buffer → Option (List ℕ × Buffer)
read_all_as_byte b = read_bytes b (readable_bytes b)

unfoldable pub read_all_as_string : Buffer → Option (List ℕ × Buffer)
read_all_as_string b = read_as_string b (readable_bytes b)

-- The two buffers after `Swap`.
unfoldable pub swap : Buffer → Buffer → Buffer × Buffer
swap b rhs = (
  record b { buffer = rhs.buffer; read_index = rhs.read_index; write_index = rhs.write_index },
  record rhs { buffer = b.buffer; read_index = b.read_index; write_index = b.write_index },
)

-- What `readv` hands back: the bytes that it stored, end of file as no bytes, or `errno`.
pub data ReadResult : Type 0 where
  received : List ℕ → ReadResult
  failed : ℕ → ReadResult

-- `vec[0]`, the writable part, is filled first, then `extrabuf`, which is appended.
unfoldable pub store_received : Buffer → List ℕ → Option Buffer
store_received b bytes =
    if leb (length bytes) (writable_bytes b)
    then (do
      xs ← copy_to b.write_index bytes b.buffer
      some (advance (record b { buffer = xs }) (length bytes)))
    else (do
      xs ← copy_to b.write_index (take (writable_bytes b) bytes) b.buffer
      append (record b { buffer = xs; write_index = length xs % u32_mod })
          (drop (writable_bytes b) bytes))

-- The return value, negative as `failed`, and the buffer.
unfoldable pub read_from_fd : Buffer → ReadResult → Option (ReadResult × Buffer)
read_from_fd b (failed e) = some (failed e, b)
read_from_fd b (received bytes) = do b' ← store_received b bytes; some (received bytes, b')

-- `std::search` for "\r\n" in a range that starts at offset `at`; `none` is the range's end.
unfoldable pub search_crlf : ℕ → List ℕ → Option ℕ
search_crlf at [] = none
search_crlf at (c ∷ []) = none
search_crlf at (c ∷ d ∷ rest) =
    if (c == 13) && (d == 10) then some at else search_crlf (at + 1) (d ∷ rest)

-- The bytes between the two indices, as the code reads them through `ReadIndexPtr`.
abbrev pub readable_range : Buffer → Option (List ℕ)
readable_range b = copy_from b.read_index (b.write_index - b.read_index) b.buffer

-- The outer option is an access out of bounds, the inner one a null result.
unfoldable pub find_crlf : Buffer → Option (Option ℕ)
find_crlf b = do range ← readable_range b; some (search_crlf b.read_index range)

-- Both guards print an error and return.
unfoldable pub retrieve_until : Buffer → ℕ → Buffer
retrieve_until b last =
    if leb b.read_index last
    then (if leb last b.write_index
        then clear_read_index b ((last - b.read_index) % u32_mod)
        else b)
    else b
