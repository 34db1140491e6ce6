-- ===== src/Examples/Socket.antt =====
-- Sockets with options that can all be set, and a C library that reads two addresses of each kind.
use network_poller.Prelude.{
  ℕ, zero, suc, ◌+◌, ◌*◌, ◌/◌, ◌%◌, ◌≤◌, ◌≡◌, ◌≢◌, ◌⊎◌, inl, inr, refl, ap, ◌∙◌, Bool, true, false,
  Option, none, some, List, [], ◌∷◌, ◌++◌, arith, ◌==◌, ==_refl, ==_ne, ltb, if◌then◌else◌, length,
  length-append, Bool-cases,
}
use network_poller.Poller.Epoll.{same_or_not}
use network_poller.Socket.External.{failed, returned, Name, Sockets, Inet}
use network_poller.Socket.{SocketAddr, new_socket_addr, to_string, new_socket_addr-to_string}

abbrev Options : Type 0
Options = ℕ → Name → ℕ

abbrev is_name : Name → Name → Bool
is_name n m = if n.level == m.level then n.option == m.option else false

name_ext : (n m : Name) → n.level ≡ m.level → n.option ≡ m.option → n ≡ m
name_ext n m p q =
    ap {A = ℕ} {B = Name} (λ l. record { level = l; option = n.option }) p
    ∙ ap {A = ℕ} {B = Name} (λ o. record { level = m.level; option = o }) q

is_name_refl : (n : Name) → is_name n n ≡ true
is_name_refl n = rw (==_refl n.level) (==_refl n.option)

is_name_ne : (n m : Name) → n ≢ m → is_name n m ≡ false
is_name_ne n m ne = elim (same_or_not n.level m.level) [
  | inr other ↦ rw (==_ne n.level m.level other) refl
  | inl same ↦ elim (same_or_not n.option m.option) [
    | inr other ↦ ground (arith, ==_ne n.option m.option other)
    | inl same' ↦ absurd (ne (name_ext n m same same'))
  ]
]

abbrev set : ℕ → Name → ℕ → Options → Options
set fd n v s fd' m = if is_name n m then (if fd == fd' then v else s fd' m) else s fd' m

set_self : (fd : ℕ) (n : Name) (v : ℕ) (s : Options) → set fd n v s fd n ≡ v
set_self fd n v s = rw (is_name_refl n, ==_refl fd) refl

set_other :
    (fd : ℕ) (n : Name) (v : ℕ) (s : Options) (fd' : ℕ) (m : Name)
    → (fd ≢ fd') ⊎ (n ≢ m)
    → set fd n v s fd' m ≡ s fd' m
set_other fd n v s fd' m (inl ne) = ground (arith, ==_ne fd fd' ne)
set_other fd n v s fd' m (inr ne) = rw (is_name_ne n m ne) refl

never_failed :
    (fd : ℕ) (n : Name) (v e : ℕ) (s : Options) → returned 0 ≡ failed e → set fd n v s ≡ s
never_failed fd n v e s h = absurd cc

abbrev settable : Sockets
settable = record {
  State = Options;
  option_of = λ fd n s. s fd n;
  setsockopt = λ fd n v s. (returned 0, set fd n v s);
  getsockopt = λ fd n s. (returned (s fd n), s);
  create = λ family s. (returned 5, s);
  bind = λ fd addr s. (returned 0, s);
  listen = λ fd backlog s. (returned 0, s);
  connect = λ fd addr s. (failed 115, s);
  accept4 = λ fd s. (failed 11, s);
  read = λ fd size s. (returned 0, s);
  readv = λ fd sizes s. (returned 0, s);
  write = λ fd bytes s. (returned (length bytes), s);
  getpeername = λ fd s. (failed 107, s);
  getsockname = λ fd s. (returned 7, s);
  close = λ fd s. s;
  shutdown_write = λ fd s. s;
  set_failed = never_failed;
  set_self = λ fd n v r s h. set_self fd n v s;
  set_other = set_other;
}

abbrev all_zero : Options
all_zero fd n = 0

-- "1" and "0" stand for themselves.
abbrev read_digit : List ℕ → Option Bool
read_digit [] = none
read_digit (c ∷ _) = if c == 49 then some true else (if c == 48 then some false else none)

abbrev write4 : Bool → List ℕ
write4 b = (if b then 49 else 48) ∷ []

abbrev digits : ℕ → ℕ → List ℕ
digits zero n = []
digits (suc k) n =
    let rest = digits k (n / 10) in if ltb n 10 then (48 + n) ∷ [] else rest ++ (48 + n % 10) ∷ []

length-digits : (k n : ℕ) → length (digits k n) ≤ k
length-digits zero n = omega arith
length-digits (suc k) n = elim (Bool-cases (ltb n 10)) [
  | inl less ↦ rw less (omega arith)
  | inr more ↦ rw more (
      omega
        (arith, length-append (digits k (n / 10)) ((48 + n % 10) ∷ []), length-digits k (n / 10)))
]

abbrev small_library : Inet
small_library = record {
  Ip4 = Bool;
  Ip6 = Bool;
  pton4 = read_digit;
  pton6 = read_digit;
  ntop4 = write4;
  ntop6 = write4;
  ntop4_length = λ a. omega arith;
  ntop6_length = λ a. omega arith;
  htons = λ port. port % 256 * 256 + port / 256;
  ntohs = λ port. port % 256 * 256 + port / 256;
  ntohs-htons = λ port small. omega arith;
  decimal = digits 5;
  decimal_length = λ n small. length-digits 5 n;
}

abbrev zeroed : SocketAddr small_library
zeroed = record { family = 0; port = 0; addr4 = false; addr6 = false }

-- Port 80, with "1" as either address, and the text "x".
new_socket_addr-to_string_example :
    (to_string small_library (new_socket_addr small_library (49 ∷ []) 80 false zeroed)
      ≡ 49 ∷ 58 ∷ 56 ∷ 48 ∷ [])
    × (to_string small_library (new_socket_addr small_library (49 ∷ []) 80 true zeroed)
        ≡ 49 ∷ 56 ∷ 48 ∷ [])
    × (to_string small_library (new_socket_addr small_library (120 ∷ []) 80 false zeroed)
        ≡ 48 ∷ 58 ∷ 56 ∷ 48 ∷ [])
    × (to_string small_library (new_socket_addr small_library (120 ∷ []) 80 true zeroed)
        ≡ 48 ∷ 56 ∷ 48 ∷ [])
new_socket_addr-to_string_example =
    new_socket_addr-to_string small_library (49 ∷ []) (49 ∷ []) (120 ∷ []) (120 ∷ []) true true 80
      zeroed (omega arith) refl refl refl refl
