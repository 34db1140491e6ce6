-- ===== src/Socket/External.antt =====
-- What core/net/socket uses of the system: the calls on sockets, as socket(7), accept(2) and
-- getsockopt(2) document them, and the C library's inet_pton, inet_ntop, htons, ntohs and the "%d"
-- of snprintf. All are parameters of the model.
use network_poller.Prelude.{ℕ, ◌≤◌, ◌<◌, ◌≡◌, ◌≢◌, ◌⊎◌, Option, List, length}

-- A call that may fail: with -1 and `errno`, or with what it returns.
pub data Outcome : Type 0 where
  failed : (errno : ℕ) → Outcome
  returned : (value : ℕ) → Outcome

-- An option of a socket: its level and its name.
pub record Name : Type 0 where
  pub level : ℕ
  pub option : ℕ

pub record Sockets : Type 1 where
  pub State : Type 0
  pub option_of : ℕ → Name → State → ℕ
  pub setsockopt : ℕ → Name → ℕ → State → Outcome × State
  pub getsockopt : ℕ → Name → State → Outcome × State
  pub create : ℕ → State → Outcome × State
  pub bind : ℕ → ℕ → State → Outcome × State
  pub listen : ℕ → ℕ → State → Outcome × State
  pub connect : ℕ → ℕ → State → Outcome × State
  pub accept4 : ℕ → State → Outcome × State
  pub read : ℕ → (room : ℕ) → State → Outcome × State
  pub readv : ℕ → (rooms : List ℕ) → State → Outcome × State
  pub write : ℕ → (bytes : List ℕ) → State → Outcome × State
  pub getpeername : ℕ → State → Outcome × State
  pub getsockname : ℕ → State → Outcome × State
  pub close : ℕ → State → State
  pub shutdown_write : ℕ → State → State
  -- A call that fails changes nothing; one that succeeds sets its own option; neither changes another.
  pub set_failed :
      (fd : ℕ) (n : Name) (v e : ℕ) (s : State)
      → (setsockopt fd n v s).0 ≡ failed e
      → (setsockopt fd n v s).1 ≡ s
  pub set_self :
      (fd : ℕ) (n : Name) (v r : ℕ) (s : State)
      → (setsockopt fd n v s).0 ≡ returned r
      → option_of fd n (setsockopt fd n v s).1 ≡ v
  pub set_other :
      (fd : ℕ) (n : Name) (v : ℕ) (s : State) (fd' : ℕ) (n' : Name)
      → (fd ≢ fd') ⊎ (n ≢ n')
      → option_of fd' n' (setsockopt fd n v s).1 ≡ option_of fd' n' s

-- Addresses as the C library reads and writes them; a text is a list of characters.
pub record Inet : Type 1 where
  pub Ip4 : Type 0
  pub Ip6 : Type 0
  -- `none` stands for the result 0, for a text that is no address
  pub pton4 : List ℕ → Option Ip4
  pub pton6 : List ℕ → Option Ip6
  pub ntop4 : Ip4 → List ℕ
  pub ntop6 : Ip6 → List ℕ
  -- INET_ADDRSTRLEN and INET6_ADDRSTRLEN count the closing zero
  pub ntop4_length : (a : Ip4) → length (ntop4 a) < 16
  pub ntop6_length : (a : Ip6) → length (ntop6 a) < 46
  pub htons : ℕ → ℕ
  pub ntohs : ℕ → ℕ
  pub ntohs-htons : (port : ℕ) → port < 65536 → ntohs (htons port) ≡ port
  pub decimal : ℕ → List ℕ
  pub decimal_length : (n : ℕ) → n < 65536 → length (decimal n) ≤ 5
