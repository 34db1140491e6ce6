-- ===== src/Result.antt =====
-- Outcomes of code that may stop the process: a failed `assert`, or an access that C++ leaves
-- undefined. The model is that of a build with assertions.
use network_poller.Prelude.{◌≡◌, Bool, true, false, Option, none, some}

pub data Fault : Type 0 where
  assertion undefined : Fault

pub data Result {ℓ} (A : Type ℓ) : Type ℓ where
  ok : A → Result A
  fault : Fault → Result A

infixl 5 ◌>>=◌ ◌>>◌
abbrev pub ◌>>=◌ {ℓ κ} : {A : Type ℓ} {B : Type κ} → Result A → (A → Result B) → Result B
ok a >>= f = f a
fault e >>= f = fault e

abbrev pub ◌>>◌ {ℓ} : {B : Type ℓ} → Result (Unit {0}) → Result B → Result B
m >> k = m >>= λ _. k

abbrev pub assert_that : Bool → Result (Unit {0})
assert_that true = ok tt
assert_that false = fault assertion

abbrev pub defined {ℓ} : {A : Type ℓ} → Option A → Result A
defined none = fault undefined
defined (some a) = ok a

-- `ok` has one outcome.
pub ok-injective {ℓ} : {A : Type ℓ} {a b : A} → ok a ≡ ok b → a ≡ b
ok-injective e = cc
