-- ===== src/Prelude/Outcome.antt =====
-- What a call of a C function comes to: a result, or one of the ways in which the process or the
-- current VM thread is given up (a failed `assert`, `abort`, a wild access, a division that the
-- processor refuses, a loop out of fuel).
use mathlib.Core.Path.{◌≡◌, refl}
use mathlib.Core.Bool.{Bool, true, false}
use mathlib.Core.Option.{Option, none, some}

pub data Trap : Type 0 where
  assert_failed aborted out_of_bounds null_pointer arithmetic out_of_fuel : Trap

pub data Run {ℓ} (A : Type ℓ) : Type ℓ where
  ok : A → Run A
  trap : Trap → Run A

infixl 5 ◌>>=◌ ◌>>◌
abbrev pub ◌>>=◌ {κ ℓ} : {A : Type ℓ} {B : Type κ} → Run A → (A → Run B) → Run B
trap t >>= k = trap t
ok x >>= k = k x

abbrev pub ◌>>◌ {ℓ} : {B : Type ℓ} → Run (Unit {0}) → Run B → Run B
m >> k = m >>= λ _. k

-- `assert(b)` of vm_assert.h, and `if(!b) abort()`.
abbrev pub require : Trap → Bool → Run (Unit {0})
require t true = ok tt
require t false = trap t

-- A read that is a trap where there is nothing to read.
abbrev pub expect {ℓ} : {A : Type ℓ} → Trap → Option A → Run A
expect t none = trap t
expect t (some a) = ok a

-- A chain that succeeds has a first call that succeeds.
pub >>=-eq-ok {ℓ κ} :
    {A : Type ℓ} {B : Type κ} {r : B} (m : Run A) {k : A → Run B}
    → (m >>= k) ≡ ok r
    → (x : A) × (m ≡ ok x) × (k x ≡ ok r)
>>=-eq-ok (trap t) e = cc
>>=-eq-ok (ok x) e = (x, refl, e)
