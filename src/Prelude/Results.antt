-- ===== src/Prelude/Results.antt =====
-- The result of code that can fault: a failed `assert`, or an access out of an array's bounds (which
-- C leaves undefined; the model stops there).
use mathlib.Core.Path.{◌≡◌, refl}
use mathlib.Core.Bool.{Bool, true, false}
use mathlib.Core.Option.{Option, none, some}

pub data Fault : Type 0 where
  assertion_failed : Fault
  out_of_bounds : Fault

pub data Result {ℓ} (A : Type ℓ) : Type ℓ where
  err : Fault → Result A
  ok : A → Result A

-- `assert(test)`
abbrev pub check : Bool → Result (Unit {0})
check true = ok tt
check false = err assertion_failed

-- The element that an index names, or the fault.
abbrev pub or_fault {ℓ} : {A : Type ℓ} → Option A → Result A
or_fault (some a) = ok a
or_fault none = err out_of_bounds

-- The next step, on the value of the one before.
infixl 5 ◌>>=◌
abbrev pub ◌>>=◌ {ℓ ℓ'} : {A : Type ℓ} {B : Type ℓ'} → Result A → (A → Result B) → Result B
err fault >>= next = err fault
ok value >>= next = next value

-- The next step, after an assertion.
infixl 5 ◌>>◌
abbrev pub ◌>>◌ {ℓ} : {A : Type ℓ} → Result (Unit {0}) → Result A → Result A
err fault >> next = err fault
ok _ >> next = next

-- Two steps that return have both returned.
pub >>=-eq-ok {ℓ ℓ'} :
    {A : Type ℓ} {B : Type ℓ'} (first : Result A) (next : A → Result B) {last : B}
    → (first >>= next) ≡ ok last
    → (value : A) × (first ≡ ok value) × (next value ≡ ok last)
>>=-eq-ok (err fault) next h = cc
>>=-eq-ok (ok value) next h = (value, refl, h)
