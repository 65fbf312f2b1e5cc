-- ===== src/Prelude/Outcome.antt =====
-- A run of the program ends in a state or in a fault: undefined behaviour, or `exit(1)`.
use mathlib.Core.Path.{◌≡◌, refl}
use mathlib.Core.Logic.{◌⊎◌, inl, inr}
use mathlib.Core.Option.{Option, none, some}

pub data Fault : Type 0 where
  -- `[]` past the end of a deque or a vector
  bad_index : Fault
  -- `erase(end())`
  erase_end : Fault
  -- a null `shared_ptr` or `unique_ptr` is read through
  null_pointer : Fault
  -- a write past the end of a 1440 byte buffer
  overflow : Fault
  -- an object is used after its last `shared_ptr` is gone
  dangling : Fault
  -- `pop` on an empty stack
  empty_pop : Fault
  -- `exit(1)`
  exited : Fault

pub data Result {ℓ} (A : Type ℓ) : Type ℓ where
  ok : A → Result A
  fault : Fault → Result A

infixl 5 ◌>>=◌
abbrev pub ◌>>=◌ {ℓ κ} : {A : Type ℓ} {B : Type κ} → Result A → (A → Result B) → Result B
ok a >>= next = next a
fault reason >>= next = fault reason

abbrev pub or_fault {ℓ} : {A : Type ℓ} → Option A → Fault → Result A
or_fault none e = fault e
or_fault (some a) e = ok a

-- Where a bind ends well, its first part does, and the second goes on from there.
pub >>=-eq-ok {ℓ κ} :
    {A : Type ℓ} {B : Type κ} (first : Result A) (next : A → Result B) {y : B}
    → (first >>= next) ≡ ok y
    → (x : A) × (first ≡ ok x) × (next x ≡ ok y)
>>=-eq-ok (ok x) next e = (x, refl, e)
>>=-eq-ok (fault reason) next e = cc

pub Result-cases {ℓ} :
    {A : Type ℓ} (r : Result A) → ((a : A) × (r ≡ ok a)) ⊎ ((e : Fault) × (r ≡ fault e))
Result-cases (ok a) = inl (a, refl)
Result-cases (fault e) = inr (e, refl)
