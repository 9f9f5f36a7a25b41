-- ===== src/Base/Outcome.antt =====
-- How a call ends. Every caller hands the result -1 up to `main`, which exits, so the objects that
-- a failed call leaves behind are seen by no one and are not part of a failed result.
use mathlib.Core.Path.{◌≡◌, refl}
use mathlib.Core.Bool.{Bool, true, false}

-- the call returns -1; an `assert` fails or an exception leaves the program; undefined behaviour;
-- a loop that would not end
pub data Fault : Type 0 where
  failed aborted undefined diverges : Fault

pub data Result {ℓ} (A : Type ℓ) : Type ℓ where
  ok : A → Result A
  err : Fault → Result A

-- what a call that has returned leads to
infixl 5 ◌>>=◌
abbrev pub ◌>>=◌ {ℓ κ} : {X : Type ℓ} {Y : Type κ} → Result X → (X → Result Y) → Result Y
err fault >>= next = err fault
ok x >>= next = next x

-- `assert(ok != -1)` on what a call returns
abbrev pub assert_ok {ℓ} : {A : Type ℓ} → Result A → Result A
assert_ok (err failed) = err aborted
assert_ok r = r

-- `assert(b)`
abbrev pub require : Bool → Fault → Result (Unit {0})
require b fault = elim b [ true ↦ ok tt | false ↦ err fault ]

infixl 5 ◌>>◌
abbrev pub ◌>>◌ {ℓ} : {Y : Type ℓ} → Result (Unit {0}) → Result Y → Result Y
test >> rest = test >>= λ _. rest

-- the call ends normally, in a value that satisfies `P`
abbrev pub Returns {ℓ κ} : {A : Type ℓ} → Result A → (A → Type κ) → Type (ℓ ⊔ κ)
Returns {A} r P = (a : A) × (r ≡ ok a) × P a

-- A `do` block that ends normally has come through its first step.
pub >>=-eq-ok {ℓ κ} :
    {X : Type ℓ} {Y : Type κ} (run : Result X) (next : X → Result Y) {y : Y}
    → (run >>= next) ≡ ok y
    → (x : X) × (next x ≡ ok y) × (run ≡ ok x)
>>=-eq-ok (err fault) next returns = cc
>>=-eq-ok (ok x) next returns = (x, returns, refl)
