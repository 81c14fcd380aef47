-- ===== src/Prelude/Outcome.antt =====
-- How a C call ends, and what its allocations are answered.
use mathlib.Core.Path.{◌≡◌, refl}
use mathlib.Core.Bool.{Bool}
use mathlib.Core.Logic.{◌≢◌}
use mathlib.Core.Option.{some, none}
use Prim.Native.Nat.{ℕ}

-- `done` returns; `abort` is a failed `assert`; `fault` is undefined behaviour: a read or a write
-- outside its object, a NULL pointer passed on, an integer out of range.
pub data Exec {ℓ} (A : Type ℓ) : Type ℓ where
  done : A → Exec A
  abort : Exec A
  fault : Exec A

infixl 5 ◌>>=◌ ◌>>◌
abbrev pub ◌>>=◌ {ℓ κ} : {A : Type ℓ} {B : Type κ} → Exec A → (A → Exec B) → Exec B
done a >>= f = f a
abort >>= f = abort
fault >>= f = fault

abbrev pub ◌>>◌ {ℓ} : {B : Type ℓ} → Exec (Unit {0}) → Exec B → Exec B
m >> k = m >>= λ _. k

-- `assert` with its condition computed.
abbrev pub assert : Bool → Exec (Unit {0})
assert Bool.true = done tt
assert Bool.false = abort

-- An access with its bounds check computed.
abbrev pub access : Bool → Exec (Unit {0})
access Bool.true = done tt
access Bool.false = fault

pub >>=-eq-done {ℓ κ} :
    {A : Type ℓ} {B : Type κ} (m : Exec A) (f : A → Exec B) {b : B}
    → (m >>= f) ≡ done b
    → (a : A) × (m ≡ done a) × (f a ≡ done b)
>>=-eq-done (done a) f h = (a, refl, h)
>>=-eq-done abort f h = cc
>>=-eq-done fault f h = cc

pub >>=-done {ℓ κ} :
    {A : Type ℓ} {B : Type κ} {m : Exec A} {a : A} (f : A → Exec B) → m ≡ done a → (m >>= f) ≡ f a
>>=-done f e = rw e

pub >>=-fault {ℓ κ} :
    {A : Type ℓ} {B : Type κ} {m : Exec A} (f : A → Exec B) → m ≡ fault → (m >>= f) ≡ fault
>>=-fault f e = rw e

pub done_eq {ℓ} : {A : Type ℓ} {a b : A} → done a ≡ done b → a ≡ b
done_eq e = cc

pub some-none {ℓ} : {A : Type ℓ} {a : A} → some a ≢ none
some-none e = cc

-- The answers that the allocations of one call get, by the allocation's place in its function.
abbrev pub Mallocs : Type 0
Mallocs = ℕ → Bool
