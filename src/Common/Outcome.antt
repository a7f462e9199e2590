-- ===== src/Common/Outcome.antt =====
-- How kernel code ends: with a value, in the kernel's `panic`, in a memory access that C leaves
-- undefined (a NULL pointer, an index out of range), or out of the fuel that the model gives.
use mathlib.Core.Path.{◌≡◌, refl, subst}

pub data Run {ℓ} (A : Type ℓ) : Type ℓ where
  panic : Run A
  fault : Run A
  out_of_fuel : Run A
  ok : A → Run A

infixl 5 ◌>>=◌ ◌>>◌
abbrev pub ◌>>=◌ {ℓ κ} : {A : Type ℓ} {B : Type κ} → Run A → (A → Run B) → Run B
panic >>= next = panic
fault >>= next = fault
out_of_fuel >>= next = out_of_fuel
ok x >>= next = next x

abbrev pub ◌>>◌ {ℓ} : {B : Type ℓ} → Run (Unit {0}) → Run B → Run B
m >> k = m >>= λ _. k

-- The run ends with a value, and `P` holds of it.
abbrev pub Returns {ℓ κ} : {A : Type ℓ} → Run A → (A → Type κ) → Type (ℓ ⊔ κ)
Returns {A} m P = (x : A) × (m ≡ ok x) × P x

-- The same as a type that computes, for the proofs of loops.
abbrev pub Ends {ℓ} : {A : Type ℓ} → Run A → (A → Type 0) → Type 0
Ends (ok a) P = P a
Ends panic P = ⊥
Ends fault P = ⊥
Ends out_of_fuel P = ⊥

module _ {ℓ} {A : Type ℓ} where
  pub Ends-mono : {P Q : A → Type 0} (r : Run A) → Ends r P → ((a : A) → P a → Q a) → Ends r Q
  Ends-mono (ok a) h f = f a h
  Ends-mono panic h f = h
  Ends-mono fault h f = h
  Ends-mono out_of_fuel h f = h

  pub Ends→Returns : {P : A → Type 0} (r : Run A) → Ends r P → Returns r P
  Ends→Returns (ok a) h = (a, refl, h)
  Ends→Returns panic h = absurd h
  Ends→Returns fault h = absurd h
  Ends→Returns out_of_fuel h = absurd h

pub Ends-bind {ℓ κ} :
    {A : Type ℓ} {B : Type κ} {P : A → Type 0} (Q : B → Type 0) (r : Run A) (f : A → Run B)
    → Ends r P
    → ((a : A) → P a → Ends (f a) Q)
    → Ends (r >>= f) Q
Ends-bind Q (ok a) f h next = next a h
Ends-bind Q panic f h next = h
Ends-bind Q fault f h next = h
Ends-bind Q out_of_fuel f h next = h

-- Where the run ends with a value, `P` holds of it.
abbrev pub Yields {ℓ} : {A : Type ℓ} → Run A → (A → Type 0) → Type 0
Yields (ok a) P = P a
Yields panic P = Unit
Yields fault P = Unit
Yields out_of_fuel P = Unit

pub Yields-bind {ℓ κ} :
    {A : Type ℓ} {B : Type κ} (Q : B → Type 0) (r : Run A) (f : A → Run B)
    → ((a : A) → Yields (f a) Q)
    → Yields (r >>= f) Q
Yields-bind Q (ok a) f next = next a
Yields-bind Q panic f next = tt
Yields-bind Q fault f next = tt
Yields-bind Q out_of_fuel f next = tt

pub Yields-then {ℓ κ} :
    {A : Type ℓ} {B : Type κ} {P : A → Type 0} (Q : B → Type 0) (r : Run A) (f : A → Run B)
    → Yields r P
    → ((a : A) → P a → Yields (f a) Q)
    → Yields (r >>= f) Q
Yields-then Q (ok a) f h next = next a h
Yields-then Q panic f h next = tt
Yields-then Q fault f h next = tt
Yields-then Q out_of_fuel f h next = tt

pub Yields-ok {ℓ} : {A : Type ℓ} (P : A → Type 0) (r : Run A) (a : A) → r ≡ ok a → Yields r P → P a
Yields-ok {A} P r a e h = at (subst (λ m. Yields m P) e h)
  where
    at : Yields (ok a) P → P a
    at p = p

pub Yields-mono {ℓ} :
    {A : Type ℓ} {P Q : A → Type 0} (r : Run A) → Yields r P → ((a : A) → P a → Q a) → Yields r Q
Yields-mono (ok a) h f = f a h
Yields-mono panic h f = tt
Yields-mono fault h f = tt
Yields-mono out_of_fuel h f = tt

-- The run does not use up its fuel, and where it ends with a value, `P` holds of it.
abbrev pub Stops {ℓ} : {A : Type ℓ} → Run A → (A → Type 0) → Type 0
Stops (ok a) P = P a
Stops panic P = Unit
Stops fault P = Unit
Stops out_of_fuel P = ⊥

pub Stops-bind {ℓ κ} :
    {A : Type ℓ} {B : Type κ} {P : A → Type 0} (Q : B → Type 0) (r : Run A) (f : A → Run B)
    → Stops r P
    → ((a : A) → r ≡ ok a → P a → Stops (f a) Q)
    → Stops (r >>= f) Q
Stops-bind Q (ok a) f h next = next a refl h
Stops-bind Q panic f h next = tt
Stops-bind Q fault f h next = tt
Stops-bind Q out_of_fuel f h next = h

pub Stops-mono {ℓ} :
    {A : Type ℓ} {P Q : A → Type 0} (r : Run A) → Stops r P → ((a : A) → P a → Q a) → Stops r Q
Stops-mono (ok a) h f = f a h
Stops-mono panic h f = tt
Stops-mono fault h f = tt
Stops-mono out_of_fuel h f = h
