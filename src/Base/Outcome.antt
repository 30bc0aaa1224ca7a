-- ===== src/Base/Outcome.antt =====
-- Runs of code that reads through pointers: a result, a read through a null pointer (or past the end
-- of a map), a call of `exit`, or a loop that had too little fuel.
use mathlib.Core.Option.{Option, none, some}
use mathlib.Core.Bool.{Bool, true, false, not}
use mathlib.Core.Path.{◌≡◌, refl}
use snowball_dag_experiment.Base.Tests.{if◌then◌else◌}

pub data Outcome {ℓ} (A : Type ℓ) : Type ℓ where
  done : A → Outcome A
  fault : Outcome A
  exited : Outcome A
  no_fuel : Outcome A

infixl 5 ◌>>=◌
abbrev pub ◌>>=◌ {ℓ κ} : {A : Type ℓ} {B : Type κ} → Outcome A → (A → Outcome B) → Outcome B
done a >>= f = f a
fault >>= f = fault
exited >>= f = exited
no_fuel >>= f = no_fuel

-- The value behind a pointer or an iterator.
abbrev pub deref {ℓ} : {A : Type ℓ} → Option A → Outcome A
deref none = fault
deref (some a) = done a

-- The value that the code goes on with, or `exit`.
abbrev pub or_exit {ℓ} : {A : Type ℓ} → Option A → Outcome A
or_exit none = exited
or_exit (some a) = done a

-- A run of one of two branches.
pub done-if {ℓ κ} :
    {A : Type ℓ} {P : Type κ} (b : Bool) (x y : Outcome A) {a : A}
    → (if b then x else y) ≡ done a
    → (x ≡ done a → P)
    → (y ≡ done a → P)
    → P
done-if true x y e f g = f e
done-if false x y e f g = g e

-- Inversion of a successful bind.
pub done-bind {ℓ κ} :
    {A : Type ℓ} {B : Type κ} (m : Outcome A) (f : A → Outcome B) {b : B}
    → (m >>= f) ≡ done b
    → (a : A) × (m ≡ done a) × (f a ≡ done b)
done-bind (done a) f h = (a, refl, h)
done-bind fault f h = cc
done-bind exited f h = cc
done-bind no_fuel f h = cc

pub done-deref {ℓ} : {A : Type ℓ} (o : Option A) {a : A} → deref o ≡ done a → o ≡ some a
done-deref none h = cc
done-deref (some x) h = cc

pub done-or_exit {ℓ} : {A : Type ℓ} (o : Option A) {a : A} → or_exit o ≡ done a → o ≡ some a
done-or_exit none h = cc
done-or_exit (some x) h = cc

pub done-injective {ℓ} : {A : Type ℓ} {x y : A} → done x ≡ done y → x ≡ y
done-injective e = cc

pub bind-done {ℓ κ} :
    {A : Type ℓ} {B : Type κ} (m : Outcome A) (f : A → Outcome B) (a : A) {r : Outcome B}
    → m ≡ done a
    → f a ≡ r
    → (m >>= f) ≡ r
bind-done m f a e h = rw e h

-- Which branch of a test is taken.
pub then_of {ℓ} : {A : Type ℓ} (b : Bool) (x y : A) → b ≡ true → (if b then x else y) ≡ x
then_of b x y e = rw e refl

pub else_of {ℓ} : {A : Type ℓ} (b : Bool) (x y : A) → b ≡ true → (if not b then x else y) ≡ y
else_of b x y e = rw e refl
