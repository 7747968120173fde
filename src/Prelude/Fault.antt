-- ===== src/Prelude/Fault.antt =====
-- Computations that may panic, and loops on fuel. A Go panic ends the call; fuel stands for the
-- depth of a recursion or the passes of a loop.
use rulestone.Prelude.{◌≡◌, refl, Option, none, some}

pub data Outcome {ℓ} (A : Type ℓ) : Type ℓ where
  done : A → Outcome A
  panic : Outcome A
  out_of_fuel : Outcome A

infixl 5 ◌>>=◌
abbrev pub ◌>>=◌ {ℓ κ} : {A : Type ℓ} {B : Type κ} → Outcome A → (A → Outcome B) → Outcome B
done a >>= f = f a
panic >>= f = panic
out_of_fuel >>= f = out_of_fuel

-- A read that panics when there is nothing to read: an index out of range, a nil pointer.
abbrev pub or_panic {ℓ} : {A : Type ℓ} → Option A → Outcome A
or_panic none = panic
or_panic (some a) = done a

pub >>=-eq-done {ℓ κ} :
    {A : Type ℓ} {B : Type κ} (m : Outcome A) (f : A → Outcome B) {b : B}
    → (m >>= f) ≡ done b
    → (a : A) × (m ≡ done a) × (f a ≡ done b)
>>=-eq-done (done a) f h = (a, refl, h)
>>=-eq-done panic f h = cc
>>=-eq-done out_of_fuel f h = cc

pub or_panic-eq-done {ℓ} : {A : Type ℓ} (o : Option A) {a : A} → or_panic o ≡ done a → o ≡ some a
or_panic-eq-done none h = cc
or_panic-eq-done (some b) h = cc

-- The computation returns, and its value has the property.
abbrev pub Returns {ℓ} : {A : Type ℓ} → (A → Type 0) → Outcome A → Type 0
Returns P (done a) = P a
Returns P panic = ⊥
Returns P out_of_fuel = ⊥

pub Returns-bind {ℓ κ} :
    {A : Type ℓ} {B : Type κ} (P : A → Type 0) (Q : B → Type 0) (m : Outcome A) (f : A → Outcome B)
    → Returns P m
    → ((a : A) → P a → Returns Q (f a))
    → Returns Q (m >>= f)
Returns-bind P Q (done a) f h k = k a h
Returns-bind P Q panic f h k = h
Returns-bind P Q out_of_fuel f h k = h

pub Returns-map {ℓ} :
    {A : Type ℓ} (P Q : A → Type 0) (m : Outcome A)
    → Returns P m
    → ((a : A) → P a → Q a)
    → Returns Q m
Returns-map P Q (done a) h k = k a h
Returns-map P Q panic h k = h
Returns-map P Q out_of_fuel h k = h

pub Returns-done {ℓ} :
    {A : Type ℓ} (P : A → Type 0) (m : Outcome A) → Returns P m → (a : A) × (m ≡ done a) × P a
Returns-done P (done a) h = (a, refl, h)
Returns-done P panic h = absurd h
Returns-done P out_of_fuel h = absurd h

pub done_ne_panic {ℓ} : {A : Type ℓ} {a : A} → done a ≡ panic → ⊥
done_ne_panic h = cc
