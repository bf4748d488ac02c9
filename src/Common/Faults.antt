-- ===== src/Common/Faults.antt =====
-- What a run of C code ends in: a value, a fault (an access or an operation that C leaves
-- undefined), or the end of the fuel of a loop.
use mathlib.Core.Path.{◌≡◌, refl}
use native.Mathlib.Omega.{arith}

pub data Outcome {ℓ} (A : Type ℓ) : Type ℓ where
  done : A → Outcome A
  fault spent : Outcome A

infixl 5 ◌>>=◌
abbrev pub ◌>>=◌ {ℓ κ} : {A : Type ℓ} {B : Type κ} → Outcome A → (A → Outcome B) → Outcome B
done a >>= f = f a
fault >>= f = fault
spent >>= f = spent

-- Inversion of a successful bind.
>>=-eq-done {ℓ κ} :
    {A : Type ℓ} {B : Type κ} (m : Outcome A) (f : A → Outcome B) {b : B}
    → (m >>= f) ≡ done b
    → (a : A) × (m ≡ done a) × (f a ≡ done b)
>>=-eq-done (done a) f h = (a, refl, h)
>>=-eq-done fault f h = ground arith
>>=-eq-done spent f h = ground arith

-- The run does not exhaust its fuel, and a value that it returns has the property.
abbrev pub Ends {ℓ} : {A : Type ℓ} → Outcome A → (A → Type 0) → Type 0
Ends (done a) P = P a
Ends fault P = Unit {0}
Ends spent P = ⊥

pub Ends-bind {ℓ} :
    {A B : Type ℓ} (P : A → Type 0) (Q : B → Type 0) (m : Outcome A) (f : A → Outcome B)
    → Ends m P
    → ((a : A) → P a → Ends (f a) Q)
    → Ends (m >>= f) Q
Ends-bind P Q (done a) f h k = k a h
Ends-bind P Q fault f h k = tt
Ends-bind P Q spent f h k = elim h [ ]

pub Ends_weaken {ℓ} :
    {A : Type ℓ} (P Q : A → Type 0) (m : Outcome A) → ((a : A) → P a → Q a) → Ends m P → Ends m Q
Ends_weaken P Q (done a) k h = k a h
Ends_weaken P Q fault k h = tt
Ends_weaken P Q spent k h = h

pub Ends-ne-spent {ℓ} : {A : Type ℓ} (P : A → Type 0) (m : Outcome A) → Ends m P → ¬ (m ≡ spent)
Ends-ne-spent P (done a) h = ground arith
Ends-ne-spent P fault h = ground arith
Ends-ne-spent P spent h = elim h [ ]

-- Two continuations that agree on the values that a run can return.
pub Ends-bind_cong {ℓ} :
    {A B : Type ℓ} (P : A → Type 0) (m : Outcome A) (f g : A → Outcome B)
    → Ends m P
    → ((a : A) → P a → f a ≡ g a)
    → (m >>= f) ≡ (m >>= g)
Ends-bind_cong P (done a) f g h k = k a h
Ends-bind_cong P fault f g h k = refl
Ends-bind_cong P spent f g h k = refl
