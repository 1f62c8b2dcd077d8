-- ===== src/Common/Flow.antt =====
-- What a C function does: it returns, or its behaviour is undefined.
use mathlib.Core.Path.{◌≡◌, refl, subst}
use mathlib.Core.Bool.{Bool, true, false}

pub data Outcome {ℓ} (A : Type ℓ) : Type ℓ where
  done : A → Outcome A
  -- an access outside an object, a null pointer, or an indeterminate value that decides
  fault : Outcome A

infixl 5 ◌>>=◌ ◌>>◌
abbrev pub ◌>>=◌ {ℓ κ} : {A : Type ℓ} {B : Type κ} → Outcome A → (A → Outcome B) → Outcome B
done a >>= f = f a
fault >>= f = fault

abbrev pub ◌>>◌ {ℓ} : {B : Type ℓ} → Outcome (Unit {0}) → Outcome B → Outcome B
m >> k = m >>= λ _. k

-- The access is inside the object.
abbrev pub check : Bool → Outcome (Unit {0})
check true = done tt
check false = fault

-- Inversion of a bind that returned.
pub >>=-eq-done {ℓ κ} :
    {A : Type ℓ} {B : Type κ} (m : Outcome A) (f : A → Outcome B) {b : B}
    → (m >>= f) ≡ done b
    → (a : A) × (m ≡ done a) × (f a ≡ done b)
>>=-eq-done (done a) f h = (a, refl, h)
>>=-eq-done fault f h = cc

-- The call returns, and what it returns has the property.
abbrev pub Returns : {A : Type 0} → (A → Type 0) → Outcome A → Type 0
Returns P (done a) = P a
Returns P fault = ⊥

pub Returns_done :
    {A : Type 0} (P : A → Type 0) (m : Outcome A) {a : A} → Returns P m → m ≡ done a → P a
Returns_done P m h e = subst (Returns P) e h

-- The bind of a call that returns.
pub Returns->>= :
    {A B : Type 0} (P : A → Type 0) (Q : B → Type 0) (m : Outcome A) (f : A → Outcome B)
    → Returns P m
    → ((a : A) → P a → Returns Q (f a))
    → Returns Q (m >>= f)
Returns->>= P Q (done a) f h k = k a h
Returns->>= P Q fault f h k = absurd h

pub Returns-total :
    {A : Type 0} (P : A → Type 0) (m : Outcome A) → Returns P m → (a : A) × (m ≡ done a)
Returns-total P (done a) h = (a, refl)
Returns-total P fault h = absurd h
