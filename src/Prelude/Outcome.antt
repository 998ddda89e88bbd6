-- ===== src/Prelude/Outcome.antt =====
-- What a kernel routine returns: a value, or `kernel_panic`, after which nothing runs.
use mathlib.Core.Path.{◌≡◌, refl, subst}

pub data Outcome {ℓ} (A : Type ℓ) : Type ℓ where
  ok : A → Outcome A
  panic : Outcome A

infixl 5 ◌>>=◌
abbrev pub ◌>>=◌ {ℓ κ} :
    {A : Type ℓ} {B : Type κ} → (first : Outcome A) → (next : A → Outcome B) → Outcome B
panic >>= next = panic
ok result >>= next = next result

-- Inversion of a step that succeeded.
pub >>=-eq-ok {ℓ κ} :
    {A : Type ℓ} {B : Type κ} {b : B} (first : Outcome A) (next : A → Outcome B)
    → (first >>= next) ≡ ok b
    → (a : A) × (first ≡ ok a) × (next a ≡ ok b)
>>=-eq-ok panic next h = cc
>>=-eq-ok (ok a) next h = (a, refl, h)

-- A property of the result moves along an equation of results.
pub along {ℓ κ} :
    {A : Type ℓ} (P : A → Type κ) {m : Outcome A} {a b : A} → m ≡ ok a → m ≡ ok b → P a → P b
along P p q = subst P (cc)
