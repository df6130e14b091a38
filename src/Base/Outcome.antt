-- ===== src/Base/Outcome.antt =====
-- What a Go function does: it returns, or it panics, which ends the program since nothing recovers.
use mathlib.Core.Path.{◌≡◌, refl}

pub data Outcome {ℓ} (A : Type ℓ) : Type ℓ where
  ok : A → Outcome A
  panic : Outcome A

infixl 5 ◌>>=◌
abbrev pub ◌>>=◌ {ℓ κ} : {A : Type ℓ} {B : Type κ} → Outcome A → (A → Outcome B) → Outcome B
ok a >>= f = f a
panic >>= f = panic

-- It returns, and what it returns has the property.
abbrev pub Returns {ℓ} : {A : Type ℓ} → Outcome A → (A → Type 0) → Type 0
Returns (ok a) P = P a
Returns panic P = ⊥

-- Where two steps end with a value, what the first returned led the second there.
pub two_steps {ℓ κ} :
    {A : Type ℓ} {B : Type κ} (first : Outcome A) (second : A → Outcome B) {last : B}
    → (first >>= second) ≡ ok last
    → (between : A) × (second between ≡ ok last) × (first ≡ ok between)
two_steps panic second ends = cc
two_steps (ok between) second ends = (between, ends, refl)

-- It returns at all.
abbrev pub IsSafe {ℓ} : {A : Type ℓ} → Outcome A → Type 0
IsSafe o = Returns o (λ a. Unit)

pub IsSafe->>= {ℓ κ} :
    {A : Type ℓ} {B : Type κ} (first : Outcome A) (second : A → Outcome B)
    → IsSafe first
    → ((a : A) → IsSafe (second a))
    → IsSafe (first >>= second)
IsSafe->>= (ok a) second h k = k a
IsSafe->>= panic second h k = absurd h

pub ok-injective {ℓ} : {A : Type ℓ} (a b : A) → ok a ≡ ok b → a ≡ b
ok-injective a b e = cc
