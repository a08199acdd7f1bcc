-- ===== src/Base/Options.antt =====
-- Chains of steps that may have no result.
use mathlib.Core.Path.{◌≡◌, refl}
use mathlib.Core.Option.{Option, none, some}

infixl 5 ◌>>=◌
abbrev pub ◌>>=◌ {ℓ κ} : {A : Type ℓ} {B : Type κ} → Option A → (A → Option B) → Option B
none >>= f = none
some a >>= f = f a

pub bind-eq-some {ℓ κ} :
    {A : Type ℓ} {B : Type κ} (o : Option A) (f : A → B) {b : B}
    → (o >>= λ a. some (f a)) ≡ some b
    → (a : A) × (o ≡ some a) × (f a ≡ b)
bind-eq-some none f h = cc
bind-eq-some (some a) f h = (a, refl, cc)
