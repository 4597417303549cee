-- ===== src/Prelude/Chains.antt =====
-- Chains of computations that may give no result.
use mathlib.Core.Path.{◌≡◌, subst}
use mathlib.Core.Option.{Option, none, some, some-injective}

infixl 5 ◌>>=◌
abbrev pub ◌>>=◌ {ℓ κ} : {A : Type ℓ} {B : Type κ} → Option A → (A → Option B) → Option B
none >>= f = none
some a >>= f = f a

-- Two results that are equal have the same properties.
pub same_result {ℓ κ} :
    {A : Type ℓ} (P : A → Type κ) {x y : A} → ◌≡◌ {A = Option A} (some x) (some y) → P x → P y
same_result P {x} {y} e = subst P (some-injective x y e)
