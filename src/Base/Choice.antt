-- ===== src/Base/Choice.antt =====
-- Chains of steps that can fail, as `do` blocks over `Option`: `none` is an access outside the
-- memory that an object has, which C leaves undefined.
use mathlib.Core.Option.{Option, none, some}

infixl 5 ◌>>=◌
abbrev pub ◌>>=◌ {ℓ κ} : {A : Type ℓ} {B : Type κ} → Option A → (A → Option B) → Option B
none >>= f = none
some a >>= f = f a
