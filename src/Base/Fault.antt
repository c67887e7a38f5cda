-- ===== src/Base/Fault.antt =====
-- Code that can go wrong returns an `Option`: `none` is a fault, such as a read out of bounds, an
-- unaligned word access or a loop that used up its fuel.
use mathlib.Core.Option.{Option, none, some}

infixl 5 ◌>>=◌
abbrev pub ◌>>=◌ {ℓ κ} : {A : Type ℓ} {B : Type κ} → Option A → (A → Option B) → Option B
none >>= f = none
some a >>= f = f a
