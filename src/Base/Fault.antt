-- ===== src/Base/Fault.antt =====
-- Chains of calls that may fault: `none` is an access past the end of a block, or a loop that does
-- not end.
use mathlib.Core.Option.{Option, none, some}

infixl 5 ◌>>=◌
abbrev pub ◌>>=◌ {ℓ κ} : {A : Type ℓ} {B : Type κ} → Option A → (A → Option B) → Option B
none >>= f = none
some a >>= f = f a
