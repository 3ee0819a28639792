-- ===== src/Base/Result.antt =====
-- Go's `(value, error)` results, and the chain of calls that stops at the first error.
use mathlib.Core.Path.{◌≡◌, refl}
use mathlib.Core.Logic.{◌⊎◌, inl, inr}
use mathlib.Core.Option.{Option, none, some}

pub data Result {ℓ κ} (E : Type κ) (A : Type ℓ) : Type (ℓ ⊔ κ) where
  ok : A → Result E A
  err : E → Result E A

-- A check that returns an `error`: `none` is Go's nil.
infixl 5 ◌then_check◌
abbrev pub ◌then_check◌ {ℓ} : {E : Type ℓ} → Option E → Option E → Option E
none then_check q = q
some x then_check q = some x

pub Result-cases {ℓ κ} :
    {E : Type κ} {A : Type ℓ} (r : Result E A) → ((a : A) × (r ≡ ok a)) ⊎ ((e : E) × (r ≡ err e))
Result-cases (ok a) = inl (a, refl)
Result-cases (err e) = inr (e, refl)

-- The state after a call: that of the call, or the old one where it fails.
abbrev pub state_after {ℓ κ} : {S : Type ℓ} {E : Type κ} → S → Result E S → S
state_after s (ok t) = t
state_after s (err e) = s
