-- ===== src/Base/Result.antt =====
-- What a call that may raise gives back: its value, or the exception.
use mathlib.Core.Bool.{Bool, true, false}

-- The built-in exceptions that the modelled code raises by itself.
pub data Exception : Type 0 where
  value_error key_error runtime_error : Exception

pub data Result {ℓ κ} (E : Type κ) (A : Type ℓ) : Type (ℓ ⊔ κ) where
  ok : A → Result E A
  err : E → Result E A

abbrev pub is_ok {ℓ κ} : {E : Type κ} {A : Type ℓ} → Result E A → Bool
is_ok (ok _) = true
is_ok (err _) = false
