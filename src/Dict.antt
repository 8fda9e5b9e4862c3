-- ===== src/Dict.antt =====
-- Python's dict, in insertion order: the keys are compared by `==`, a write to a present key keeps
-- its place, and a removal takes every entry of the key.
pub mod Laws
pub mod Total
pub mod Unique
use ai_platform_template.Base.{Bool, Option, none, some, List, [], ◌∷◌, if◌then◌else◌}
use ai_platform_template.Base.Eq.{Keyed, ◌==◌}

abbrev pub Dict {ℓ κ} : Type ℓ → Type κ → Type (ℓ ⊔ κ)
Dict K V = List (K × V)

module _ {ℓ κ} {K : Type ℓ} {V : Type κ} where
  -- `{k: v for k, v in d.items() if p(k, v)}`
  unfoldable pub keep : (K → V → Bool) → Dict K V → Dict K V
  keep p [] = []
  keep p ((k, v) ∷ d) = let rest = keep p d in if p k v then (k, v) ∷ rest else rest

  -- `d.values()`
  unfoldable pub values : Dict K V → List V
  values [] = []
  values ((_, v) ∷ d) = v ∷ values d

module _ {ℓ κ} {K : Type ℓ} {V : Type κ} ⦃e : Keyed K⦄ where
  -- `d.get(k)`
  unfoldable pub lookup : K → Dict K V → Option V
  lookup k [] = none
  lookup k ((j, v) ∷ d) = if j == k then some v else lookup k d

  -- `d[k] = v`
  unfoldable pub insert : K → V → Dict K V → Dict K V
  insert k v [] = (k, v) ∷ []
  insert k v ((j, w) ∷ d) = if j == k then (j, v) ∷ d else (j, w) ∷ insert k v d

  -- `d.pop(k, None)`, without the value that it returns
  unfoldable pub erase : K → Dict K V → Dict K V
  erase k [] = []
  erase k ((j, w) ∷ d) = let rest = erase k d in if j == k then rest else (j, w) ∷ rest
