-- ===== src/Dict/Total.antt =====
-- The sum of a weight over the entries of a dict, under each update.
use ai_platform_template.Base.{ℕ, ◌+◌, ◌≤◌, ◌≡◌, Bool, true, false, none, some, [], ◌∷◌, arith}
use ai_platform_template.Base.Eq.{Keyed}
use ai_platform_template.Dict.{Dict, lookup, insert, keep}

module _ {ℓ κ} {K : Type ℓ} {V : Type κ} where
  unfoldable pub total : (K → V → ℕ) → Dict K V → ℕ
  total w [] = 0
  total w ((k, v) ∷ d) = w k v + total w d

  -- What the filter drops weighs nothing.
  pub total-keep :
      (w : K → V → ℕ) (p : K → V → Bool) (d : Dict K V)
      → ((k : K) (v : V) → p k v ≡ false → w k v ≡ 0)
      → total w (keep p d) ≡ total w d
  unfolding total keep
  total-keep w p [] h = ground arith
  total-keep w p ((k, v) ∷ d) h = ground (arith, h k v, total-keep w p d h)

  -- What the filter keeps weighs nothing.
  pub total-keep_zero :
      (w : K → V → ℕ) (p : K → V → Bool) (d : Dict K V)
      → ((k : K) (v : V) → p k v ≡ true → w k v ≡ 0)
      → total w (keep p d) ≡ 0
  unfolding total keep
  total-keep_zero w p [] h = ground arith
  total-keep_zero w p ((k, v) ∷ d) h = ground (arith, h k v, total-keep_zero w p d h)

module _ {ℓ κ} {K : Type ℓ} {V : Type κ} ⦃e : Keyed K⦄ where
  pub total-insert :
      (w : K → V → ℕ) (k : K) (v : V) {old : V} (d : Dict K V)
      → lookup k d ≡ some old
      → total w (insert k v d) + w k old ≡ total w d + w k v
  unfolding total insert lookup
  total-insert w k v [] h = ground arith
  total-insert w k v {old} ((j, x) ∷ d) h =
      ground (arith, e.equals_iff j k, total-insert w k v {old = old} d)

  pub total-insert_new :
      (w : K → V → ℕ) (k : K) (v : V) (d : Dict K V)
      → lookup k d ≡ none
      → total w (insert k v d) ≡ total w d + w k v
  unfolding total insert lookup
  total-insert_new w k v [] h = ground arith
  total-insert_new w k v ((j, x) ∷ d) h = ground (arith, e.equals_iff j k, total-insert_new w k v d)

  pub weight-le-total :
      (w : K → V → ℕ) (k : K) {v : V} (d : Dict K V) → lookup k d ≡ some v → w k v ≤ total w d
  unfolding total lookup
  weight-le-total w k [] h = ground arith
  weight-le-total w k {v} ((j, x) ∷ d) h =
      ground (arith, e.equals_iff j k, weight-le-total w k {v = v} d)
