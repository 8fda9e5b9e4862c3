-- ===== src/Dict/Laws.antt =====
-- What a lookup finds after each update of a dict.
use ai_platform_template.Base.{◌≡◌, refl, Bool, true, none, some, [], ◌∷◌, arith, if◌then◌else◌}
use ai_platform_template.Base.Eq.{Keyed, ◌==◌, ==_refl}
use ai_platform_template.Dict.{Dict, lookup, insert, erase, keep}

module _ {ℓ κ} {K : Type ℓ} {V : Type κ} ⦃e : Keyed K⦄ where
  pub lookup-insert :
      (k j : K) (v : V) (d : Dict K V)
      → lookup j (insert k v d) ≡ (if k == j then some v else lookup j d)
  unfolding lookup insert
  lookup-insert k j v [] = refl
  lookup-insert k j v ((i, w) ∷ d) =
      ground (arith, e.equals_iff i k, e.equals_iff i j, e.equals_iff k j, lookup-insert k j v d)

  pub lookup-erase :
      (k j : K) (d : Dict K V) → lookup j (erase k d) ≡ (if k == j then none else lookup j d)
  unfolding lookup erase
  lookup-erase k j [] = ground arith
  lookup-erase k j ((i, w) ∷ d) =
      ground (arith, e.equals_iff i k, e.equals_iff i j, e.equals_iff k j, lookup-erase k j d)

  -- An entry that a lookup finds, and that passes the filter, is found after the filter.
  pub lookup-keep-some :
      (p : K → V → Bool) (k : K) {v : V} (d : Dict K V)
      → lookup k d ≡ some v
      → p k v ≡ true
      → lookup k (keep p d) ≡ some v
  unfolding lookup keep
  lookup-keep-some p k [] h q = h
  lookup-keep-some p k {v} ((i, w) ∷ d) h q =
      ground (arith, e.equals_iff i k, lookup-keep-some p k {v = v} d)

  -- A filter on keys alone.
  pub lookup-keep_keys :
      (p : K → Bool) (k : K) (d : Dict K V)
      → lookup k (keep (λ j _. p j) d) ≡ (if p k then lookup k d else none)
  unfolding lookup keep
  lookup-keep_keys p k [] = ground arith
  lookup-keep_keys p k ((i, w) ∷ d) = ground (arith, e.equals_iff i k, lookup-keep_keys p k d)

  pub erase_absent : (k : K) (d : Dict K V) → lookup k d ≡ none → erase k d ≡ d
  unfolding erase lookup
  erase_absent k [] h = refl
  erase_absent k ((j, x) ∷ d) h = ground (arith, erase_absent k d)

  pub erase-insert_new :
      (k : K) (v : V) (d : Dict K V) → lookup k d ≡ none → erase k (insert k v d) ≡ d
  unfolding erase insert lookup
  erase-insert_new k v [] h = ground (arith, ==_refl k)
  erase-insert_new k v ((j, x) ∷ d) h = ground (arith, erase-insert_new k v d)
