-- ===== src/Dict/Unique.antt =====
-- No key occurs twice: what every update keeps, and what a lookup after a filter then shows.
use ai_platform_template.Base.{◌≡◌, refl, Bool, true, if◌then◌else◌, none, some, [], ◌∷◌, arith}
use ai_platform_template.Base.Eq.{Keyed}
use ai_platform_template.Dict.{Dict, lookup, insert, erase, keep}
use ai_platform_template.Dict.Laws.{lookup-insert, lookup-erase}

module _ {ℓ κ} {K : Type ℓ} {V : Type κ} ⦃e : Keyed K⦄ where
  abbrev pub IsUnique : Dict K V → Type κ
  IsUnique [] = Unit
  IsUnique ((k, v) ∷ d) = (lookup k d ≡ none) × IsUnique d

  pub insert-IsUnique : (k : K) (v : V) (d : Dict K V) → IsUnique d → IsUnique (insert k v d)
  unfolding insert lookup
  insert-IsUnique k v [] u = (refl, tt)
  insert-IsUnique k v ((j, w) ∷ d) u =
      ground (
        arith,
        e.equals_iff j k,
        e.equals_iff k j,
        lookup-insert k j v d,
        insert-IsUnique k v d u.1,
      )

  pub lookup-keep-none :
      (p : K → V → Bool) (k : K) (d : Dict K V) → lookup k d ≡ none → lookup k (keep p d) ≡ none
  unfolding lookup keep
  lookup-keep-none p k [] h = h
  lookup-keep-none p k ((j, w) ∷ d) h = ground (arith, lookup-keep-none p k d)

  pub keep-IsUnique : (p : K → V → Bool) (d : Dict K V) → IsUnique d → IsUnique (keep p d)
  unfolding keep
  keep-IsUnique p [] u = tt
  keep-IsUnique p ((j, w) ∷ d) u = ground (arith, lookup-keep-none p j d u.0, keep-IsUnique p d u.1)

  -- What is found after a filter was there before, and passes it.
  pub lookup-keep_inv :
      (p : K → V → Bool) (k : K) {v : V} (d : Dict K V)
      → IsUnique d
      → lookup k (keep p d) ≡ some v
      → (lookup k d ≡ some v) × (p k v ≡ true)
  unfolding lookup keep
  lookup-keep_inv p k [] u h = ground arith
  lookup-keep_inv p k {v} ((j, w) ∷ d) u h =
      ground (arith, e.equals_iff j k, lookup-keep_inv p k {v = v} d u.1, lookup-keep-none p k d)

  pub erase-IsUnique : (k : K) (d : Dict K V) → IsUnique d → IsUnique (erase k d)
  unfolding erase
  erase-IsUnique k [] u = tt
  erase-IsUnique k ((j, w) ∷ d) u = ground (arith, lookup-erase k j d, erase-IsUnique k d u.1)

  pub lookup-keep :
      (p : K → V → Bool) (k : K) (d : Dict K V)
      → IsUnique d
      → lookup k (keep p d)
        ≡ (elim (lookup k d) [ none ↦ none | some v ↦ if p k v then some v else none ])
  unfolding lookup keep
  lookup-keep p k [] u = ground arith
  lookup-keep p k ((j, w) ∷ d) u =
      ground (arith, e.equals_iff j k, lookup-keep p k d u.1, lookup-keep-none p k d)
