-- ===== src/Tasks/Memory/Expiry.antt =====
-- The purge of expired tasks: one batch, and the loop of batches.
use ai_platform_template.Base.{
  ℕ, zero, suc, ◌+◌, ◌-◌, ◌≤◌, ◌<◌, ◌≡◌, refl, ap, ◌∙◌, String, false, none, List, [], ◌∷◌, arith,
  min, leb, length, not, Bool-cases, inl, inr, if◌then◌else◌,
}
use ai_platform_template.Base.Eq.{string_eq, ==_iff, ==_refl, ◌==◌}
use ai_platform_template.Base.Result.{ok}
use ai_platform_template.Dict.{lookup, erase, keep}
use ai_platform_template.Dict.Unique.{IsUnique}
use ai_platform_template.Tasks.Models.{TaskRecord}
use ai_platform_template.Tasks.Memory.{TaskStore, expired_ids, take, erase_all, delete_expired}

-- The store without its first `n` expired tasks: what a batch should leave.
unfoldable pub purge : ℕ → ℕ → TaskStore → TaskStore
purge before n [] = []
purge before zero s = s
purge before (suc n) ((id, task) ∷ s) =
    let hit = purge before n s in
    let miss = (id, task) ∷ purge before (suc n) s in
    if leb task.expires_at before then hit else miss

erase-none : (id : String) (s : TaskStore) → lookup id s ≡ none → erase id s ≡ s
unfolding erase lookup
erase-none id [] h = refl
erase-none id ((j, t) ∷ s) h = ground (arith, erase-none id s)

-- No id of the list is `id`.
abbrev IsAbsent : String → List String → Type 0
IsAbsent id [] = Unit
IsAbsent id (j ∷ js) = ((id == j) ≡ false) × IsAbsent id js

erase_all-cons :
    (ids : List String) (id : String) (task : TaskRecord) (s : TaskStore)
    → IsAbsent id ids
    → erase_all ids ((id, task) ∷ s) ≡ (id, task) ∷ erase_all ids s
unfolding erase_all erase
erase_all-cons [] id task s h = refl
erase_all-cons (j ∷ js) id task s h = rw h.0 (erase_all-cons js id task (erase j s) h.1)

expired_ids-IsAbsent :
    (id : String) (before : ℕ) (n : ℕ) (s : TaskStore)
    → lookup id s ≡ none
    → IsAbsent id (take n (expired_ids before s))
unfolding lookup expired_ids take
expired_ids-IsAbsent id before zero [] h = tt
expired_ids-IsAbsent id before (suc n) [] h = tt
expired_ids-IsAbsent id before zero ((j, t) ∷ s) h = tt
expired_ids-IsAbsent id before (suc n) ((j, t) ∷ s) h =
    elim (Bool-cases (leb t.expires_at before)) [
      | inl e ↦ rw e (
        ground (arith, ==_iff id j, ==_iff j id),
        expired_ids-IsAbsent id before n s (ground arith),
      )
      | inr e ↦ rw e (expired_ids-IsAbsent id before (suc n) s (ground arith))
    ]

erase_all-purge :
    (before n : ℕ) (s : TaskStore)
    → IsUnique s
    → erase_all (take n (expired_ids before s)) s ≡ purge before n s
unfolding purge expired_ids take erase_all erase
erase_all-purge before zero [] u = refl
erase_all-purge before (suc n) [] u = refl
erase_all-purge before zero ((j, t) ∷ s) u = refl
erase_all-purge before (suc n) ((j, t) ∷ s) u = elim (Bool-cases (leb t.expires_at before)) [
  | inl e ↦ rw e (rw (==_refl j) (rw (erase-none j s u.0) (erase_all-purge before n s u.1)))
  | inr e ↦ rw e (
      erase_all-cons (take (suc n) (expired_ids before s)) j t s
        (expired_ids-IsAbsent j before (suc n) s u.0)
      ∙ ap (λ r. (j, t) ∷ r) (erase_all-purge before (suc n) s u.1))
]

-- The tasks that have expired by `before`.
unfoldable pub count_due : ℕ → TaskStore → ℕ
count_due before [] = 0
count_due before ((_, task) ∷ s) =
    (if leb task.expires_at before then 1 else 0) + count_due before s

-- The store without any of them.
unfoldable pub purge_all : ℕ → TaskStore → TaskStore
unfolding keep
purge_all before = keep (λ _ task. not (leb task.expires_at before))

length-expired_ids :
    (before n : ℕ) (s : TaskStore)
    → length (take n (expired_ids before s)) ≡ min n (count_due before s)
unfolding take expired_ids count_due
length-expired_ids before zero [] = omega arith
length-expired_ids before (suc n) [] = omega arith
length-expired_ids before zero ((j, t) ∷ s) = omega arith
length-expired_ids before (suc n) ((j, t) ∷ s) =
    ground (arith, length-expired_ids before n s, length-expired_ids before (suc n) s)

pub count_due-purge :
    (before n : ℕ) (s : TaskStore) → count_due before (purge before n s) ≡ count_due before s - n
unfolding purge count_due
count_due-purge before n [] = omega arith
count_due-purge before zero ((j, t) ∷ s) = omega arith
count_due-purge before (suc n) ((j, t) ∷ s) =
    ground (arith, count_due-purge before n s, count_due-purge before (suc n) s)

pub purge_all-purge :
    (before n : ℕ) (s : TaskStore) → purge_all before (purge before n s) ≡ purge_all before s
unfolding purge purge_all
purge_all-purge before n [] = refl
purge_all-purge before zero ((j, t) ∷ s) = refl
purge_all-purge before (suc n) ((j, t) ∷ s) =
    ground (arith, purge_all-purge before n s, purge_all-purge before (suc n) s)

purge_zero : (before : ℕ) (s : TaskStore) → purge before 0 s ≡ s
unfolding purge
purge_zero before [] = refl
purge_zero before ((j, t) ∷ s) = refl

-- A batch that is large enough leaves no expired task.
pub purge-eq-purge_all :
    (before n : ℕ) (s : TaskStore) → count_due before s ≤ n → purge before n s ≡ purge_all before s
unfolding purge purge_all count_due
purge-eq-purge_all before n [] h = refl
purge-eq-purge_all before zero ((j, t) ∷ s) h =
    ground (arith, purge-eq-purge_all before zero s, purge_zero before s)
purge-eq-purge_all before (suc n) ((j, t) ∷ s) h =
    ground (arith, purge-eq-purge_all before n s, purge-eq-purge_all before (suc n) s)

lookup-purge-none :
    (id : String) (before n : ℕ) (s : TaskStore)
    → lookup id s ≡ none
    → lookup id (purge before n s) ≡ none
unfolding purge lookup
lookup-purge-none id before n [] h = refl
lookup-purge-none id before zero ((j, t) ∷ s) h = h
lookup-purge-none id before (suc n) ((j, t) ∷ s) h =
    ground (arith, lookup-purge-none id before n s, lookup-purge-none id before (suc n) s)

pub purge-IsUnique : (before n : ℕ) (s : TaskStore) → IsUnique s → IsUnique (purge before n s)
unfolding purge
purge-IsUnique before n [] u = tt
purge-IsUnique before zero ((j, t) ∷ s) u = u
purge-IsUnique before (suc n) ((j, t) ∷ s) u = ground (
  arith,
  purge-IsUnique before n s u.1,
  purge-IsUnique before (suc n) s u.1,
  lookup-purge-none j before (suc n) s u.0,
)

-- In a store of different ids a batch with a positive limit deletes as many expired tasks as there
-- are, up to its limit, first ones first, and reports the number; no other task goes.
pub delete_expired-purges :
    (before limit : ℕ) (s : TaskStore)
    → 0 < limit
    → IsUnique s
    → delete_expired before limit s ≡ (ok (min limit (count_due before s)), purge before limit s)
unfolding delete_expired
delete_expired-purges before limit s h u =
    ground (arith, erase_all-purge before limit s u, length-expired_ids before limit s)
