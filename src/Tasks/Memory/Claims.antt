-- ===== src/Tasks/Memory/Claims.antt =====
-- At most one worker holds a task: what the claims of a task come to among other calls of the store.
use ai_platform_template.Base.{
  ℕ, ◌+◌, ◌≤◌, ◌<◌, ◌≡◌, refl, String, Bool, true, false, Option, none, some, List, [], ◌∷◌, arith,
  All, ◌⊎◌, ◌↔◌, inl, inr, Option-cases, if◌then◌else◌,
}
use ai_platform_template.Base.Eq.{string_eq, ==_iff, ==_refl, ◌==◌}
use ai_platform_template.Base.Json.{Json}
use ai_platform_template.Base.Result.{Result, Exception, ok, err}
use ai_platform_template.Dict.{Dict, lookup}
use ai_platform_template.Dict.Laws.{lookup-insert}
use ai_platform_template.Tasks.Models.{
  TaskRecord, TaskStatus, processing, queued, completed, failed,
}
use ai_platform_template.Tasks.Memory.{
  TaskStore, claimable, create, mark_processing, mark_completed, mark_failed,
  reclaim_stale_processing, claimed, stamped, settled_with, update_status,
}
use ai_platform_template.Tasks.Memory.Reclaim.{lookup-reclaim_from}

-- The calls of a store by any workers, each with the clock's reading.
pub data Event : Type 0 where
  claiming : String → ℕ → ℕ → Event
  reclaiming : ℕ → ℕ → ℕ → Event
  creating : TaskRecord → ℕ → Event
  completing : String → Dict String Json → ℕ → Event
  failing : String → String → ℕ → Event

unfoldable pub step : Event → TaskStore → TaskStore
step (claiming id lease now) s = (mark_processing id lease now s).1
step (reclaiming now limit max_attempts) s = (reclaim_stale_processing now limit max_attempts s).1
step (creating task now) s = (create task now s).1
step (completing id result now) s = (mark_completed id result now s).1
step (failing id error now) s = (mark_failed id error now s).1

unfoldable pub run : List Event → TaskStore → TaskStore
run [] s = s
run (e ∷ es) s = run es (step e s)

abbrev won : Result Exception Bool → ℕ
won (ok true) = 1
won (ok false) = 0
won (err _) = 0

-- The claims of a task that succeed, in a sequence of calls.
unfoldable pub wins : String → Event → TaskStore → ℕ
wins id (claiming j lease now) s = if j == id then won (mark_processing j lease now s).0 else 0
wins id (reclaiming _ _ _) s = 0
wins id (creating _ _) s = 0
wins id (completing _ _ _) s = 0
wins id (failing _ _ _) s = 0

unfoldable pub claims_won : String → List Event → TaskStore → ℕ
claims_won id [] s = 0
claims_won id (e ∷ es) s = wins id e s + claims_won id es (step e s)

-- Before the time `until`, and not the end of the task itself.
abbrev pub IsForeign : String → ℕ → Event → Type 0
IsForeign id until (claiming _ _ now) = now < until
IsForeign id until (reclaiming now _ _) = now < until
IsForeign id until (creating _ _) = Unit
IsForeign id until (completing j _ _) = (j == id) ≡ false
IsForeign id until (failing j _ _) = (j == id) ≡ false

-- No claim of the task succeeds before `until`, and no reclaim takes it.
pub record IsHeld (until : ℕ) (task : TaskRecord) : Type 0 where
  pub refuses : (now : ℕ) → now < until → claimable task now ≡ false

module _ (id : String) (until : ℕ) (task : TaskRecord) (held : IsHeld until task) where
  claim_refused :
      (j : String) (lease now : ℕ) (s : TaskStore)
      → lookup id s ≡ some task
      → now < until
      → (lookup id (mark_processing j lease now s).1 ≡ some task)
        × (wins id (claiming j lease now) s ≡ 0)
  unfolding mark_processing wins
  claim_refused j lease now s q f = elim (Option-cases (lookup j s)) [
    | inl missing ↦ ground arith
    | inr (t, e) ↦
        ground (arith, lookup-insert j id (claimed lease now t) s, ==_iff j id, held.refuses now f)
  ]

  reclaim_passes :
      (now limit max_attempts : ℕ) (s : TaskStore)
      → lookup id s ≡ some task
      → now < until
      → lookup id (reclaim_stale_processing now limit max_attempts s).1 ≡ some task
  unfolding reclaim_stale_processing claimable
  reclaim_passes now limit max_attempts s q f =
      ground (
        arith,
        lookup-reclaim_from now limit max_attempts id 0 s {task = task} q,
        held.refuses now f,
      )

  create_passes :
      (t : TaskRecord) (now : ℕ) (s : TaskStore)
      → lookup id s ≡ some task
      → lookup id (create t now s).1 ≡ some task
  unfolding create
  create_passes t now s q = ground (arith, lookup-insert t.id id (stamped now t) s, ==_iff t.id id)

  other_update_passes :
      (j : String) (status : TaskStatus) (result : Option (Dict String Json))
      (error : Option String) (now : ℕ) (s : TaskStore)
      → lookup id s ≡ some task
      → (j == id) ≡ false
      → lookup id (update_status j status result error now s).1 ≡ some task
  unfolding update_status
  other_update_passes j status result error now s q f = elim (Option-cases (lookup j s)) [
    | inl missing ↦ ground arith
    | inr (t, e) ↦ ground (arith, lookup-insert j id (settled_with status result error now t) s)
  ]

  step-lookup :
      (e : Event) (s : TaskStore)
      → lookup id s ≡ some task
      → IsForeign id until e
      → (lookup id (step e s) ≡ some task) × (wins id e s ≡ 0)
  unfolding step wins mark_completed mark_failed
  step-lookup (claiming j lease now) s q f = claim_refused j lease now s q f
  step-lookup (reclaiming now limit max_attempts) s q f =
      (reclaim_passes now limit max_attempts s q f, refl)
  step-lookup (creating t now) s q f = (create_passes t now s q, refl)
  step-lookup (completing j result now) s q f =
      (other_update_passes j completed (some result) none now s q f, refl)
  step-lookup (failing j error now) s q f =
      (other_update_passes j failed none (some error) now s q f, refl)

  held_excludes :
      (es : List Event) (s : TaskStore)
      → lookup id s ≡ some task
      → All (IsForeign id until) es
      → (claims_won id es s ≡ 0) × (lookup id (run es s) ≡ some task)
  unfolding claims_won run
  held_excludes [] s q f = (refl, q)
  held_excludes (e ∷ es) s q f =
      let (q', lost) = step-lookup e s q f.0 in
      let (lost', q'') = held_excludes es (step e s) q' f.1 in (omega (arith, lost, lost'), q'')

claimed-IsHeld : (lease now : ℕ) (task : TaskRecord) → IsHeld (now + lease) (claimed lease now task)
unfolding claimable
claimed-IsHeld lease now task = record { refuses = λ t h. ground arith }

ended-IsHeld :
    (until : ℕ) (task : TaskRecord)
    → (task.status ≡ completed) ⊎ (task.status ≡ failed)
    → IsHeld until task
unfolding claimable
ended-IsHeld until task h = record { refuses = λ t l. ground arith }

-- After a claim that succeeds, until the lease runs out, whatever other calls are made of the store
-- (claims of any task, reclaims, new tasks, ends of other tasks), no claim of the task succeeds, and
-- the task stays as the claim left it, with one attempt more.
pub claim_exclusive :
    (id : String) (lease now : ℕ) (task : TaskRecord) (es : List Event) (s : TaskStore)
    → lookup id s ≡ some task
    → (mark_processing id lease now s).0 ≡ ok true
    → All (IsForeign id (now + lease)) es
    → let s' = (mark_processing id lease now s).1 in
      (claims_won id es s' ≡ 0) × (lookup id (run es s') ≡ some (claimed lease now task))
claim_exclusive id lease now task es s q won_it f =
    held_excludes id (now + lease) (claimed lease now task) (claimed-IsHeld lease now task) es
      (mark_processing id lease now s).1
      (unfold mark_processing in
        ground (arith, lookup-insert id id (claimed lease now task) s, ==_refl id))
      f

-- A task that is COMPLETED or FAILED is not claimed and does not change, whatever claims of any task,
-- reclaims, new tasks and ends of other tasks the store sees up to a time.
pub ended_stays :
    (id : String) (until : ℕ) (task : TaskRecord) (es : List Event) (s : TaskStore)
    → lookup id s ≡ some task
    → (task.status ≡ completed) ⊎ (task.status ≡ failed)
    → All (IsForeign id until) es
    → (claims_won id es s ≡ 0) × (lookup id (run es s) ≡ some task)
ended_stays id until task es s q ended f =
    held_excludes id until task (ended-IsHeld until task ended) es s q f

-- A task that may be claimed.
abbrev pub IsOpen : TaskRecord → ℕ → Type 0
IsOpen task now =
    (task.status ≡ queued)
    ⊎ ((task.status ≡ processing)
        × ((until : ℕ) × (task.locked_until ≡ some until) × (until ≤ now)))

claimable_inv : (task : TaskRecord) (now : ℕ) → claimable task now ≡ true → IsOpen task now
unfolding claimable
claimable_inv task now h = by_status task.status refl
  where
    by_status : (st : TaskStatus) → task.status ≡ st → IsOpen task now
    by_status queued e = inl e
    by_status processing e = elim (Option-cases task.locked_until) [
      | inl missing ↦ absurd (ground arith)
      | inr (until, u) ↦ inr (e, (until, u, ground arith))
    ]
    by_status completed e = absurd (ground arith)
    by_status failed e = absurd (ground arith)

-- Under a positive lease, the claim of a task that the store holds succeeds exactly when the task
-- is queued, or is PROCESSING under a lease that has run out.
pub claim_decides :
    (id : String) (lease now : ℕ) (task : TaskRecord) (s : TaskStore)
    → 0 < lease
    → lookup id s ≡ some task
    → ((mark_processing id lease now s).0 ≡ ok true) ↔ IsOpen task now
unfolding mark_processing claimable
claim_decides id lease now task s h q =
    (λ x. claimable_inv task now (ground arith), λ x. ground arith)
