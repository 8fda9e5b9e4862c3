-- ===== src/Tasks/Memory/Reclaim.antt =====
-- What one reclaim settles, announces and leaves alone.
use ai_platform_template.Base.{
  ℕ, zero, suc, ◌+◌, ◌-◌, ◌≤◌, ◌<◌, ◌≡◌, refl, String, Bool, true, false, not, ltb, some, List, [],
  ◌∷◌, ◌++◌, arith, Bool-cases, inl, inr, if◌then◌else◌,
}
use ai_platform_template.Base.Eq.{string_eq}
use ai_platform_template.Base.Result.{ok}
use ai_platform_template.Dict.{lookup}
use ai_platform_template.Tasks.Models.{
  TaskRecord, TaskRef, TaskStatus, queued, processing, completed, failed,
}
use ai_platform_template.Tasks.Memory.{
  TaskStore, lease_expired, settle, requeued, reclaim_from, reclaim_stale_processing, take,
}

-- The tasks whose lease has expired, in the store's order.
unfoldable pub expired_tasks : ℕ → TaskStore → List TaskRecord
expired_tasks now [] = []
expired_tasks now ((_, task) ∷ s) =
    let rest = expired_tasks now s in if lease_expired task now then task ∷ rest else rest

unfoldable pub count_expired : ℕ → TaskStore → ℕ
count_expired now [] = 0
count_expired now ((_, task) ∷ s) = (if lease_expired task now then 1 else 0) + count_expired now s

-- The announcements for settled tasks: one for each that has attempts left.
unfoldable pub announced : ℕ → List TaskRecord → List TaskRef
announced max_attempts [] = []
announced max_attempts (task ∷ tasks) =
    let rest = announced max_attempts tasks in
    if ltb task.attempts max_attempts
    then record { id = task.id; type = task.type; request_id = task.request_id } ∷ rest
    else rest

-- How many of some tasks have attempts left, and how many have none.
abbrev pub renewable : ℕ → List TaskRecord → ℕ
renewable max_attempts [] = 0
renewable max_attempts (task ∷ tasks) =
    (if ltb task.attempts max_attempts then 1 else 0) + renewable max_attempts tasks

abbrev pub exhausted : ℕ → List TaskRecord → ℕ
exhausted max_attempts [] = 0
exhausted max_attempts (task ∷ tasks) =
    (if ltb task.attempts max_attempts then 0 else 1) + exhausted max_attempts tasks

abbrev pub is_queued : TaskStatus → Bool
is_queued queued = true
is_queued processing = false
is_queued completed = false
is_queued failed = false

abbrev pub is_failed : TaskStatus → Bool
is_failed queued = false
is_failed processing = false
is_failed completed = false
is_failed failed = true

-- The tasks of a store whose status passes a test.
abbrev pub count_status : (TaskStatus → Bool) → TaskStore → ℕ
count_status test [] = 0
count_status test ((_, task) ∷ s) = (if test task.status then 1 else 0) + count_status test s

expired_is_processing :
    (now : ℕ) (task : TaskRecord)
    → lease_expired task now ≡ true
    → (is_queued task.status ≡ false) × (is_failed task.status ≡ false)
unfolding lease_expired
expired_is_processing now task h = (ground arith, ground arith)

settle-status :
    (now max_attempts : ℕ) (task : TaskRecord)
    → (is_queued (settle now max_attempts task).status ≡ ltb task.attempts max_attempts)
      × (is_failed (settle now max_attempts task).status ≡ not (ltb task.attempts max_attempts))
unfolding settle
settle-status now max_attempts task = (ground arith, ground arith)

requeued-announced :
    (max_attempts : ℕ) (task : TaskRecord) (tasks : List TaskRecord)
    → requeued max_attempts task ++ announced max_attempts tasks
      ≡ announced max_attempts (task ∷ tasks)
unfolding requeued announced
requeued-announced max_attempts task tasks = ground arith

-- A settled task holds no lease.
settle-lease_expired :
    (now max_attempts : ℕ) (task : TaskRecord)
    → lease_expired (settle now max_attempts task) now ≡ false
unfolding settle lease_expired
settle-lease_expired now max_attempts task = ground arith

module _ (now limit max_attempts : ℕ) where
  count-reclaim_from :
      (settled : ℕ) (s : TaskStore)
      → settled ≤ limit
      → count_expired now (reclaim_from now limit max_attempts settled s).1
        ≡ count_expired now s - (limit - settled)
  unfolding reclaim_from count_expired
  count-reclaim_from settled [] h = omega arith
  count-reclaim_from settled ((id, task) ∷ s) h = elim (Bool-cases (lease_expired task now)) [
    | inl e ↦
        ground
          (arith, count-reclaim_from (settled + 1) s, settle-lease_expired now max_attempts task)
    | inr e ↦ ground (arith, count-reclaim_from settled s)
  ]

  refs-reclaim_from :
      (settled room : ℕ) (s : TaskStore)
      → settled + room ≡ limit
      → (reclaim_from now limit max_attempts settled s).0
        ≡ announced max_attempts (take room (expired_tasks now s))
  unfolding reclaim_from expired_tasks take announced
  refs-reclaim_from settled zero [] h = refl
  refs-reclaim_from settled (suc room) [] h = refl
  refs-reclaim_from settled zero ((id, task) ∷ s) h = ground arith
  refs-reclaim_from settled (suc room) ((id, task) ∷ s) h =
      elim (Bool-cases (lease_expired task now)) [
        | inl e ↦ ground (
          arith,
          refs-reclaim_from (settled + 1) room s,
          requeued-announced max_attempts task (take room (expired_tasks now s)),
        )
        | inr e ↦ ground (arith, refs-reclaim_from settled (suc room) s)
      ]

  status-reclaim_from :
      (settled room : ℕ) (s : TaskStore)
      → settled + room ≡ limit
      → let first = take room (expired_tasks now s) in
        let s' = (reclaim_from now limit max_attempts settled s).1 in
        (count_status is_queued s' ≡ count_status is_queued s + renewable max_attempts first)
        × (count_status is_failed s' ≡ count_status is_failed s + exhausted max_attempts first)
  unfolding reclaim_from expired_tasks take
  status-reclaim_from settled zero [] h = (omega arith, omega arith)
  status-reclaim_from settled (suc room) [] h = (omega arith, omega arith)
  status-reclaim_from settled zero ((id, task) ∷ s) h = (ground arith, ground arith)
  status-reclaim_from settled (suc room) ((id, task) ∷ s) h =
      elim (Bool-cases (lease_expired task now)) [
        | inl e ↦
            (let p = expired_is_processing now task e in
              let q = settle-status now max_attempts task in
              let r = status-reclaim_from (settled + 1) room s (omega (arith, h)) in
              (ground (arith, p.0, q.0, r.0), ground (arith, p.1, q.1, r.1)))
        | inr e ↦
            (let r = status-reclaim_from settled (suc room) s h in
              (ground (arith, r.0), ground (arith, r.1)))
      ]

  -- A task whose lease has not expired is left as it is.
  pub lookup-reclaim_from :
      (id : String) (settled : ℕ) (s : TaskStore) {task : TaskRecord}
      → lookup id s ≡ some task
      → lease_expired task now ≡ false
      → lookup id (reclaim_from now limit max_attempts settled s).1 ≡ some task
  unfolding reclaim_from lookup
  lookup-reclaim_from id settled [] q h = q
  lookup-reclaim_from id settled ((j, t) ∷ s) {task} q h = ground (
    arith,
    lookup-reclaim_from id (settled + 1) s {task = task},
    lookup-reclaim_from id settled s {task = task},
  )

-- One reclaim with a positive limit settles the first expired leases in the store's order, up to the
-- limit: as many fewer are expired; those with attempts left, and only they, are announced in that order
-- and there are as many more QUEUED tasks; there are as many more FAILED tasks as have no attempt left.
pub reclaim_settles :
    (now limit max_attempts : ℕ) (s : TaskStore)
    → 0 < limit
    → let (reply, s') = reclaim_stale_processing now limit max_attempts s in
      (reply ≡ ok (announced max_attempts (take limit (expired_tasks now s))))
      × (count_expired now s' ≡ count_expired now s - limit)
      × (count_status is_queued s'
          ≡ count_status is_queued s + renewable max_attempts (take limit (expired_tasks now s)))
      × (count_status is_failed s'
          ≡ count_status is_failed s + exhausted max_attempts (take limit (expired_tasks now s)))
unfolding reclaim_stale_processing
reclaim_settles now limit max_attempts s h = ground (
  arith,
  refs-reclaim_from now limit max_attempts 0 limit s,
  count-reclaim_from now limit max_attempts 0 s,
  status-reclaim_from now limit max_attempts 0 limit s (omega arith),
)
