-- ===== src/Tasks/Memory.antt =====
-- app/modules/messaging/tasks/adapters/memory.py: InMemoryTaskStore. Each method runs under the
-- store's lock, so it is one step; the clock's reading is an argument.
pub mod Claims
pub mod Reclaim
pub mod Expiry
use ai_platform_template.Base.{
  ℕ, suc, zero, ◌+◌, String, Bool, true, false, not, ◌&&◌, ◌||◌, Option, none, some, List, [], ◌∷◌,
  ◌++◌, leb, is_some, or_else, length, if◌then◌else◌,
}
use ai_platform_template.Base.Eq.{◌==◌, string_eq}
use ai_platform_template.Base.Json.{Json}
use ai_platform_template.Base.Result.{Exception, value_error, key_error, Result, ok, err}
use ai_platform_template.Dict.{Dict, lookup, insert, erase}
use ai_platform_template.Tasks.Models.{
  TaskStatus, queued, processing, completed, failed, TaskRecord, TaskRef, max_attempts_exceeded,
}

abbrev pub TaskStore : Type 0
TaskStore = Dict String TaskRecord

abbrev pub Reply : Type 0 → Type 0
Reply A = Result Exception A × TaskStore

abbrev due : Option ℕ → ℕ → Bool
due none now = false
due (some until) now = leb until now

unfoldable pub lease_expired : TaskRecord → ℕ → Bool
lease_expired task now = elim task.status [ processing ↦ due task.locked_until now | _ ↦ false ]

unfoldable pub claimable : TaskRecord → ℕ → Bool
unfolding lease_expired
claimable task now = elim task.status [ queued ↦ true | _ ↦ lease_expired task now ]

abbrev pub stamped : ℕ → TaskRecord → TaskRecord
stamped now task = record task {
  created_at = some (or_else task.created_at now);
  updated_at = some now;
}

unfoldable pub create : TaskRecord → ℕ → TaskStore → Reply (Unit {0})
create task now s =
    if is_some (lookup task.id s)
    then (err value_error, s)
    else (ok tt, insert task.id (stamped now task) s)

abbrev pub owned_by : Option String → TaskRecord → Bool
owned_by none task = true
owned_by (some principal) task = task.principal_id == principal

unfoldable pub get : String → Option String → TaskStore → Option TaskRecord
get task_id principal_id s = elim (lookup task_id s) [
  | none ↦ none
  | some task ↦ if owned_by principal_id task then some task else none
]

abbrev pub claimed : ℕ → ℕ → TaskRecord → TaskRecord
claimed lease_seconds now task = record task {
  status = processing;
  attempts = task.attempts + 1;
  locked_until = some (now + lease_seconds);
  updated_at = some now;
}

abbrev claim_found : String → ℕ → ℕ → TaskRecord → TaskStore → Reply Bool
claim_found task_id lease_seconds now task s =
    if not (claimable task now)
    then (ok false, s)
    else (ok true, insert task_id (claimed lease_seconds now task) s)

unfoldable pub mark_processing : String → ℕ → ℕ → TaskStore → Reply Bool
mark_processing task_id lease_seconds now s =
    if leb lease_seconds 0 then (err value_error, s) else elim (lookup task_id s) [
      | none ↦ (err key_error, s)
      | some task ↦ claim_found task_id lease_seconds now task s
    ]

-- `if x is not None: field = x`
abbrev override {ℓ} : {A : Type ℓ} → Option A → Option A → Option A
override none old = old
override (some x) old = some x

-- `_update_status` with `locked_until=None`, as both of its callers write it.
abbrev pub settled_with :
    TaskStatus → Option (Dict String Json) → Option String → ℕ → TaskRecord → TaskRecord
settled_with status result error now task = record task {
  status = status;
  updated_at = some now;
  result = override result task.result;
  error = override error task.error;
  locked_until = none;
}

unfoldable pub update_status :
    String
    → TaskStatus
    → Option (Dict String Json)
    → Option String
    → ℕ
    → TaskStore
    → Reply (Unit {0})
update_status task_id status result error now s = elim (lookup task_id s) [
  | none ↦ (err key_error, s)
  | some task ↦ (ok tt, insert task_id (settled_with status result error now task) s)
]

unfoldable pub mark_completed : String → Dict String Json → ℕ → TaskStore → Reply (Unit {0})
unfolding update_status
mark_completed task_id result = update_status task_id completed (some result) none

unfoldable pub mark_failed : String → String → ℕ → TaskStore → Reply (Unit {0})
unfolding update_status
mark_failed task_id error = update_status task_id failed none (some error)

-- What `reclaim_stale_processing` does to one expired task, and whether it announces it again.
unfoldable pub settle : ℕ → ℕ → TaskRecord → TaskRecord
settle now max_attempts task =
    if leb max_attempts task.attempts
    then record task {
      locked_until = none;
      updated_at = some now;
      status = failed;
      error = some max_attempts_exceeded;
    }
    else record task { locked_until = none; updated_at = some now; status = queued }

abbrev pub ref_of : TaskRecord → TaskRef
ref_of task = record { id = task.id; type = task.type; request_id = task.request_id }

unfoldable pub requeued : ℕ → TaskRecord → List TaskRef
requeued max_attempts task = if leb max_attempts task.attempts then [] else ref_of task ∷ []

-- The loop of `reclaim_stale_processing`, from the number settled so far.
unfoldable pub reclaim_from : ℕ → ℕ → ℕ → ℕ → TaskStore → List TaskRef × TaskStore
unfolding settle requeued
reclaim_from now limit max_attempts settled [] = ([], [])
reclaim_from now limit max_attempts settled ((id, task) ∷ s) =
    let expired = lease_expired task now in
    let rest = reclaim_from now limit max_attempts (if expired then settled + 1 else settled) s in
    if leb limit settled
    then ([], (id, task) ∷ s)
    else if expired
    then (requeued max_attempts task ++ rest.0, (id, settle now max_attempts task) ∷ rest.1)
    else (rest.0, (id, task) ∷ rest.1)

unfoldable pub reclaim_stale_processing : ℕ → ℕ → ℕ → TaskStore → Reply (List TaskRef)
unfolding reclaim_from
reclaim_stale_processing now limit max_attempts s =
    if leb limit 0
    then (err value_error, s)
    else (let (refs, s') = reclaim_from now limit max_attempts 0 s in (ok refs, s'))

-- The ids of the tasks that expired by `before`, in order.
unfoldable pub expired_ids : ℕ → TaskStore → List String
expired_ids before [] = []
expired_ids before ((id, task) ∷ s) =
    let rest = expired_ids before s in if leb task.expires_at before then id ∷ rest else rest

-- `xs[:n]`
unfoldable pub take {ℓ} : {A : Type ℓ} → ℕ → List A → List A
take zero xs = []
take (suc n) [] = []
take (suc n) (x ∷ xs) = x ∷ take n xs

unfoldable pub erase_all : List String → TaskStore → TaskStore
unfolding erase
erase_all [] s = s
erase_all (id ∷ ids) s = erase_all ids (erase id s)

unfoldable pub delete_expired : ℕ → ℕ → TaskStore → Reply ℕ
unfolding expired_ids take erase_all
delete_expired before limit s =
    if leb limit 0
    then (err value_error, s)
    else (let stale = take limit (expired_ids before s) in (ok (length stale), erase_all stale s))
