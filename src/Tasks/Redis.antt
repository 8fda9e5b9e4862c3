-- ===== src/Tasks/Redis.antt =====
-- app/modules/messaging/tasks/adapters/redis.py: RedisTaskStore. A key is the task's id, since the
-- prefix is the same for all; a value is the task that `_deserialize` reads back, whose times and texts
-- are those that were written. A key lives up to its deadline; what TTL reads of the ticks that are left
-- to it is an argument, in which a reading that is not positive is 0.
pub mod Atomic
pub mod Refinement
use ai_platform_template.Base.{
  ℕ, suc, ◌+◌, ◌-◌, ◌*◌, ◌/◌, max, ltb, String, Bool, true, false, not, Option, none, some, List,
  [], ◌∷◌, ◌++◌, leb, or_else, if◌then◌else◌,
}
use ai_platform_template.Base.Eq.{◌==◌, string_eq}
use ai_platform_template.Base.Json.{Json}
use ai_platform_template.Base.Result.{Exception, value_error, key_error, Result, ok, err}
use ai_platform_template.Dict.{Dict, lookup, insert}
use ai_platform_template.Tasks.Models.{
  TaskStatus, queued, processing, completed, failed, TaskRecord, TaskRef, max_attempts_exceeded,
}
use ai_platform_template.Tasks.Memory.{
  claimable, lease_expired, claimed, owned_by, settled_with, settle, requeued, stamped,
}

-- What SETEX keeps under a key, and the time at which the key expires.
pub record Entry : Type 0 where
  pub task : TaskRecord
  pub deadline : ℕ

abbrev pub RedisTasks : Type 0
RedisTasks = Dict String Entry

abbrev pub Reply : Type 0 → Type 0
Reply A = Result Exception A × RedisTasks

-- `_serialize` writes every field but the metadata, which `_deserialize` leaves empty.
unfoldable pub stored : TaskRecord → TaskRecord
stored task = record task { metadata = [] }

-- The ticks of a second.
abbrev second : ℕ
second = 1_000_000

-- `create`: SETEX, for at least a second; a task of the same id is replaced.
unfoldable pub create : TaskRecord → ℕ → RedisTasks → RedisTasks
unfolding stored
create task now r =
    insert task.id
      (record {
        task = stored (stamped now task);
        deadline = now + max ((task.expires_at - now) / second) 1 * second;
      })
      r

abbrev unexpired : ℕ → Option Entry → Option Entry
unexpired now none = none
unexpired now (some e) = if ltb now e.deadline then some e else none

-- What GET finds at `now`.
unfoldable pub live : ℕ → String → RedisTasks → Option Entry
live now key r = unexpired now (lookup key r)

-- `get`
unfoldable pub get : String → Option String → ℕ → RedisTasks → Option TaskRecord
unfolding live
get task_id principal_id now r = elim (live now task_id r) [
  | none ↦ none
  | some e ↦ if owned_by principal_id e.task then some e.task else none
]

-- `remaining if remaining and remaining > 0 else 1`
abbrev kept_ttl : ℕ → ℕ
kept_ttl remaining = if leb remaining 0 then 1 else remaining

-- What other clients write between the WATCH and the EXEC, so that the EXEC fails, and the ticks up to
-- the next round.
abbrev pub Interference : Type 0
Interference = ℕ × (RedisTasks → RedisTasks)

abbrev count_if : Bool → ℕ → ℕ
count_if true n = n + 1
count_if false n = n

abbrev ref_if : Option TaskRecord × Bool → List TaskRef
ref_if (none, saved) = []
ref_if (some task, false) = []
ref_if (some task, true) = elim task.status [
  | queued ↦ record { id = task.id; type = task.type; request_id = task.request_id } ∷ []
  | _ ↦ []
]

-- The `claim` of `mark_processing`
unfoldable pub claim : ℕ → ℕ → TaskRecord → Bool × TaskRecord
unfolding claimable
claim lease_seconds now task =
    if claimable task now then (true, claimed lease_seconds now task) else (false, task)

abbrev applied_to : (Option TaskRecord × Bool) × RedisTasks → Reply Bool
applied_to ((none, applied), r) = (err key_error, r)
applied_to ((some task, applied), r) = (ok applied, r)

-- The `reclaim` of `reclaim_stale_processing`
unfoldable pub reclaim : ℕ → ℕ → TaskRecord → Bool × TaskRecord
unfolding lease_expired settle
reclaim now max_attempts task =
    if lease_expired task now then (true, settle now max_attempts task) else (false, task)

module _ (seconds_left : ℕ → ℕ) where
  -- SETEX again at `now`, for the time to live that is left.
  abbrev written : ℕ → TaskRecord → Entry → Entry
  written now task e = record {
    task = stored task;
    deadline = now + kept_ttl (seconds_left (e.deadline - now)) * second;
  }

  -- `_transition`: the task and whether it was saved; each interference costs one round of the loop.
  unfoldable pub transition :
      List Interference
      → ℕ
      → String
      → (TaskRecord → Bool × TaskRecord)
      → RedisTasks
      → (Option TaskRecord × Bool) × RedisTasks
  unfolding stored live
  transition [] now key mutate r = elim (live now key r) [
    | none ↦ ((none, false), r)
    | some e ↦
        if (mutate e.task).0
        then ((some (mutate e.task).1, true), insert key (written now (mutate e.task).1 e) r)
        else ((some (mutate e.task).1, false), r)
  ]
  transition ((ticks, write) ∷ writes) now key mutate r =
      let again = transition writes (now + ticks) key mutate (write r) in
      elim (live now key r) [
        | none ↦ ((none, false), r)
        | some e ↦ if (mutate e.task).0 then again else ((some (mutate e.task).1, false), r)
      ]

  unfoldable pub mark_processing : List Interference → String → ℕ → ℕ → RedisTasks → Reply Bool
  unfolding transition claim
  mark_processing writes task_id lease_seconds now r =
      if leb lease_seconds 0
      then (err value_error, r)
      else applied_to (transition writes now task_id (claim lease_seconds now) r)

  -- `_update` with `locked_until=None`, with nothing written between its read and its write.
  unfoldable pub update_status :
      String
      → TaskStatus
      → Option (Dict String Json)
      → Option String
      → ℕ
      → RedisTasks
      → Reply (Unit {0})
  unfolding stored live
  update_status task_id status result error now r = elim (live now task_id r) [
    | none ↦ (err key_error, r)
    | some e ↦
        (ok tt, insert task_id (written now (settled_with status result error now e.task) e) r)
  ]

  unfoldable pub mark_completed : String → Dict String Json → ℕ → RedisTasks → Reply (Unit {0})
  unfolding update_status
  mark_completed task_id result = update_status task_id completed (some result) none

  unfoldable pub mark_failed : String → String → ℕ → RedisTasks → Reply (Unit {0})
  unfolding update_status
  mark_failed task_id error = update_status task_id failed none (some error)

  -- The loop over the keys that SCAN gives, from the number settled so far.
  unfoldable pub reclaim_keys : ℕ → ℕ → ℕ → ℕ → List String → RedisTasks → List TaskRef × RedisTasks
  unfolding transition reclaim
  reclaim_keys now limit max_attempts settled [] r = ([], r)
  reclaim_keys now limit max_attempts settled (key ∷ keys) r =
      let step = transition [] now key (reclaim now max_attempts) r in
      let rest = reclaim_keys now limit max_attempts (count_if step.0.1 settled) keys step.1 in
      if leb limit settled then ([], r) else (ref_if step.0 ++ rest.0, rest.1)

  unfoldable pub reclaim_stale_processing :
      List String → ℕ → ℕ → ℕ → RedisTasks → Reply (List TaskRef)
  unfolding reclaim_keys
  reclaim_stale_processing keys now limit max_attempts r =
      if leb limit 0 then (err value_error, r) else (
        ok (reclaim_keys now limit max_attempts 0 keys r).0,
        (reclaim_keys now limit max_attempts 0 keys r).1,
      )

-- `delete_expired`
unfoldable pub delete_expired : ℕ → ℕ → RedisTasks → ℕ × RedisTasks
delete_expired before limit r = (0, r)
