-- ===== src/Tasks/Handler.antt =====
-- app/bootstrap/worker.py: the message handler that the worker runs. `complete` is the completion of a
-- task's payload, or the error that the API may show; `between` is what other workers make of the store
-- while it runs.
use ai_platform_template.Base.{ℕ, ◌+◌, ◌<◌, ◌≡◌, String, Bool, true, false, none, some, arith, ◌⊎◌}
use ai_platform_template.Base.Eq.{==_refl, string_eq}
use ai_platform_template.Base.Json.{Json}
use ai_platform_template.Base.Result.{Exception, Result, ok, err}
use ai_platform_template.Dict.{Dict, lookup, insert}
use ai_platform_template.Dict.Laws.{lookup-insert}
use ai_platform_template.Queue.Gateway.{QueueMessage}
use ai_platform_template.Queue.Worker.{Outcome, handled, non_retryable, retryable}
use ai_platform_template.Tasks.Models.{TaskRecord, completed, failed}
use ai_platform_template.Tasks.Memory.{
  TaskStore, get, mark_processing, mark_completed, mark_failed, update_status, claimable, claimed,
}
use ai_platform_template.Tasks.Message.{from_body}

-- An exception of a call of the store; a missing task is no NonRetryableMessageError either.
abbrev outcome_of : {A : Type 0} → Outcome → Result Exception A → Outcome
outcome_of done (ok _) = done
outcome_of done (err _) = retryable

module _ (complete : Dict String Json → Result String (Dict String Json))
    (between : TaskStore → TaskStore) (lease_seconds : ℕ) where
  abbrev settle_as : String → ℕ → Result String (Dict String Json) → TaskStore → Outcome × TaskStore
  settle_as id later (err error) s =
      let (reply, s') = mark_failed id error later s in (outcome_of non_retryable reply, s')
  settle_as id later (ok result) s =
      let (reply, s') = mark_completed id result later s in (outcome_of handled reply, s')

  abbrev process_claimed :
      String → ℕ → TaskRecord → Result Exception Bool × TaskStore → Outcome × TaskStore
  process_claimed id later task (err _, s) = (retryable, s)
  process_claimed id later task (ok false, s) = (handled, s)
  process_claimed id later task (ok true, s) =
      settle_as id later (complete task.payload) (between s)

  -- `process_task`: claimed at `now`, settled at `later`.
  unfoldable pub process_task : String → ℕ → ℕ → TaskStore → Outcome × TaskStore
  unfolding get mark_processing mark_completed mark_failed
  process_task id now later s = elim (get id none s) [
    | none ↦ (retryable, s)
    | some task ↦ process_claimed id later task (mark_processing id lease_seconds now s)
  ]

  -- `process_message`
  unfoldable pub process_message : ℕ → ℕ → QueueMessage → TaskStore → Outcome × TaskStore
  unfolding process_task from_body
  process_message now later m s = elim (from_body m.body) [
    | none ↦ (non_retryable, s)
    | some message ↦ process_task message.task_id now later s
  ]

abbrev pub outcome_for : Result String (Dict String Json) → Outcome
outcome_for (ok _) = handled
outcome_for (err _) = non_retryable

-- What the task becomes: COMPLETED with the result, or FAILED with the error; either way the lease is
-- given up and the claim counts as one attempt.
abbrev pub finished : ℕ → ℕ → Result String (Dict String Json) → TaskRecord → TaskRecord
finished now later (ok result) task = record task {
  status = completed;
  attempts = task.attempts + 1;
  locked_until = none;
  updated_at = some later;
  result = some result;
}
finished now later (err error) task = record task {
  status = failed;
  attempts = task.attempts + 1;
  locked_until = none;
  updated_at = some later;
  error = some error;
}

module _ (complete : Dict String Json → Result String (Dict String Json))
    (between : TaskStore → TaskStore) (lease_seconds : ℕ) (id : String) (now later : ℕ)
    (task : TaskRecord) (s : TaskStore) where
  claim_taken :
      0 < lease_seconds
      → lookup id s ≡ some task
      → claimable task now ≡ true
      → mark_processing id lease_seconds now s
        ≡ (ok true, insert id (claimed lease_seconds now task) s)
  unfolding mark_processing
  claim_taken p q c = ground arith

  process_claims :
      0 < lease_seconds
      → lookup id s ≡ some task
      → claimable task now ≡ true
      → process_task complete between lease_seconds id now later s
        ≡ settle_as complete between lease_seconds id later
            (complete task.payload)
            (between (insert id (claimed lease_seconds now task) s))
  unfolding process_task get
  process_claims p q c = ground (arith, claim_taken p q c)

  -- Under a positive lease, a delivery of a task that may be claimed, if no other call changes the
  -- task while it runs, ends the task as its completion says; an acknowledgement goes with
  -- COMPLETED, the dead letters with FAILED.
  pub process_ends :
      0 < lease_seconds
      → lookup id s ≡ some task
      → claimable task now ≡ true
      → lookup id (between (mark_processing id lease_seconds now s).1)
        ≡ lookup id (mark_processing id lease_seconds now s).1
      → let (outcome, s') = process_task complete between lease_seconds id now later s in
        (outcome ≡ outcome_for (complete task.payload))
        × (lookup id s' ≡ some (finished now later (complete task.payload) task))
  unfolding mark_completed mark_failed update_status
  process_ends p q c b = rw (process_claims p q c) (by_completion (complete task.payload))
    where
      running : TaskStore
      running = between (insert id (claimed lease_seconds now task) s)

      kept : lookup id running ≡ some (claimed lease_seconds now task)
      kept = ground (
        arith,
        b,
        claim_taken p q c,
        lookup-insert id id (claimed lease_seconds now task) s,
        ==_refl id,
      )

      by_completion :
          (r : Result String (Dict String Json))
          → ((settle_as complete between lease_seconds id later r running).0 ≡ outcome_for r)
            × (lookup id (settle_as complete between lease_seconds id later r running).1
                ≡ some (finished now later r task))
      by_completion (ok result) = ground (
        arith,
        kept,
        lookup-insert id id (finished now later (ok result) task) running,
        ==_refl id,
      )
      by_completion (err error) = ground (
        arith,
        kept,
        lookup-insert id id (finished now later (err error) task) running,
        ==_refl id,
      )

  -- Under a positive lease, a delivery of a task that has ended is acknowledged and changes
  -- nothing: no task runs again because its message came twice.
  pub redelivery_skipped :
      0 < lease_seconds
      → lookup id s ≡ some task
      → (task.status ≡ completed) ⊎ (task.status ≡ failed)
      → process_task complete between lease_seconds id now later s ≡ (handled, s)
  unfolding process_task get mark_processing claimable
  redelivery_skipped p q ended = ground arith
