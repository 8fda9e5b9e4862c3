-- ===== src/Tasks/Service/Announce.antt =====
-- What a submission leaves in the store and in the queue, and who may read a task.
use ai_platform_template.Base.{
  ℕ, ◌≡◌, ◌↔◌, String, true, false, Option, none, some, [], ◌∷◌, ◌++◌, arith, Option-cases, inl,
  inr,
}
use ai_platform_template.Base.Eq.{==_iff, ==_refl, string_eq}
use ai_platform_template.Base.Json.{Json}
use ai_platform_template.Base.Result.{ok}
use ai_platform_template.Dict.{Dict, lookup}
use ai_platform_template.Dict.Laws.{lookup-insert}
use ai_platform_template.Queue.Gateway.{QueueMessage, send}
use ai_platform_template.Tasks.Models.{TaskRecord}
use ai_platform_template.Tasks.Memory.{TaskStore, create, get}
use ai_platform_template.Tasks.Message.{to_body, from_body, is_valid, from_body-to_body}
use ai_platform_template.Tasks.Service.{
  Backend, TaskService, message_of, ref_to, new_task, announce, dispatch_task, submit,
  require_owned,
}

module _ (id message_id : String) (now : ℕ) (type : String) (payload : Dict String Json)
    (principal_id : String) (request_id : Option String) (t : TaskService) (b : Backend) where
  abbrev task : TaskRecord
  task = new_task now id type payload principal_id request_id t

  -- A submission under a fresh task id, with an open queue and a message that satisfies its
  -- constraints, returns the queued task; the store then holds it for its owner, and the queue has one
  -- message more, at its end, from which the worker reads the task's id, type and request.
  pub submit_announces :
      lookup id b.store ≡ none
      → b.queue.closed ≡ false
      → is_valid (message_of (ref_to task)) ≡ true
      → let (reply, b') = submit id message_id now type payload principal_id request_id t b in
        (reply ≡ ok task)
        × (require_owned id principal_id type b'.store ≡ some task)
        × ((m : QueueMessage) × (b'.queue.queue ≡ b.queue.queue ++ m ∷ [])
            × (from_body m.body ≡ some (message_of (ref_to task))))
  unfolding submit dispatch_task create announce send require_owned get
  submit_announces f o v = (
    ground arith,
    ground
        (arith, lookup-insert id id task b.store, ==_refl id, ==_refl principal_id, ==_refl type),
    (
      record { id = message_id; body = to_body (message_of (ref_to task)); receive_count = 1 },
      ground arith,
      ground (arith, from_body-to_body (message_of (ref_to task))),
    ),
  )

-- A read by the API gives a task only to the principal that owns it, under its type, and gives exactly
-- what the store holds.
pub require_owned_reads :
    (id principal_id type : String) (task : TaskRecord) (s : TaskStore)
    → (require_owned id principal_id type s ≡ some task)
      ↔ ((lookup id s ≡ some task) × (task.principal_id ≡ principal_id) × (task.type ≡ type))
unfolding require_owned get
require_owned_reads id principal_id type task s = elim (Option-cases (lookup id s)) [
  | inl missing ↦ ((λ h. ground arith), λ h. ground arith)
  | inr (r, q) ↦ (
    (λ h. ground (arith, ==_iff r.principal_id principal_id, ==_iff r.type type)),
    λ h. ground (arith, ==_iff r.principal_id principal_id, ==_iff r.type type),
  )
]
