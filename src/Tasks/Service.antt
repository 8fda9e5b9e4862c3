-- ===== src/Tasks/Service.antt =====
-- app/modules/messaging/tasks/service.py: QueueTaskDispatcher and TaskService over a task store and a
-- queue. The ids of `uuid4` and the clock's reading are arguments; `next_id n` is the id of the n-th
-- message that a reclaim sends. `none` is the NotFoundError.
pub mod Announce
use ai_platform_template.Base.{
  ℕ, ◌+◌, String, Bool, true, false, Option, none, some, List, [], ◌∷◌, leb, length, if◌then◌else◌,
}
use ai_platform_template.Base.Eq.{◌==◌, string_eq}
use ai_platform_template.Base.Json.{Json}
use ai_platform_template.Base.Result.{Exception, value_error, Result, ok, err}
use ai_platform_template.Dict.{Dict}
use ai_platform_template.Queue.Gateway.{InMemoryQueueGateway, send}
use ai_platform_template.Tasks.Models.{TaskRecord, TaskRef, queued}
use ai_platform_template.Tasks.Memory.{TaskStore, create, get, reclaim_stale_processing}
use ai_platform_template.Tasks.Message.{TaskMessage, to_body, is_valid}

pub record Backend : Type 0 where
  pub store : TaskStore
  pub queue : InMemoryQueueGateway

pub record TaskService : Type 0 where
  pub ttl_seconds : ℕ
  pub lease_seconds : ℕ

-- `TaskService.__init__`
unfoldable pub check_service : TaskService → Result Exception TaskService
check_service t =
    if leb t.ttl_seconds 0
    then err value_error
    else if leb t.lease_seconds 0
    then err value_error
    else ok t

abbrev pub message_of : TaskRef → TaskMessage
message_of ref = record { task_id = ref.id; type = ref.type; request_id = ref.request_id }

abbrev sent :
    Result Exception String × InMemoryQueueGateway → Backend → Result Exception (Unit {0}) × Backend
sent (ok _, q) b = (ok tt, record b { queue = q })
sent (err e, q) b = (err e, record b { queue = q })

-- `_announce`; a ref with an empty text is no TaskMessage, whose ValidationError is a ValueError.
unfoldable pub announce : String → TaskRef → Backend → Result Exception (Unit {0}) × Backend
unfolding send to_body
announce message_id ref b =
    if is_valid (message_of ref)
    then sent (send message_id (to_body (message_of ref)) b.queue) b
    else (err value_error, b)

abbrev pub ref_to : TaskRecord → TaskRef
ref_to task = record { id = task.id; type = task.type; request_id = task.request_id }

abbrev created :
    String
    → TaskRef
    → Result Exception (Unit {0}) × TaskStore
    → Backend
    → Result Exception (Unit {0}) × Backend
created message_id ref (err e, s) b = (err e, record b { store = s })
created message_id ref (ok _, s) b = announce message_id ref (record b { store = s })

-- `QueueTaskDispatcher.submit`
unfoldable pub dispatch_task :
    String → ℕ → TaskRecord → Backend → Result Exception (Unit {0}) × Backend
unfolding create announce
dispatch_task message_id now task b = created message_id (ref_to task) (create task now b.store) b

-- The record that `TaskService.submit` makes.
abbrev pub new_task :
    ℕ → String → String → Dict String Json → String → Option String → TaskService → TaskRecord
new_task now id type payload principal_id request_id t = record {
  id = id;
  type = type;
  status = queued;
  payload = payload;
  expires_at = now + t.ttl_seconds;
  attempts = 0;
  result = none;
  error = none;
  created_at = some now;
  updated_at = some now;
  locked_until = none;
  metadata = [];
  principal_id = principal_id;
  request_id = request_id;
}

-- `TaskService.submit`
unfoldable pub submit :
    String
    → String
    → ℕ
    → String
    → Dict String Json
    → String
    → Option String
    → TaskService
    → Backend
    → Result Exception TaskRecord × Backend
unfolding dispatch_task
submit id message_id now type payload principal_id request_id t b =
    let task = new_task now id type payload principal_id request_id t in
    let (reply, b') = dispatch_task message_id now task b in
    (elim reply [ err e ↦ err e | ok _ ↦ ok task ], b')

-- The loop of `reclaim`: the first failure to send ends it.
unfoldable pub announce_all :
    (ℕ → String) → ℕ → List TaskRef → Backend → Result Exception (Unit {0}) × Backend
unfolding announce
announce_all next_id n [] b = (ok tt, b)
announce_all next_id n (ref ∷ refs) b =
    let (reply, b') = announce (next_id n) ref b in
    let rest = announce_all next_id (n + 1) refs b' in
    elim reply [ err e ↦ (err e, b') | ok _ ↦ rest ]

abbrev reclaimed :
    (ℕ → String)
    → Result Exception (List TaskRef) × TaskStore
    → Backend
    → Result Exception ℕ × Backend
reclaimed next_id (err e, s) b = (err e, record b { store = s })
reclaimed next_id (ok refs, s) b =
    let (reply, b') = announce_all next_id 0 refs (record b { store = s }) in
    (elim reply [ err e ↦ err e | ok _ ↦ ok (length refs) ], b')

-- `QueueTaskDispatcher.reclaim`, which `TaskService.reclaim_stale_processing` calls.
unfoldable pub reclaim : (ℕ → String) → ℕ → ℕ → ℕ → Backend → Result Exception ℕ × Backend
unfolding announce_all reclaim_stale_processing
reclaim next_id now limit max_attempts b =
    reclaimed next_id (reclaim_stale_processing now limit max_attempts b.store) b

-- `require`
unfoldable pub require : String → TaskStore → Option TaskRecord
unfolding get
require task_id s = get task_id none s

abbrev of_type : String → Option TaskRecord → Option TaskRecord
of_type type none = none
of_type type (some r) = if r.type == type then some r else none

-- `require_owned`
unfoldable pub require_owned : String → String → String → TaskStore → Option TaskRecord
unfolding get
require_owned task_id principal_id type s = of_type type (get task_id (some principal_id) s)
