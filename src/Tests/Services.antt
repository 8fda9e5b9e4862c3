-- ===== src/Tests/Services.antt =====
-- Runs of the task service and its worker's handler, the outbox, the cache, the model router and the
-- quota windows.
use ai_platform_template.Base.{◌+◌, ◌≡◌, refl, true, false, none, some, [], ◌∷◌, arith}
use ai_platform_template.Base.Eq.{pair_equals, string_eq, pair_eq}
use ai_platform_template.Base.Result.{ok}
use ai_platform_template.Dict.{lookup}
use ai_platform_template.Queue.Gateway.{QueueMessage, empty_gateway}
use ai_platform_template.Queue.Worker.{handled}
use ai_platform_template.Tasks.Models.{TaskRecord, completed}
use ai_platform_template.Tasks.Memory.{TaskStore, claimable}
use ai_platform_template.Tasks.Message.{from_body}
use ai_platform_template.Tasks.Handler.{process_task, finished, process_ends}
use ai_platform_template.Tasks.Service.{
  Backend, TaskService, message_of, ref_to, new_task, submit, require_owned,
}
use ai_platform_template.Tasks.Service.Announce.{submit_announces}
use ai_platform_template.Resilience.Retry.{decision, RetryPolicy}
use ai_platform_template.Resilience.Breaker.{build}
use ai_platform_template.Cache.{MemoryCacheGateway, get, set}
use ai_platform_template.Cache.Expiry.{getting, setting, run, set-get}
use ai_platform_template.Outbox.{OutboxRecord, OutboxStore, SinkError, pending, publish_pending}
use ai_platform_template.Outbox.Report.{row_after, publish_settles}
use ai_platform_template.Resilience.Breaker.{record_failure, try_acquire}
use ai_platform_template.Resilience.Errors.{is_transient_error}
use ai_platform_template.Llm.{ModelRouter, Call, ainvoke}
use ai_platform_template.Llm.Probes.{IsFree, ainvoke-IsFree}
use ai_platform_template.Health.{
  HealthService, passes, times_out, readiness, begin_draining, run_check,
}
use ai_platform_template.Health.Readiness.{readiness_reports}

abbrev service : TaskService
service = record { ttl_seconds = 1000; lease_seconds = 30 }

abbrev backend : Backend
backend = record { store = []; queue = empty_gateway }

abbrev task : TaskRecord
task = new_task 5 "t1" "completion" [] "u1" none service

abbrev store : TaskStore
store = ("t1", task) ∷ []

abbrev ended : TaskRecord
ended = record task { status = completed }

process_ends_example :
    let (outcome, s') = process_task (λ p. ok p) (λ s. s) 30 "t1" 10 20 store in
    (outcome ≡ handled) × (lookup "t1" s' ≡ some (finished 10 20 (ok []) task))
unfolding lookup claimable
process_ends_example =
    process_ends (λ p. ok p) (λ s. s) 30 "t1" 10 20 task store (omega arith) refl refl refl

submit_announces_example :
    let (reply, b') = submit "t1" "m1" 5 "completion" [] "u1" none service backend in
    (reply ≡ ok task)
    × (require_owned "t1" "u1" "completion" b'.store ≡ some task)
    × ((m : QueueMessage) × (b'.queue.queue ≡ m ∷ [])
        × (from_body m.body ≡ some (message_of (ref_to task))))
unfolding lookup
submit_announces_example =
    submit_announces "t1" "m1" 5 "completion" [] "u1" none service backend refl refl refl

abbrev cache : MemoryCacheGateway
cache = record { default_ttl_seconds = 300; values = []; closed = false }

set-get_example :
    (get 14 "a"
      (run (setting 12 "b" "y" none ∷ getting 13 "b" ∷ []) (set 10 "a" "x" (some 5) cache).1)).0
    ≡ ok (some "x")
set-get_example =
    set-get 10 14 5 "a" "x" (setting 12 "b" "y" none ∷ getting 13 "b" ∷ []) cache refl (omega arith)
      (refl, (omega arith, tt))

abbrev event : OutboxRecord
event = record {
  id = "e1";
  event_type = "task.created";
  payload = [];
  metadata = [];
  status = pending;
  attempts = 0;
  available_at = some 0;
  locked_until = none;
  published_at = none;
  error = none;
}

abbrev refused : SinkError
refused = record {
  error = record {
    status_code = none;
    response = none;
    retry_after = none;
    is_timeout_or_connection = true;
    mro = [];
  };
  text = "down";
}

abbrev policy : RetryPolicy
policy = record {
  max_attempts = 3;
  retry_status_codes = [];
  retry_exceptions = true;
  retry_on = λ _. true;
  base_delay_seconds = 1;
  max_delay_seconds = 30;
}

publish_settles_example :
    (s' : OutboxStore) × (publish_pending
        (λ x. x)
        policy
        (λ _ _. some refused)
        50
        60
        (event ∷ [])
        (("e1", event) ∷ [])
      ≡ ok (record { total = 1; published = 0; retried = 1; failed = 0 }, s'))
    × (lookup "e1" s'
        ≡ row_after (λ x. x) policy (λ _ _. some refused) 50 "e1" (event ∷ []) (some event))
unfolding lookup decision
publish_settles_example =
    publish_settles (λ x. x) policy (λ _ _. some refused) 50 60 "e1" (event ∷ [])
      (("e1", event) ∷ []) (omega arith) (refl, tt)

abbrev router : ModelRouter
router = record {
  settings = record {
    chat_model = "a";
    chat_fallback_models = "b" ∷ [];
    judge_chat_model = "";
    is_local = true;
    breaker_failure_threshold = 2;
    breaker_cooldown_seconds = 30;
    chain_deadline_seconds = 60;
  };
  breakers = [];
}

router-IsFree : IsFree router
unfolding lookup build
router-IsFree = record { no_probe = λ k. refl }

ainvoke-IsFree_example :
    IsFree (ainvoke (λ target now. (now + 1, Call.raised refused.error)) "default" 5 router).1
unfolding ainvoke record_failure is_transient_error try_acquire lookup build pair_equals
ainvoke-IsFree_example =
    ainvoke-IsFree (λ target now. (now + 1, Call.raised refused.error)) "default" 5 router
      router-IsFree refl

abbrev health : HealthService
health = record {
  check_external_dependencies = true;
  checks = ("db", passes) ∷ ("redis", times_out) ∷ [];
  draining = false;
}

readiness_reports_example :
    ((readiness (begin_draining health)).status ≡ "draining")
    × ((readiness health).status ≡ "error")
unfolding lookup run_check
readiness_reports_example = readiness_reports health (refl, (refl, tt)) refl
