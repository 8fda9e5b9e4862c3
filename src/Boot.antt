-- ===== src/Boot.antt =====
-- app/bootstrap/resources.py and app/bootstrap/addons: what a process opens, in which order, and what
-- it closes. A resource is whether it is open; the construction of a part may raise, which the
-- argument `fails` says.
pub mod Closes
pub mod Safe
pub mod Parts
pub mod Openers
pub mod Valid
use ai_platform_template.Base.{
  ◌≡◌, String, Bool, true, false, not, ◌&&◌, ◌||◌, Option, none, some, List, [], ◌∷◌, ◌++◌,
  if◌then◌else◌,
}
use ai_platform_template.Base.Result.{Result, ok, err}
use ai_platform_template.Config.{
  Settings, QueueBackend, TaskStoreBackend, TaskDispatchBackend, Backend, QuotaBackend,
  queue_memory, queue_redis, queue_sqs, queue_rabbitmq, store_memory, store_postgres, store_redis,
  dispatch_queue, dispatch_outbox, backend_memory, backend_redis, quota_memory, quota_postgres,
  quota_mongo,
}

-- What is constructed; `otel_globals` is what `install_globals` sets.
pub data Part : Type 0 where
  database sessionmaker redis queue telemetry otel_globals principal_rate_limiter ip_rate_limiter :
      Part
  idempotency cache objects mongo quota outbox webhooks rag task_store : Part

pub record ApplicationResources : Type 0 where
  pub engine : Bool
  pub sessionmaker : Bool
  pub redis : Bool
  pub queue_gateway : Bool
  pub tasks : Bool
  pub cache : Bool
  pub idempotency_store : Bool
  pub objects : Bool
  pub mongo : Bool
  pub quota : Bool
  pub outbox_store : Bool
  pub principal_rate_limiter : Bool
  pub ip_rate_limiter : Bool
  pub rag_service : Bool
  pub webhook_dispatcher : Bool
  pub telemetry : Bool
  pub health_checks : List String

-- `stack` is the exit stack, the last push first; `built` is what has been constructed, in order.
pub record Boot : Type 0 where
  pub resources : ApplicationResources
  pub stack : List Part
  pub built : List Part

-- The RuntimeError of `opened`, or the exception of a construction.
pub data BootError : Type 0 where
  not_open : Part → BootError
  build_failed : Part → BootError

abbrev pub Reply : Type 0
Reply = Result BootError (Unit {0}) × Boot

abbrev pub then_open : Reply → (Boot → Reply) → Reply
then_open (err e, b) next = (err e, b)
then_open (ok _, b) next = next b

abbrev no_resources : ApplicationResources
no_resources = record {
  engine = false;
  sessionmaker = false;
  redis = false;
  queue_gateway = false;
  tasks = false;
  cache = false;
  idempotency_store = false;
  objects = false;
  mongo = false;
  quota = false;
  outbox_store = false;
  principal_rate_limiter = false;
  ip_rate_limiter = false;
  rag_service = false;
  webhook_dispatcher = false;
  telemetry = false;
  health_checks = [];
}

abbrev pub start : Boot
start = record { resources = no_resources; stack = []; built = [] }

-- `opened`: goes on if the resource is open.
abbrev pub opened : Bool → Part → (Boot → Reply) → Boot → Reply
opened is_open part next b = if is_open then next b else (err (not_open part), b)

abbrev pub set_resources : (ApplicationResources → ApplicationResources) → Boot → Reply
set_resources f b = (ok tt, record b { resources = f b.resources })

abbrev pub engine_set : ApplicationResources → ApplicationResources
engine_set r = record r { engine = true }

abbrev pub sessionmaker_set : ApplicationResources → ApplicationResources
sessionmaker_set r = record r {
  sessionmaker = true;
  health_checks = r.health_checks ++ ("postgres" ∷ []);
}

abbrev pub tasks_set : ApplicationResources → ApplicationResources
tasks_set r = record r { tasks = true }

-- `push_async_callback`
abbrev pub push : Part → Boot → Reply
push part b = (ok tt, record b { stack = part ∷ b.stack })

module _ (fails : Part → Bool) where
  -- A construction.
  unfoldable pub construct_plain : Part → Boot → Reply
  construct_plain part b =
      if fails part
      then (err (build_failed part), b)
      else (ok tt, record b { built = b.built ++ (part ∷ []) })

  -- A construction and then the push of its close.
  unfoldable pub construct : Part → Boot → Reply
  unfolding construct_plain
  construct part b = then_open (construct_plain part b) (push part)

  -- The sessionmaker, once the engine is there.
  abbrev build_sessionmaker : Boot → Reply
  build_sessionmaker b = then_open (construct_plain sessionmaker b) (set_resources sessionmaker_set)

  -- `_open_database`
  unfoldable pub open_database : Settings → Boot → Reply
  unfolding construct construct_plain
  open_database s b =
      if not s.database_enabled
      then (ok tt, b)
      else then_open (construct database b)
          (λ c. then_open (set_resources engine_set c) build_sessionmaker)

  -- `_open_redis`
  unfoldable pub open_redis : Settings → Boot → Reply
  unfolding construct
  open_redis s b =
      if not s.redis_enabled
      then (ok tt, b)
      else then_open (construct redis b) (
          set_resources
            (λ r. record r { redis = true; health_checks = r.health_checks ++ ("redis" ∷ []) }))

  abbrev build_queue : QueueBackend → Boot → Reply
  build_queue queue_redis b = opened b.resources.redis redis (construct queue) b
  build_queue queue_memory b = construct queue b
  build_queue queue_sqs b = construct queue b
  build_queue queue_rabbitmq b = construct queue b

  -- `_open_queue`
  unfoldable pub open_queue : Settings → Boot → Reply
  unfolding construct
  open_queue s b =
      if not s.queue_enabled
      then (ok tt, b)
      else then_open (build_queue s.queue_backend b)
          (set_resources (λ r. record r { queue_gateway = true }))

  abbrev build_store : TaskStoreBackend → Boot → Reply
  build_store store_memory b = construct task_store b
  build_store store_postgres b =
      opened b.resources.sessionmaker sessionmaker (construct task_store) b
  build_store store_redis b = opened b.resources.redis redis (construct task_store) b

  abbrev build_dispatcher : TaskDispatchBackend → Boot → Reply
  build_dispatcher dispatch_queue b = (ok tt, b)
  build_dispatcher dispatch_outbox b =
      opened b.resources.sessionmaker sessionmaker (λ c. (ok tt, c)) b

  abbrev finish_tasks : Settings → Boot → Reply
  finish_tasks s b =
      then_open (build_dispatcher s.tasks_dispatch_backend b) (set_resources tasks_set)

  abbrev store_tasks : Settings → Boot → Reply
  store_tasks s b = then_open (build_store s.task_store_backend b) (finish_tasks s)

  -- `_open_tasks`
  unfoldable pub open_tasks : Settings → Boot → Reply
  unfolding construct
  open_tasks s b =
      if not s.tasks_enabled
      then (ok tt, b)
      else opened b.resources.queue_gateway queue (store_tasks s) b

  abbrev when : Bool → (Boot → Reply) → Boot → Reply
  when enabled next b = if enabled then next b else (ok tt, b)

  -- The providers, their globals, and then the push of the close of the providers.
  abbrev build_telemetry : Boot → Reply
  build_telemetry b =
      then_open (construct_plain telemetry b)
        (λ c. then_open (construct_plain otel_globals c) (push telemetry))

  -- `TelemetryAddon`
  unfoldable pub open_telemetry : Settings → Boot → Reply
  unfolding construct_plain
  open_telemetry s =
      when s.otel_enabled
        (λ b. then_open (build_telemetry b) (set_resources (λ r. record r { telemetry = true })))

  abbrev build_limiter : Backend → Part → Boot → Reply
  build_limiter backend_memory part b = construct_plain part b
  build_limiter backend_redis part b = opened b.resources.redis redis (construct_plain part) b

  abbrev principal_limiter : Settings → Boot → Reply
  principal_limiter s = when s.rate_limit_principal_enabled (λ b.
      then_open (build_limiter s.rate_limit_backend principal_rate_limiter b)
        (set_resources (λ r. record r { principal_rate_limiter = true })))

  abbrev ip_limiter : Settings → Boot → Reply
  ip_limiter s = when s.rate_limit_ip_enabled (λ b.
      then_open (build_limiter s.rate_limit_backend ip_rate_limiter b)
        (set_resources (λ r. record r { ip_rate_limiter = true })))

  -- `RateLimitAddon`
  unfoldable pub open_rate_limit : Settings → Boot → Reply
  unfolding construct_plain
  open_rate_limit s =
      when s.rate_limit_enabled (λ b. then_open (principal_limiter s b) (ip_limiter s))

  -- `IdempotencyAddon`
  unfoldable pub open_idempotency : Settings → Boot → Reply
  unfolding construct
  open_idempotency s = when s.idempotency_enabled (λ b.
      then_open (opened b.resources.sessionmaker sessionmaker (construct idempotency) b)
        (set_resources (λ r. record r { idempotency_store = true })))

  abbrev build_cache : Backend → Boot → Reply
  build_cache backend_memory b = construct cache b
  build_cache backend_redis b = opened b.resources.redis redis (construct cache) b

  -- `CacheAddon`
  unfoldable pub open_cache : Settings → Boot → Reply
  unfolding construct
  open_cache s = when s.cache_enabled (λ b.
      then_open (build_cache s.cache_backend b) (set_resources (λ r. record r { cache = true })))

  -- `ObjectAddon`
  unfoldable pub open_objects : Settings → Boot → Reply
  unfolding construct
  open_objects s =
      when s.objects_enabled
        (λ b. then_open (construct objects b) (set_resources (λ r. record r { objects = true })))

  -- `MongoAddon`
  unfoldable pub open_mongo : Settings → Boot → Reply
  unfolding construct
  open_mongo s = when s.mongo_enabled (λ b. then_open (construct mongo b) (
      set_resources
        (λ r. record r { mongo = true; health_checks = r.health_checks ++ ("mongo" ∷ []) })))

  abbrev build_quota : QuotaBackend → Boot → Reply
  build_quota quota_memory b = construct quota b
  build_quota quota_postgres b = opened b.resources.sessionmaker sessionmaker (construct quota) b
  build_quota quota_mongo b = opened b.resources.mongo mongo (construct quota) b

  -- `QuotaAddon`
  unfoldable pub open_quota : Settings → Boot → Reply
  unfolding construct
  open_quota s = when s.quota_enabled (λ b.
      then_open (build_quota s.quota_backend b) (set_resources (λ r. record r { quota = true })))

  -- `OutboxAddon`
  unfoldable pub open_outbox : Settings → Boot → Reply
  unfolding construct
  open_outbox s = when s.outbox_enabled (λ b.
      then_open (opened b.resources.sessionmaker sessionmaker (construct outbox) b)
        (set_resources (λ r. record r { outbox_store = true })))

  -- `WebhookAddon`
  unfoldable pub open_webhooks : Settings → Boot → Reply
  unfolding construct
  open_webhooks s = when s.webhooks_enabled (λ b.
      then_open (construct webhooks b)
        (set_resources (λ r. record r { webhook_dispatcher = true })))

  -- `RagAddon`
  unfoldable pub open_rag : Settings → Boot → Reply
  unfolding construct_plain
  open_rag s = when s.rag_enabled (λ b.
      then_open (construct_plain rag b) (set_resources (λ r. record r { rag_service = true })))

  -- One opener after the other, up to one that raises.
  unfoldable pub open_all : List (Settings → Boot → Reply) → Settings → Boot → Reply
  open_all [] s b = (ok tt, b)
  open_all (opener ∷ openers) s b = then_open (opener s b) (open_all openers s)

  -- `default_resource_addons`
  abbrev pub default_resource_addons : List (Settings → Boot → Reply)
  default_resource_addons =
      open_telemetry ∷ open_rate_limit ∷ open_idempotency ∷ open_cache ∷ open_objects ∷ open_mongo
      ∷ open_quota ∷ open_outbox ∷ open_webhooks ∷ open_rag ∷ []

  -- The openers of `open_application_resources`, in order.
  abbrev pub openers : Bool → List (Settings → Boot → Reply)
  openers init_resources =
      if init_resources
      then open_database ∷ open_redis ∷ open_queue ∷ (default_resource_addons ++ (open_tasks ∷ []))
      else default_resource_addons

  -- `open_application_resources` up to its `yield`. Its exit, after the body or after an opener that
  -- raised, runs the closes of `stack` from its top.
  unfoldable pub open_application_resources : Bool → Settings → Reply
  unfolding open_all
  open_application_resources init_resources s = open_all (openers init_resources) s start

-- What the exit of the resources closes, in order.
abbrev pub closes : Reply → List Part
closes r = r.1.stack
