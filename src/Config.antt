-- ===== src/Config.antt =====
-- app/core/config/messaging.py and platform.py: the settings that say what a process opens, and the
-- validators across them.
use ai_platform_template.Base.{Bool, true, false, not, ◌&&◌, List, [], ◌∷◌, if◌then◌else◌}
use ai_platform_template.Base.Result.{Exception, value_error, Result, ok, err}

pub data QueueBackend : Type 0 where
  queue_memory queue_redis queue_sqs queue_rabbitmq : QueueBackend

pub data TaskStoreBackend : Type 0 where
  store_memory store_postgres store_redis : TaskStoreBackend

pub data TaskDispatchBackend : Type 0 where
  dispatch_queue dispatch_outbox : TaskDispatchBackend

-- Of the rate limit and of the cache.
pub data Backend : Type 0 where
  backend_memory backend_redis : Backend

pub data ObjectBackend : Type 0 where
  objects_memory objects_s3 : ObjectBackend

pub data QuotaBackend : Type 0 where
  quota_memory quota_postgres quota_mongo : QuotaBackend

-- The texts are kept by whether they are there.
pub record Settings : Type 0 where
  pub database_enabled : Bool
  pub redis_enabled : Bool
  pub mongo_enabled : Bool
  pub queue_enabled : Bool
  pub queue_backend : QueueBackend
  pub tasks_enabled : Bool
  pub task_store_backend : TaskStoreBackend
  pub tasks_dispatch_backend : TaskDispatchBackend
  pub outbox_enabled : Bool
  pub webhooks_enabled : Bool
  pub has_webhook_signing_secret : Bool
  pub rate_limit_enabled : Bool
  pub rate_limit_backend : Backend
  pub rate_limit_ip_enabled : Bool
  pub rate_limit_principal_enabled : Bool
  pub cache_enabled : Bool
  pub cache_backend : Backend
  pub objects_enabled : Bool
  pub object_backend : ObjectBackend
  pub has_object_s3_bucket : Bool
  pub idempotency_enabled : Bool
  pub quota_enabled : Bool
  pub quota_backend : QuotaBackend
  pub otel_enabled : Bool
  pub rag_enabled : Bool

abbrev Checked : Type 0
Checked = Result Exception (Unit {0})

-- `_require`, where it applies
abbrev require_if : Bool → Bool → Checked → Checked
require_if applies condition next = if applies && not condition then err value_error else next

abbrev is_queue_redis : QueueBackend → Bool
is_queue_redis queue_redis = true
is_queue_redis _ = false

abbrev is_postgres : TaskStoreBackend → Bool
is_postgres store_postgres = true
is_postgres _ = false

abbrev is_store_redis : TaskStoreBackend → Bool
is_store_redis store_redis = true
is_store_redis _ = false

abbrev is_outbox : TaskDispatchBackend → Bool
is_outbox dispatch_outbox = true
is_outbox _ = false

abbrev is_redis : Backend → Bool
is_redis backend_redis = true
is_redis _ = false

abbrev is_s3 : ObjectBackend → Bool
is_s3 objects_s3 = true
is_s3 _ = false

abbrev is_quota_postgres : QuotaBackend → Bool
is_quota_postgres quota_postgres = true
is_quota_postgres _ = false

abbrev is_mongo : QuotaBackend → Bool
is_mongo quota_mongo = true
is_mongo _ = false

-- `validate_messaging_requirements`; the only backend of the outbox is Postgres.
unfoldable pub validate_messaging_requirements : Settings → Checked
validate_messaging_requirements s =
    require_if (s.queue_enabled && is_queue_redis s.queue_backend) s.redis_enabled (
      require_if s.tasks_enabled s.queue_enabled (
        require_if (s.tasks_enabled && is_postgres s.task_store_backend) s.database_enabled (
          require_if (s.tasks_enabled && is_store_redis s.task_store_backend) s.redis_enabled (
            require_if (s.tasks_enabled && is_outbox s.tasks_dispatch_backend) s.outbox_enabled (
              require_if (s.tasks_enabled && is_outbox s.tasks_dispatch_backend)
                (is_postgres s.task_store_backend)
                (require_if s.outbox_enabled s.database_enabled
                  (require_if s.webhooks_enabled s.has_webhook_signing_secret (ok tt))))))))

-- The loop over the rules of `validate_backend_requirements`
abbrev check_rules : List (Bool × Bool) → Checked
check_rules [] = ok tt
check_rules ((applies, satisfied) ∷ rules) =
    let rest = check_rules rules in if applies && not satisfied then err value_error else rest

-- `validate_backend_requirements`; the only backend of idempotency is Postgres.
unfoldable pub validate_backend_requirements : Settings → Checked
validate_backend_requirements s = check_rules (
    (s.rate_limit_enabled && is_redis s.rate_limit_backend, s.redis_enabled)
    ∷ (s.cache_enabled && is_redis s.cache_backend, s.redis_enabled)
    ∷ (s.idempotency_enabled, s.database_enabled)
    ∷ (s.quota_enabled && is_quota_postgres s.quota_backend, s.database_enabled)
    ∷ (s.quota_enabled && is_mongo s.quota_backend, s.mongo_enabled)
    ∷ (s.objects_enabled && is_s3 s.object_backend, s.has_object_s3_bucket)
    ∷ [])
