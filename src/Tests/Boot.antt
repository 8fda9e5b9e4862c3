-- ===== src/Tests/Boot.antt =====
-- Runs of app/bootstrap/resources.py: tasks in Postgres over a queue in Redis, with a cache.
use ai_platform_template.Base.{refl, Bool, true, false}
use ai_platform_template.Config.{
  Settings, queue_redis, store_postgres, dispatch_outbox, backend_redis, objects_memory,
  quota_mongo, validate_messaging_requirements, validate_backend_requirements,
}
use ai_platform_template.Boot.{Part, cache, open_application_resources}
use ai_platform_template.Boot.Safe.{Safe, Up}
use ai_platform_template.Boot.Valid.{valid_settings_boot}

abbrev settings : Settings
settings = record {
  database_enabled = true;
  redis_enabled = true;
  mongo_enabled = true;
  queue_enabled = true;
  queue_backend = queue_redis;
  tasks_enabled = true;
  task_store_backend = store_postgres;
  tasks_dispatch_backend = dispatch_outbox;
  outbox_enabled = true;
  webhooks_enabled = false;
  has_webhook_signing_secret = false;
  rate_limit_enabled = true;
  rate_limit_backend = backend_redis;
  rate_limit_ip_enabled = true;
  rate_limit_principal_enabled = false;
  cache_enabled = true;
  cache_backend = backend_redis;
  objects_enabled = false;
  object_backend = objects_memory;
  has_object_s3_bucket = false;
  idempotency_enabled = true;
  quota_enabled = true;
  quota_backend = quota_mongo;
  otel_enabled = false;
  rag_enabled = true;
}

-- The cache cannot be built.
abbrev no_cache : Part → Bool
no_cache part = elim part [ cache ↦ true | _ ↦ false ]

valid_settings_boot_example :
    Safe no_cache (Up true true true true) (open_application_resources no_cache true settings)
unfolding validate_messaging_requirements validate_backend_requirements
valid_settings_boot_example = valid_settings_boot no_cache settings refl refl
