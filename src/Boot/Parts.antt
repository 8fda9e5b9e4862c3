-- ===== src/Boot/Parts.antt =====
-- The backends of app/bootstrap under settings that pass the validators.
use ai_platform_template.Base.{◌≡◌, Bool, true, false, arith}
use ai_platform_template.Base.Result.{ok}
use ai_platform_template.Config.{
  Settings, queue_memory, queue_redis, queue_sqs, queue_rabbitmq, QueueBackend, TaskStoreBackend,
  TaskDispatchBackend, Backend, QuotaBackend, store_memory, store_postgres, store_redis,
  dispatch_queue, dispatch_outbox, backend_memory, backend_redis, quota_memory, quota_postgres,
  quota_mongo, validate_messaging_requirements, validate_backend_requirements,
}
use ai_platform_template.Boot.{
  sessionmaker, redis, queue, cache, mongo, quota, task_store, Part, Boot, construct,
  construct_plain, build_queue, build_store, build_dispatcher, build_limiter, build_cache,
  build_quota,
}
use ai_platform_template.Boot.Safe.{
  Up, Ready, Safe, construct-Safe, construct_plain-Safe, opened-Safe,
}

module _ (fails : Part → Bool) (s : Settings) (v : validate_messaging_requirements s ≡ ok tt)
    (w : validate_backend_requirements s ≡ ok tt) where
  pub build_queue-Safe :
      (q : QueueBackend) (b : Boot)
      → s.queue_enabled ≡ true
      → s.queue_backend ≡ q
      → Up s.database_enabled s.redis_enabled false false b.resources
      → Safe fails (Up s.database_enabled s.redis_enabled false false) (build_queue fails q b)
  unfolding validate_messaging_requirements
  build_queue-Safe queue_redis b e k h =
      opened-Safe fails (Up s.database_enabled s.redis_enabled false false) b.resources.redis redis
        (construct fails queue) b (ground (arith, v))
        (construct-Safe fails (Up s.database_enabled s.redis_enabled false false) queue b h)
  build_queue-Safe queue_memory b e k h =
      construct-Safe fails (Up s.database_enabled s.redis_enabled false false) queue b h
  build_queue-Safe queue_sqs b e k h =
      construct-Safe fails (Up s.database_enabled s.redis_enabled false false) queue b h
  build_queue-Safe queue_rabbitmq b e k h =
      construct-Safe fails (Up s.database_enabled s.redis_enabled false false) queue b h

  pub build_limiter-Safe :
      (m : Bool) (q : Backend) (part : Part) (b : Boot)
      → s.rate_limit_enabled ≡ true
      → s.rate_limit_backend ≡ q
      → Ready s m b.resources
      → Safe fails (Ready s m) (build_limiter fails q part b)
  unfolding validate_backend_requirements
  build_limiter-Safe m backend_memory part b e k h = construct_plain-Safe fails (Ready s m) part b h
  build_limiter-Safe m backend_redis part b e k h =
      opened-Safe fails (Ready s m) b.resources.redis redis (construct_plain fails part) b
        (ground (arith, w)) (construct_plain-Safe fails (Ready s m) part b h)

  pub build_cache-Safe :
      (m : Bool) (q : Backend) (b : Boot)
      → s.cache_enabled ≡ true
      → s.cache_backend ≡ q
      → Ready s m b.resources
      → Safe fails (Ready s m) (build_cache fails q b)
  unfolding validate_backend_requirements
  build_cache-Safe m backend_memory b e k h = construct-Safe fails (Ready s m) cache b h
  build_cache-Safe m backend_redis b e k h =
      opened-Safe fails (Ready s m) b.resources.redis redis (construct fails cache) b
        (ground (arith, w)) (construct-Safe fails (Ready s m) cache b h)

  pub build_quota-Safe :
      (q : QuotaBackend) (b : Boot)
      → s.quota_enabled ≡ true
      → s.quota_backend ≡ q
      → Ready s s.mongo_enabled b.resources
      → Safe fails (Ready s s.mongo_enabled) (build_quota fails q b)
  unfolding validate_backend_requirements
  build_quota-Safe quota_memory b e k h = construct-Safe fails (Ready s s.mongo_enabled) quota b h
  build_quota-Safe quota_postgres b e k h =
      opened-Safe fails (Ready s s.mongo_enabled) b.resources.sessionmaker sessionmaker
        (construct fails quota) b (ground (arith, w))
        (construct-Safe fails (Ready s s.mongo_enabled) quota b h)
  build_quota-Safe quota_mongo b e k h =
      opened-Safe fails (Ready s s.mongo_enabled) b.resources.mongo mongo (construct fails quota) b
        (ground (arith, w)) (construct-Safe fails (Ready s s.mongo_enabled) quota b h)

  pub build_store-Safe :
      (m : Bool) (q : TaskStoreBackend) (b : Boot)
      → s.tasks_enabled ≡ true
      → s.task_store_backend ≡ q
      → Ready s m b.resources
      → Safe fails (Ready s m) (build_store fails q b)
  unfolding validate_messaging_requirements
  build_store-Safe m store_memory b e k h = construct-Safe fails (Ready s m) task_store b h
  build_store-Safe m store_postgres b e k h =
      opened-Safe fails (Ready s m) b.resources.sessionmaker sessionmaker
        (construct fails task_store) b (ground (arith, v))
        (construct-Safe fails (Ready s m) task_store b h)
  build_store-Safe m store_redis b e k h =
      opened-Safe fails (Ready s m) b.resources.redis redis (construct fails task_store) b
        (ground (arith, v)) (construct-Safe fails (Ready s m) task_store b h)

  pub build_dispatcher-Safe :
      (m : Bool) (q : TaskDispatchBackend) (b : Boot)
      → s.tasks_enabled ≡ true
      → s.tasks_dispatch_backend ≡ q
      → Ready s m b.resources
      → Safe fails (Ready s m) (build_dispatcher fails q b)
  unfolding validate_messaging_requirements
  build_dispatcher-Safe m dispatch_queue b e k h = h
  build_dispatcher-Safe m dispatch_outbox b e k h =
      opened-Safe fails (Ready s m) b.resources.sessionmaker sessionmaker (λ c. (ok tt, c)) b
        (ground (arith, v)) h

  pub queue_required : s.tasks_enabled ≡ true → s.queue_enabled ≡ true
  unfolding validate_messaging_requirements
  queue_required e = ground (arith, v)

  pub required_database :
      (s.idempotency_enabled ≡ true → s.database_enabled ≡ true)
      × (s.outbox_enabled ≡ true → s.database_enabled ≡ true)
  unfolding validate_messaging_requirements validate_backend_requirements
  required_database = (λ e. ground (arith, w), λ e. ground (arith, v))
