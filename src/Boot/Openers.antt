-- ===== src/Boot/Openers.antt =====
-- The openers of app/bootstrap/resources.py and its addons, and what the others need.
use ai_platform_template.Base.{◌≡◌, refl, Bool, true, false, not, arith, if_split}
use ai_platform_template.Base.Result.{ok}
use ai_platform_template.Config.{
  Settings, validate_messaging_requirements, validate_backend_requirements,
}
use ai_platform_template.Boot.{
  build_telemetry, otel_globals, telemetry, push, database, sessionmaker, redis, queue, telemetry,
  principal_rate_limiter, ip_rate_limiter, idempotency, objects, mongo, outbox, webhooks, rag, Part,
  Boot, Reply, ApplicationResources, then_open, opened, set_resources, construct, construct_plain,
  open_database, open_redis, open_queue, open_tasks, open_telemetry, open_rate_limit,
  open_idempotency, open_cache, open_objects, open_mongo, open_quota, open_outbox, open_webhooks,
  open_rag, engine_set, sessionmaker_set, tasks_set, build_sessionmaker, finish_tasks, store_tasks,
  build_queue, build_store, build_dispatcher, build_limiter, principal_limiter, ip_limiter,
  build_cache, build_quota, when,
}
use ai_platform_template.Boot.Safe.{
  Up, Ready, Safe, then_open-Safe, set-Safe, construct-Safe, construct_plain-Safe, opened-Safe,
  when-Safe,
}
use ai_platform_template.Boot.Parts.{
  build_queue-Safe, build_limiter-Safe, build_cache-Safe, build_quota-Safe, build_store-Safe,
  build_dispatcher-Safe, queue_required, required_database,
}

module _ (fails : Part → Bool) (s : Settings) (v : validate_messaging_requirements s ≡ ok tt)
    (w : validate_backend_requirements s ≡ ok tt) where
  pub open_database-Safe :
      (x q m : Bool) (b : Boot)
      → Up false x q m b.resources
      → Safe fails (Up s.database_enabled x q m) (open_database fails s b)
  unfolding open_database
  open_database-Safe x q m b h =
      if_split (λ (r : Reply). Safe fails (Up s.database_enabled x q m) r) (not s.database_enabled)
        (ok tt, b)
        (then_open (construct fails database b)
          (λ c. then_open (set_resources engine_set c) (build_sessionmaker fails)))
        (λ e. ground arith)
        (λ e.
          then_open-Safe fails (Up false x q m) (Up s.database_enabled x q m)
            (construct fails database b)
            (λ c. then_open (set_resources engine_set c) (build_sessionmaker fails))
            (construct-Safe fails (Up false x q m) database b h)
            (λ c k.
              set-Safe fails (Up false x q m) (Up s.database_enabled x q m)
                (construct_plain fails sessionmaker (set_resources engine_set c).1) sessionmaker_set
                (construct_plain-Safe fails (Up false x q m) sessionmaker
                  (set_resources engine_set c).1 k)
                (λ y u. ground arith)))

  pub open_redis-Safe :
      (d q m : Bool) (b : Boot)
      → Up d false q m b.resources
      → Safe fails (Up d s.redis_enabled q m) (open_redis fails s b)
  unfolding open_redis
  open_redis-Safe d q m b h =
      if_split (λ (r : Reply). Safe fails (Up d s.redis_enabled q m) r) (not s.redis_enabled)
        (ok tt, b) _ (λ e. ground arith)
        (λ e.
          set-Safe fails (Up d false q m) (Up d s.redis_enabled q m) (construct fails redis b) _
            (construct-Safe fails (Up d false q m) redis b h) (λ y u. ground arith))

  pub open_queue-Safe :
      (b : Boot)
      → Up s.database_enabled s.redis_enabled false false b.resources
      → Safe fails (Ready s false) (open_queue fails s b)
  unfolding open_queue
  open_queue-Safe b h =
      if_split (λ (r : Reply). Safe fails (Ready s false) r) (not s.queue_enabled) (ok tt, b) _
        (λ e. ground arith)
        (λ e.
          set-Safe fails (Up s.database_enabled s.redis_enabled false false) (Ready s false)
            (build_queue fails s.queue_backend b) _
            (build_queue-Safe fails s v w s.queue_backend b (ground arith) refl h)
            (λ y u. ground arith))

  pub open_tasks-Safe :
      (m : Bool) (b : Boot) → Ready s m b.resources → Safe fails (Ready s m) (open_tasks fails s b)
  unfolding open_tasks
  open_tasks-Safe m b h =
      if_split (λ (r : Reply). Safe fails (Ready s m) r) (not s.tasks_enabled) (ok tt, b)
        (opened b.resources.queue_gateway queue (store_tasks fails s) b) (λ e. h)
        (λ e.
          opened-Safe fails (Ready s m) b.resources.queue_gateway queue (store_tasks fails s) b
            (queue_up e)
            (then_open-Safe fails (Ready s m) (Ready s m) (build_store fails s.task_store_backend b)
              (finish_tasks fails s)
              (build_store-Safe fails s v w m s.task_store_backend b (ground arith) refl h)
              (λ c k.
                set-Safe fails (Ready s m) (Ready s m)
                  (build_dispatcher fails s.tasks_dispatch_backend c) tasks_set
                  (build_dispatcher-Safe fails s v w m s.tasks_dispatch_backend c (ground arith)
                    refl k)
                  (λ y u. u))))
    where
      queue_up : not s.tasks_enabled ≡ false → b.resources.queue_gateway ≡ true
      queue_up e = ground (arith, queue_required fails s v w)

  -- An addon that constructs one part, where the resource that it sets is its own.
  addon-Safe :
      (m : Bool) (enabled : Bool) (build : Boot → Reply)
      (f : ApplicationResources → ApplicationResources) (b : Boot)
      → (enabled ≡ true → Safe fails (Ready s m) (build b))
      → ((x : ApplicationResources) → Ready s m x → Ready s m (f x))
      → Ready s m b.resources
      → Safe fails (Ready s m) (when fails enabled (λ c. then_open (build c) (set_resources f)) b)
  addon-Safe m enabled build f b n k h =
      when-Safe fails (Ready s m) enabled (λ c. then_open (build c) (set_resources f)) b h
        (λ e. set-Safe fails (Ready s m) (Ready s m) (build b) f (n e) k)

  on_database-Safe :
      (m : Bool) (part : Part) (b : Boot)
      → s.database_enabled ≡ true
      → Ready s m b.resources
      → Safe fails
          (Ready s m)
          (opened b.resources.sessionmaker sessionmaker (construct fails part) b)
  on_database-Safe m part b e h =
      opened-Safe fails (Ready s m) b.resources.sessionmaker sessionmaker (construct fails part) b
        (ground arith) (construct-Safe fails (Ready s m) part b h)

  -- An opener that keeps what others need.
  abbrev pub Keeps : Bool → (Settings → Boot → Reply) → Type 0
  Keeps m opener = (b : Boot) → Ready s m b.resources → Safe fails (Ready s m) (opener s b)

  pub open_rate_limit-Keeps : (m : Bool) → Keeps m (open_rate_limit fails)
  unfolding open_rate_limit
  open_rate_limit-Keeps m b h =
      when-Safe fails (Ready s m) s.rate_limit_enabled
        (λ c. then_open (principal_limiter fails s c) (ip_limiter fails s)) b h
        (λ e.
          then_open-Safe fails (Ready s m) (Ready s m) (principal_limiter fails s b)
            (ip_limiter fails s)
            (addon-Safe m s.rate_limit_principal_enabled
              (build_limiter fails s.rate_limit_backend principal_rate_limiter)
              (λ r. record r { principal_rate_limiter = true }) b
              (λ _.
                build_limiter-Safe fails s v w m s.rate_limit_backend principal_rate_limiter b e
                  refl h)
              (λ x u. u) h)
            (λ c k.
              addon-Safe m s.rate_limit_ip_enabled
                (build_limiter fails s.rate_limit_backend ip_rate_limiter)
                (λ r. record r { ip_rate_limiter = true }) c
                (λ _.
                  build_limiter-Safe fails s v w m s.rate_limit_backend ip_rate_limiter c e refl k)
                (λ x u. u) k))

  pub open_telemetry-Keeps : (m : Bool) → Keeps m (open_telemetry fails)
  unfolding open_telemetry
  open_telemetry-Keeps m b h =
      addon-Safe m s.otel_enabled (build_telemetry fails) _ b
        (λ _.
          then_open-Safe fails (Ready s m) (Ready s m) (construct_plain fails telemetry b)
            (λ c. then_open (construct_plain fails otel_globals c) (push telemetry))
            (construct_plain-Safe fails (Ready s m) telemetry b h)
            (λ c k.
              then_open-Safe fails (Ready s m) (Ready s m) (construct_plain fails otel_globals c)
                (push telemetry) (construct_plain-Safe fails (Ready s m) otel_globals c k)
                (λ d u. u)))
        (λ x u. u) h

  pub open_idempotency-Keeps : (m : Bool) → Keeps m (open_idempotency fails)
  unfolding open_idempotency
  open_idempotency-Keeps m b h =
      addon-Safe m s.idempotency_enabled
        (λ c. opened c.resources.sessionmaker sessionmaker (construct fails idempotency) c) _ b
        (λ e. on_database-Safe m idempotency b ((required_database fails s v w).0 e) h) (λ x u. u) h

  pub open_cache-Keeps : (m : Bool) → Keeps m (open_cache fails)
  unfolding open_cache
  open_cache-Keeps m b h =
      addon-Safe m s.cache_enabled (build_cache fails s.cache_backend) _ b
        (λ e. build_cache-Safe fails s v w m s.cache_backend b e refl h) (λ x u. u) h

  pub open_objects-Keeps : (m : Bool) → Keeps m (open_objects fails)
  unfolding open_objects
  open_objects-Keeps m b h =
      addon-Safe m s.objects_enabled (construct fails objects) _ b
        (λ _. construct-Safe fails (Ready s m) objects b h) (λ x u. u) h

  pub open_mongo-Safe :
      (b : Boot)
      → Ready s false b.resources
      → Safe fails (Ready s s.mongo_enabled) (open_mongo fails s b)
  unfolding open_mongo
  open_mongo-Safe b h =
      if_split (λ (r : Reply). Safe fails (Ready s s.mongo_enabled) r) s.mongo_enabled _ (ok tt, b)
        (λ e.
          set-Safe fails (Ready s false) (Ready s s.mongo_enabled) (construct fails mongo b) _
            (construct-Safe fails (Ready s false) mongo b h) (λ y u. ground arith))
        (λ e. ground arith)

  pub open_quota-Keeps : Keeps s.mongo_enabled (open_quota fails)
  unfolding open_quota
  open_quota-Keeps b h =
      addon-Safe s.mongo_enabled s.quota_enabled (build_quota fails s.quota_backend) _ b
        (λ e. build_quota-Safe fails s v w s.quota_backend b e refl h) (λ x u. u) h

  pub open_outbox-Keeps : (m : Bool) → Keeps m (open_outbox fails)
  unfolding open_outbox
  open_outbox-Keeps m b h =
      addon-Safe m s.outbox_enabled
        (λ c. opened c.resources.sessionmaker sessionmaker (construct fails outbox) c) _ b
        (λ e. on_database-Safe m outbox b ((required_database fails s v w).1 e) h) (λ x u. u) h

  pub open_webhooks-Keeps : (m : Bool) → Keeps m (open_webhooks fails)
  unfolding open_webhooks
  open_webhooks-Keeps m b h =
      addon-Safe m s.webhooks_enabled (construct fails webhooks) _ b
        (λ _. construct-Safe fails (Ready s m) webhooks b h) (λ x u. u) h

  pub open_rag-Keeps : (m : Bool) → Keeps m (open_rag fails)
  unfolding open_rag
  open_rag-Keeps m b h =
      addon-Safe m s.rag_enabled (construct_plain fails rag) _ b
        (λ _. construct_plain-Safe fails (Ready s m) rag b h) (λ x u. u) h
