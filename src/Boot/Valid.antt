-- ===== src/Boot/Valid.antt =====
-- The order of the openers of app/bootstrap/resources.py under settings that pass the validators.
use ai_platform_template.Base.{◌≡◌, refl, Bool, true, false, List, [], ◌∷◌, ◌++◌, All}
use ai_platform_template.Base.Result.{ok}
use ai_platform_template.Config.{
  Settings, validate_messaging_requirements, validate_backend_requirements,
}
use ai_platform_template.Boot.{
  Part, Boot, Reply, ApplicationResources, start, open_database, open_redis, open_queue, open_tasks,
  open_telemetry, open_rate_limit, open_idempotency, open_cache, open_objects, open_mongo,
  open_quota, open_outbox, open_webhooks, open_rag, open_all, default_resource_addons,
  open_application_resources,
}
use ai_platform_template.Boot.Safe.{Up, Ready, Safe, then_open-Safe}
use ai_platform_template.Boot.Openers.{
  Keeps, open_cache-Keeps, open_database-Safe, open_idempotency-Keeps, open_mongo-Safe,
  open_objects-Keeps, open_outbox-Keeps, open_queue-Safe, open_quota-Keeps, open_rag-Keeps,
  open_rate_limit-Keeps, open_redis-Safe, open_tasks-Safe, open_telemetry-Keeps,
  open_webhooks-Keeps,
}

module _ (fails : Part → Bool) (s : Settings) (v : validate_messaging_requirements s ≡ ok tt)
    (w : validate_backend_requirements s ≡ ok tt) where
  -- One opener and then others.
  first-Safe :
      (P Q : ApplicationResources → Type 0) (opener : Settings → Boot → Reply)
      (os : List (Settings → Boot → Reply)) (b : Boot)
      → Safe fails P (opener s b)
      → ((c : Boot) → P c.resources → Safe fails Q (open_all fails os s c))
      → Safe fails Q (open_all fails (opener ∷ os) s b)
  unfolding open_all
  first-Safe P Q opener os b h n = then_open-Safe fails P Q (opener s b) (open_all fails os s) h n

  -- Openers that keep what others need, and then others.
  openers-Safe :
      (m : Bool) (os rest : List (Settings → Boot → Reply)) (b : Boot)
      → All (Keeps fails s v w m) os
      → Ready s m b.resources
      → ((c : Boot)
          → Ready s m c.resources
          → Safe fails (Ready s s.mongo_enabled) (open_all fails rest s c))
      → Safe fails (Ready s s.mongo_enabled) (open_all fails (os ++ rest) s b)
  openers-Safe m [] rest b k h n = n b h
  openers-Safe m (opener ∷ os) rest b k h n =
      first-Safe (Ready s m) (Ready s s.mongo_enabled) opener (os ++ rest) b (k.0 b h)
        (λ c i. openers-Safe m os rest c k.1 i n)

  abbrev late_openers : List (Settings → Boot → Reply)
  late_openers =
      open_quota fails
      ∷ open_outbox fails
      ∷ open_webhooks fails
      ∷ open_rag fails
      ∷ open_tasks fails
      ∷ []

  abbrev early_addons : List (Settings → Boot → Reply)
  early_addons =
      open_telemetry fails
      ∷ open_rate_limit fails
      ∷ open_idempotency fails
      ∷ open_cache fails
      ∷ open_objects fails
      ∷ []

  after_mongo :
      (b : Boot)
      → Ready s s.mongo_enabled b.resources
      → Safe fails (Ready s s.mongo_enabled) (open_all fails (late_openers ++ []) s b)
  after_mongo b h =
      openers-Safe s.mongo_enabled late_openers [] b
        (
          open_quota-Keeps fails s v w,
          (
            open_outbox-Keeps fails s v w s.mongo_enabled,
            (
              open_webhooks-Keeps fails s v w s.mongo_enabled,
              (
                open_rag-Keeps fails s v w s.mongo_enabled,
                (open_tasks-Safe fails s v w s.mongo_enabled, tt),
              ),
            ),
          ),
        )
        h (λ c i. unfold open_all in i)

  addons-Safe :
      (b : Boot)
      → Ready s false b.resources
      → Safe fails
          (Ready s s.mongo_enabled)
          (open_all fails (default_resource_addons fails ++ (open_tasks fails ∷ [])) s b)
  addons-Safe b h =
      openers-Safe false early_addons (open_mongo fails ∷ late_openers) b
        (
          open_telemetry-Keeps fails s v w false,
          (
            open_rate_limit-Keeps fails s v w false,
            (
              open_idempotency-Keeps fails s v w false,
              (open_cache-Keeps fails s v w false, (open_objects-Keeps fails s v w false, tt)),
            ),
          ),
        )
        h
        (λ c i.
          first-Safe (Ready s s.mongo_enabled) (Ready s s.mongo_enabled) (open_mongo fails)
            late_openers c (open_mongo-Safe fails s v w c i) after_mongo)

-- Where the settings pass the validators, the opening of all resources ends with the database, Redis, the
-- queue and Mongo open exactly as they are enabled, or with the exception of a construction that raises;
-- it never finds a resource that it needs not open.
pub valid_settings_boot :
    (fails : Part → Bool) (s : Settings)
    → validate_messaging_requirements s ≡ ok tt
    → validate_backend_requirements s ≡ ok tt
    → Safe fails
        (Up s.database_enabled s.redis_enabled s.queue_enabled s.mongo_enabled)
        (open_application_resources fails true s)
unfolding open_application_resources
valid_settings_boot fails s v w =
    first-Safe fails s v w (Up s.database_enabled false false false)
      (Up s.database_enabled s.redis_enabled s.queue_enabled s.mongo_enabled) (open_database fails)
      (open_redis fails
        ∷ open_queue fails
        ∷ (default_resource_addons fails ++ (open_tasks fails ∷ [])))
      start (open_database-Safe fails s v w false false false start (refl, refl, refl, refl))
      (λ b h.
        first-Safe fails s v w (Up s.database_enabled s.redis_enabled false false)
          (Up s.database_enabled s.redis_enabled s.queue_enabled s.mongo_enabled) (open_redis fails)
          (open_queue fails ∷ (default_resource_addons fails ++ (open_tasks fails ∷ []))) b
          (open_redis-Safe fails s v w s.database_enabled false false b h)
          (λ c i.
            first-Safe fails s v w (Up s.database_enabled s.redis_enabled s.queue_enabled false)
              (Up s.database_enabled s.redis_enabled s.queue_enabled s.mongo_enabled)
              (open_queue fails) (default_resource_addons fails ++ (open_tasks fails ∷ [])) c
              (open_queue-Safe fails s v w c i) (addons-Safe fails s v w)))
