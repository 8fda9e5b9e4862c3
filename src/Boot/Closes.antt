-- ===== src/Boot/Closes.antt =====
-- The exit stack of app/bootstrap/resources.py.
use ai_platform_template.Base.{◌≡◌, Bool, true, false, List, [], ◌∷◌, if◌then◌else◌}
use mathlib.Core.List.{reverse}
use ai_platform_template.Boot.{
  database, sessionmaker, redis, queue, telemetry, principal_rate_limiter, ip_rate_limiter,
  idempotency, cache, objects, mongo, quota, outbox, webhooks, rag, task_store, Part, Boot, Reply,
  otel_globals,
}

-- The parts that hold something to close: connections, clients or pending batches.
abbrev pub has_close : Part → Bool
has_close database = true
has_close sessionmaker = false
has_close redis = true
has_close queue = true
has_close telemetry = true
has_close otel_globals = false
has_close principal_rate_limiter = false
has_close ip_rate_limiter = false
has_close idempotency = true
has_close cache = true
has_close objects = true
has_close mongo = true
has_close quota = true
has_close outbox = true
has_close webhooks = true
has_close rag = false
has_close task_store = true

abbrev pub to_close : List Part → List Part
to_close [] = []
to_close (part ∷ parts) = if has_close part then part ∷ to_close parts else to_close parts

-- The exit stack closes what has to be closed, the last first.
abbrev pub IsTracked : Boot → Type 0
IsTracked b = b.stack ≡ reverse (to_close b.built)

-- An opener that leaves the stack in order, whether it raises or not.
abbrev Tracks : (Boot → Reply) → Type 0
Tracks opener = (b : Boot) → IsTracked b → IsTracked (opener b).1
