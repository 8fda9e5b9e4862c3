-- ===== src/Lib.antt =====
-- Verification of the core of the platform template: the services under app/ that keep state and
-- decide what a caller may do.
--
-- The program's parts. A web process submits tasks and reserves quota; a queue carries task
-- messages to a polling worker, which claims each task under a lease, runs its handler and marks
-- the end; timers reclaim tasks whose lease ran out and purge expired ones. Rate limits, quota,
-- retry policies and circuit breakers guard the calls. Each part is a module here, its state a
-- record (or an association list that stands for a Python dict in insertion order) and each
-- method a function from state to reply and state. Methods of the in-memory adapters hold a lock
-- or never await, so each is one step; sequences of calls stand for interleavings.
--
--   Base, Dict: shared tests, options, results, JSON values and the laws of the association list
--     (lookup, insert, erase, keep are d.get, d[k] = v, d.pop and a comprehension).
--   Resilience: app/core/resilience.py. Errors (error_status_code, retry_after_seconds,
--     is_transient_error), Retry (RetryPolicy.decision and _delay), Breaker (CircuitBreaker;
--     Trace runs any sequence of its calls).
--   Quota: app/modules/platform/quota. Models (models.py), Memory (adapters/memory.py; Charges
--     and Invariant hold the books, Requests runs any sequence of calls, Laws says what each
--     method does).
--   Quota.Postgres: adapters/postgres.py and records.py of the same package; Keys, Matches and
--     Refinement relate its tables to the store in memory.
--   Http: app/core/middleware.py. Asgi is the application as a tree of what it does, with its run
--     against the messages that arrive; Bytes and RequestId hold the helpers; BodyLimit, Timeout
--     (with Until, Once and Deadline), AccessLog, SecurityHeaders, InFlight and ClientIp the
--     middlewares. An arrival may be a silence: ticks for which nothing has come so far.
--   Tasks: app/modules/messaging/tasks. Models (models.py, store.py), Memory (adapters/memory.py;
--     Claims, Reclaim and Expiry hold its properties), Relay (relay.py, _drain), Redis
--     (adapters/redis.py; Atomic and Refinement hold its properties).
--   Queue: app/modules/messaging/queue. Gateway (gateway.py, adapters/memory.py; Places says
--     where messages are), Worker (worker.py; Backpressure and Delivery).
--   RateLimit: app/modules/platform/rate_limit/service.py, InMemoryRateLimiter; Limit and
--     Eviction hold its properties.
--   Idempotency: app/modules/platform/idempotency/service.py over its table; Fence holds its
--     properties.
--   Tasks again: Message (message.py), Service (service.py; Announce) and Handler
--     (app/bootstrap/worker.py, build_worker_message_handler), which join the store and the
--     queue. Queue again: Dispatcher (worker.py, TypedMessageDispatcher). Quota again: Service
--     (service.py; Window).
--   Outbox: app/modules/messaging/outbox, one round of OutboxPublisher and the marks of the
--     store; Report.
--   Llm: app/modules/ai/llm/router.py and runtime.py, the walk along the targets; Probes.
--   Health: app/core/health.py; Readiness.
--   Cache: app/modules/platform/cache/adapters/memory.py; Expiry.
--   Completions: app/modules/business/completions (schemas.py, guards.py, service.py); Guards and
--     Stream hold its properties.
--   Config and Boot: the validators of app/core/config/messaging.py and platform.py, and
--     app/bootstrap/resources.py with app/bootstrap/addons, what a process opens under its
--     settings and what it closes; Closes, Safe, Parts, Openers and Valid hold its properties.
--   Auth: app/modules/platform/identity/auth.py; Access holds its property. Webhooks: signing.py
--     and dispatcher.py of app/modules/messaging/webhooks.
--   Tests: every property at a concrete input, and short runs.
--
-- Numbers, bounds and fuel. Times are natural numbers of ticks of one clock, passed as arguments
-- where the code reads its clock; the arithmetic of Python's floats is an argument of the rate
-- limiter. The INTEGER and VARCHAR columns of the quota tables hold what they can and refuse the
-- rest. Limits, costs and thresholds are positive in the code (its constructors check), so they
-- are natural numbers. Two loops run on fuel: Tasks.Relay.drain, where one unit more than the
-- number of expired tasks is enough, as its theorem shows, and the decimal digits of a number in
-- Http.Bytes, which are at most one more than the number.
--
-- Arguments stand for what the code takes from outside: uuid4 ids, whose freshness is a
-- hypothesis where it matters; the random jitter, which gives at most what it is given; a message
-- handler, as its outcome on a message; SHA-256 and HMAC; the text that json.dumps makes of an
-- error reply; Starlette's setdefault on headers, which adds what is missing; guards and
-- completion handlers, as functions of what they get; what the TTL of a Redis key reads; the
-- constructions of clients and stores at the start of a process, any of which may raise.
--
-- Not modelled: the Mongo, SQS and S3 adapters and the Redis adapters but the task store, whose
-- work is done by servers; the HTTP API and the wiring of its application; the parsing of
-- settings, logging and telemetry; evaluations and retrieval, which call model services; signal
-- handling and the sleeps of the event loop.
pub mod Base
pub mod Dict
pub mod Resilience
pub mod Quota
pub mod Tasks
pub mod Queue
pub mod RateLimit
pub mod Idempotency
pub mod Llm
pub mod Cache
pub mod Outbox
pub mod Completions
pub mod Auth
pub mod Webhooks
pub mod Config
pub mod Boot
pub mod Health
pub mod Http
pub mod Tests
