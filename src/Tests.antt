-- ===== src/Tests.antt =====
-- Each property at a concrete input, and short runs of the modelled code.
mod Resilience
mod Quota
mod Http
mod Boot
mod Completions
mod Tasks
mod Auth
mod Redis
mod Queue
mod RateLimit
mod Idempotency
mod Services
