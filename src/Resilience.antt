-- ===== src/Resilience.antt =====
-- app/core/resilience.py: which errors are transient, the retry policy and the circuit breaker.
-- Times are whole ticks of one clock, so the arithmetic is exact where Python's is in floats.
pub mod Errors
pub mod Retry
pub mod Breaker
