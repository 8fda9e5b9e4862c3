-- ===== src/Resilience/Breaker/Trace.antt =====
-- Sequences of calls of one breaker, each at its time.
use ai_platform_template.Base.{ℕ, List, [], ◌∷◌}
use ai_platform_template.Resilience.Errors.{Error}
use ai_platform_template.Resilience.Breaker.{
  CircuitBreaker, try_acquire, release_probe, record_success, record_failure,
}

pub data Event : Type 0 where
  acquire release success : ℕ → Event
  failure : ℕ → Error → Event

abbrev pub time : Event → ℕ
time (acquire t) = t
time (release t) = t
time (success t) = t
time (failure t _) = t

unfoldable pub step : Event → CircuitBreaker → CircuitBreaker
unfolding try_acquire release_probe record_success record_failure
step (acquire now) b = (try_acquire now b).1
step (release _) b = release_probe b
step (success _) b = record_success b
step (failure now e) b = record_failure now e b

unfoldable pub run : List Event → CircuitBreaker → CircuitBreaker
run [] b = b
run (e ∷ es) b = run es (step e b)
