-- ===== src/Tests/Resilience.antt =====
-- Runs of app/core/resilience.py: a timeout, a breaker and a retry policy.
use ai_platform_template.Base.{◌≤◌, ◌<◌, ◌≡◌, refl, true, false, none, some, [], ◌∷◌, arith}
use ai_platform_template.Resilience.Errors.{Error, is_transient_error, contains, error_status_code}
use ai_platform_template.Resilience.Retry.{RetryPolicy, decision, delay}
use ai_platform_template.Resilience.Retry.Bounds.{decision_delay_bounds}
use ai_platform_template.Resilience.Breaker.{
  open_state, CircuitBreaker, build, try_acquire, record_failure, trip,
}
use ai_platform_template.Resilience.Breaker.Trace.{acquire, failure, run, step}
use ai_platform_template.Resilience.Breaker.Laws.{never_wedges}

abbrev timeout : Error
timeout = record {
  status_code = none;
  response = none;
  retry_after = none;
  is_timeout_or_connection = true;
  mro = "TimeoutError" ∷ "OSError" ∷ [];
}

abbrev bad_request : Error
bad_request = record timeout { status_code = some 400 }

abbrev policy : RetryPolicy
policy = record {
  max_attempts = 3;
  retry_status_codes = 429 ∷ 503 ∷ [];
  retry_exceptions = true;
  retry_on = λ _. true;
  base_delay_seconds = 2;
  max_delay_seconds = 10;
}

abbrev tripped : CircuitBreaker
tripped = record (build 2 30) { failure_count = 2; state = open_state; open_until = 130 }

timeout_counts : is_transient_error timeout ≡ true
unfolding is_transient_error error_status_code
timeout_counts = refl

bad_request_passes : is_transient_error bad_request ≡ false
unfolding is_transient_error error_status_code contains
bad_request_passes = refl

two_failures_open :
    (run (failure 100 timeout ∷ failure 100 timeout ∷ []) (build 2 30)).open_until ≡ 130
unfolding run step build record_failure trip is_transient_error error_status_code
two_failures_open = refl

retries_with_hint :
    (decision (λ x. x) policy 1 (some 503) none (some 7)).next_delay_seconds ≡ some 7
unfolding decision delay contains
retries_with_hint = refl

never_wedges_example :
    (try_acquire 200
      (run (failure 100 timeout ∷ failure 110 timeout ∷ acquire 120 ∷ []) (build 1 30))).0
    ≡ true
never_wedges_example =
    never_wedges 1 30 120 200 (failure 100 timeout ∷ failure 110 timeout ∷ acquire 120 ∷ [])
      (omega arith) (omega arith, (omega arith, (omega arith, tt))) (omega arith)

decision_delay_bounds_example : (1 < 3) × (7 ≤ 7) × (7 ≤ 10)
unfolding decision delay contains
decision_delay_bounds_example =
    decision_delay_bounds (λ x. x) policy 1 (some 503) none (some 7) {d = 7} (λ x. omega arith) refl
