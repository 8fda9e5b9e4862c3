-- ===== src/Resilience/Breaker.antt =====
-- app/core/resilience.py: CircuitBreaker. The clock's reading is an argument of the methods that
-- read it.
pub mod Laws
pub mod Trace
use ai_platform_template.Base.{
  ℕ, ◌+◌, Bool, true, false, not, Option, none, some, List, [], ◌∷◌, leb, ltb, if◌then◌else◌,
}
use ai_platform_template.Resilience.Errors.{Error, is_transient_error}

pub data BreakerState : Type 0 where
  closed open_state half_open : BreakerState

pub record CircuitBreaker : Type 0 where
  pub failure_threshold : ℕ
  pub cooldown_seconds : ℕ
  pub failure_count : ℕ
  pub state : BreakerState
  pub open_until : ℕ
  pub probe_lease_until : Option ℕ

-- `CircuitBreakerPolicy.build` and `__init__`, for a policy that is valid
unfoldable pub build : ℕ → ℕ → CircuitBreaker
build failure_threshold cooldown_seconds = record {
  failure_threshold = failure_threshold;
  cooldown_seconds = cooldown_seconds;
  failure_count = 0;
  state = closed;
  open_until = 0;
  probe_lease_until = none;
}

-- `now < self._probe_lease_until`, where there is a lease
abbrev lease_holds : ℕ → Option ℕ → Bool
lease_holds now none = false
lease_holds now (some until) = ltb now until

-- The half-open end of `try_acquire`.
abbrev acquire_probe : ℕ → CircuitBreaker → Bool × CircuitBreaker
acquire_probe now b =
    if lease_holds now b.probe_lease_until
    then (false, b)
    else (true, record b { probe_lease_until = some (now + b.cooldown_seconds) })

unfoldable pub try_acquire : ℕ → CircuitBreaker → Bool × CircuitBreaker
try_acquire now b = elim b.state [
  | closed ↦ (true, b)
  | open_state ↦
      if ltb now b.open_until
      then (false, b)
      else acquire_probe now (record b { state = half_open; probe_lease_until = none })
  | half_open ↦ acquire_probe now b
]

unfoldable pub release_probe : CircuitBreaker → CircuitBreaker
release_probe b = record b { probe_lease_until = none }

unfoldable pub record_success : CircuitBreaker → CircuitBreaker
record_success b = record b { failure_count = 0; state = closed; probe_lease_until = none }

-- `_open`
unfoldable pub trip : ℕ → CircuitBreaker → CircuitBreaker
trip now b = record b {
  state = open_state;
  open_until = now + b.cooldown_seconds;
  probe_lease_until = none;
}

abbrev count_failure : ℕ → CircuitBreaker → CircuitBreaker
count_failure now b =
    let counted = record b { failure_count = b.failure_count + 1 } in
    if leb b.failure_threshold (b.failure_count + 1) then trip now counted else counted

unfoldable pub record_failure : ℕ → Error → CircuitBreaker → CircuitBreaker
unfolding trip
record_failure now error b =
    if not (is_transient_error error)
    then record b { probe_lease_until = none }
    else elim b.state [ half_open ↦ trip now b | open_state ↦ b | closed ↦ count_failure now b ]

unfoldable pub reset : CircuitBreaker → CircuitBreaker
unfolding record_success
reset b = record_success b
