-- ===== src/Llm.antt =====
-- app/modules/ai/llm/router.py and runtime.py: the chain of targets of a role, a breaker for each, and
-- the walk along the chain. A role is its text, as in the source; the settings hold the fallback list
-- once it is split at its commas. Models and their calls are arguments.
pub mod Probes
use ai_platform_template.Base.{
  ℕ, ◌+◌, ◌&&◌, String, Bool, true, false, not, Option, none, some, List, [], ◌∷◌, leb, nat_beq,
  length, or_else, if◌then◌else◌,
}
use ai_platform_template.Base.Eq.{◌==◌, string_eq, pair_eq}
use ai_platform_template.Base.Json.{Json}
use ai_platform_template.Base.Result.{Exception, value_error, Result, ok, err}
use ai_platform_template.Dict.{Dict, lookup, insert}
use ai_platform_template.Resilience.Errors.{Error, is_transient_error}
use ai_platform_template.Resilience.Breaker.{CircuitBreaker, build}
use ai_platform_template.Resilience.Breaker.{
  try_acquire as breaker_acquire, release_probe as breaker_release,
  record_success as breaker_success, record_failure as breaker_failure,
}

pub record Settings : Type 0 where
  pub chat_model : String
  pub chat_fallback_models : List String
  pub judge_chat_model : String
  pub is_local : Bool
  pub breaker_failure_threshold : ℕ
  pub breaker_cooldown_seconds : ℕ
  pub chain_deadline_seconds : ℕ

-- (role, target)
abbrev pub BreakerKey : Type 0
BreakerKey = String × String

pub record ModelRouter : Type 0 where
  pub settings : Settings
  pub breakers : Dict BreakerKey CircuitBreaker

-- `primary_target`; outside a local environment the judge never falls back to the production model.
unfoldable pub primary_target : Settings → String → Result Exception String
primary_target s role =
    if role == "judge"
    then (if not (s.judge_chat_model == "")
        then ok s.judge_chat_model
        else if not (s.chat_model == "") && not s.is_local
        then err value_error
        else ok s.chat_model)
    else ok s.chat_model

-- The keys of `dict.fromkeys(targets)`.
unfoldable pub from_keys : List String → List (String × Unit {0}) → List (String × Unit {0})
unfolding insert
from_keys [] d = d
from_keys (x ∷ xs) d = from_keys xs (insert x tt d)

abbrev keys_of : List (String × Unit {0}) → List String
keys_of [] = []
keys_of ((k, _) ∷ d) = k ∷ keys_of d

-- `chain`
unfoldable pub chain : Settings → String → Result Exception (List String)
unfolding primary_target from_keys
chain s role = elim (primary_target s role) [
  | err e ↦ err e
  | ok primary ↦ ok (
      keys_of (from_keys (primary ∷ (if role == "default" then s.chat_fallback_models else [])) []))
]

-- `_breaker`: the breaker of the key, made at its first use.
abbrev pub breaker : BreakerKey → ModelRouter → CircuitBreaker
breaker k r =
    or_else (lookup k r.breakers)
      (build r.settings.breaker_failure_threshold r.settings.breaker_cooldown_seconds)

abbrev pub with_breaker : BreakerKey → CircuitBreaker → ModelRouter → ModelRouter
with_breaker k b r = record r { breakers = insert k b r.breakers }

-- `try_acquire`, for a chain of `size` targets.
unfoldable pub try_acquire : ℕ → ℕ → BreakerKey → ModelRouter → Bool × ModelRouter
try_acquire now size k r =
    let (admitted, b) = breaker_acquire now (breaker k r) in
    if nat_beq size 1 then (true, r) else (admitted, with_breaker k b r)

unfoldable pub release : BreakerKey → ModelRouter → ModelRouter
release k r = with_breaker k (breaker_release (breaker k r)) r

unfoldable pub record_success : BreakerKey → ModelRouter → ModelRouter
record_success k r = with_breaker k (breaker_success (breaker k r)) r

unfoldable pub record_error : ℕ → Error → BreakerKey → ModelRouter → ModelRouter
record_error now error k r = with_breaker k (breaker_failure now error (breaker k r)) r

-- `select_target`; `none` is the ServiceUnavailableError.
unfoldable pub select_target :
    ℕ → ℕ → String → List String → ModelRouter → Option String × ModelRouter
unfolding try_acquire
select_target now size role [] r = (none, r)
select_target now size role (target ∷ targets) r =
    let (admitted, r') = try_acquire now size (role, target) r in
    let rest = select_target now size role targets r' in
    if admitted then (some target, r') else rest

-- What one call of a model comes to: an answer, an Exception, the end of the budget, or a CancelledError,
-- which `except Exception` does not catch.
pub data Call : Type 0 where
  answered : Json → Call
  raised : Error → Call
  cut cancelled : Call

-- What `ainvoke` comes to.
pub data Invocation : Type 0 where
  message : Json → Invocation
  failure : Error → Invocation
  deadline_exceeded unavailable interrupted : Invocation

abbrev gives_up : Option Error → Invocation
gives_up none = unavailable
gives_up (some e) = failure e

-- What the loop of `ainvoke` makes of one call that ended; `next` is the rest of the loop.
abbrev pub concluded :
    ℕ
    → BreakerKey
    → ModelRouter
    → (Error → ModelRouter → Invocation × ModelRouter)
    → Call
    → Invocation × ModelRouter
concluded ended k r next (answered m) = (message m, record_success k r)
concluded ended k r next cancelled = (interrupted, r)
concluded ended k r next cut = (deadline_exceeded, release k r)
concluded ended k r next (raised e) =
    let r' = record_error ended e k r in
    if not (is_transient_error e) then (failure e, r') else next e r'

-- `call target now` is when the call of the target ends, and what it comes to.
module _ (call : String → ℕ → ℕ × Call) (size : ℕ) (role : String) (deadline : ℕ) where
  -- The loop of `ainvoke`, from the time and the last error so far.
  unfoldable pub walk : List String → ℕ → Option Error → ModelRouter → Invocation × ModelRouter
  unfolding try_acquire release record_success record_error
  walk [] now last r = (gives_up last, r)
  walk (target ∷ targets) now last r =
      let (admitted, r') = try_acquire now size (role, target) r in
      let skipped = walk targets now last r' in
      let (ended, outcome) = call target now in
      if leb deadline now
      then (deadline_exceeded, r)
      else if not admitted
      then skipped
      else concluded ended (role, target) r' (λ e r''. walk targets ended (some e) r'') outcome

abbrev pub ainvoke_on :
    (String → ℕ → ℕ × Call)
    → String
    → ℕ
    → ModelRouter
    → Result Exception (List String)
    → Result Exception Invocation × ModelRouter
ainvoke_on call role now r (err e) = (err e, r)
ainvoke_on call role now r (ok targets) =
    let (result, r') =
      walk call (length targets) role (now + r.settings.chain_deadline_seconds) targets now none
        r in
    (ok result, r')

-- `ainvoke`, started at `now`.
unfoldable pub ainvoke :
    (String → ℕ → ℕ × Call) → String → ℕ → ModelRouter → Result Exception Invocation × ModelRouter
unfolding chain walk
ainvoke call role now r = ainvoke_on call role now r (chain r.settings role)
