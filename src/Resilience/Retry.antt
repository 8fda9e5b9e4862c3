-- ===== src/Resilience/Retry.antt =====
-- app/core/resilience.py: RetryPolicy. `jitter` is the effect of `rng() * ceiling` on a ceiling;
-- the retry predicate is a function as in the source.
pub mod Bounds
use ai_platform_template.Base.{
  ℕ, ◌-◌, ◌*◌, ◌^◌, ◌≡◌, min, max, Bool, true, false, not, ◌&&◌, Option, none, some, List, leb, ltb,
  if◌then◌else◌,
}
use ai_platform_template.Base.Eq.{nat_eq}
use ai_platform_template.Base.Result.{Exception, value_error, Result, ok, err}
use ai_platform_template.Resilience.Errors.{Error, contains, retry_after_seconds}

pub record RetryDecision : Type 0 where
  pub should_retry : Bool
  pub next_delay_seconds : Option ℕ

pub record RetryPolicy : Type 0 where
  pub max_attempts : ℕ
  pub retry_status_codes : List ℕ
  pub retry_exceptions : Bool
  pub retry_on : Error → Bool
  pub base_delay_seconds : ℕ
  pub max_delay_seconds : ℕ

-- `__post_init__`; a negative base delay cannot be written here.
unfoldable pub check_policy : RetryPolicy → Result Exception RetryPolicy
check_policy p =
    if leb p.max_attempts 0
    then err value_error
    else if ltb p.max_delay_seconds p.base_delay_seconds
    then err value_error
    else ok p

module _ (jitter : ℕ → ℕ) where
  unfoldable pub delay : RetryPolicy → ℕ → Option ℕ → ℕ
  delay p attempt retry_after =
      let ceiling = min p.max_delay_seconds (p.base_delay_seconds * 2 ^ (attempt - 1)) in
      elim retry_after [
        | none ↦ jitter ceiling
        | some hint ↦ max (jitter ceiling) (min hint p.max_delay_seconds)
      ]

  -- `attempt` counts from 1. The two optional arguments that a caller may give beside the attempt
  -- are the HTTP status and the exception.
  unfoldable pub decision : RetryPolicy → ℕ → Option ℕ → Option Error → Option ℕ → RetryDecision
  unfolding delay contains
  decision p attempt status_code error retry_after =
      if leb p.max_attempts attempt
      then record { should_retry = false; next_delay_seconds = none }
      else elim error [
        | some e ↦
            if not (p.retry_exceptions && p.retry_on e)
            then record { should_retry = false; next_delay_seconds = none }
            else record {
              should_retry = true;
              next_delay_seconds = some (
                  delay p attempt
                    (elim retry_after [ some hint ↦ some hint | none ↦ retry_after_seconds e ]));
            }
        | none ↦ elim status_code [
          | none ↦ record { should_retry = false; next_delay_seconds = none }
          | some status ↦
              if not (contains status p.retry_status_codes)
              then record { should_retry = false; next_delay_seconds = none }
              else record {
                should_retry = true;
                next_delay_seconds = some (delay p attempt retry_after);
              }
        ]
      ]
