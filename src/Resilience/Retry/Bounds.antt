-- ===== src/Resilience/Retry/Bounds.antt =====
-- The retry delay lies between its lower bound and the cap, and when a retry is allowed.
use ai_platform_template.Base.{ℕ, ◌-◌, ◌*◌, ◌^◌, ◌≤◌, ◌<◌, ◌≡◌, min, Option, some, none, arith}
use ai_platform_template.Resilience.Errors.{Error, retry_after_seconds}
use ai_platform_template.Resilience.Retry.{RetryPolicy, delay, decision}

-- The hint that counts: the caller's, or else the one that the exception carries.
abbrev pub effective_hint : Option Error → Option ℕ → Option ℕ
effective_hint error (some hint) = some hint
effective_hint none none = none
effective_hint (some e) none = retry_after_seconds e

-- The least delay that a hint asks for: itself, but no more than the cap.
abbrev pub hinted : Option ℕ → ℕ → ℕ
hinted none cap = 0
hinted (some hint) cap = min hint cap

module _ (jitter : ℕ → ℕ) where
  delay_bounds :
      (p : RetryPolicy) (attempt : ℕ) (hint : Option ℕ)
      → ((x : ℕ) → jitter x ≤ x)
      → (hinted hint p.max_delay_seconds ≤ delay jitter p attempt hint)
        × (delay jitter p attempt hint ≤ p.max_delay_seconds)
  unfolding delay
  delay_bounds p attempt none h =
      ground (arith, h (min p.max_delay_seconds (p.base_delay_seconds * 2 ^ (attempt - 1))))
  delay_bounds p attempt (some s) h =
      ground (arith, h (min p.max_delay_seconds (p.base_delay_seconds * 2 ^ (attempt - 1))))

  -- With jitter that gives at most what it is given, a delay is proposed only before the last
  -- attempt; it is at most the cap, and at least the effective hint, itself capped.
  pub decision_delay_bounds :
      (p : RetryPolicy) (attempt : ℕ) (status : Option ℕ) (error : Option Error) (hint : Option ℕ)
      {d : ℕ}
      → ((x : ℕ) → jitter x ≤ x)
      → (decision jitter p attempt status error hint).next_delay_seconds ≡ some d
      → (attempt < p.max_attempts)
        × (hinted (effective_hint error hint) p.max_delay_seconds ≤ d)
        × (d ≤ p.max_delay_seconds)
  unfolding decision
  decision_delay_bounds p attempt status error hint {d} j h = (
    ground arith,
    ground (arith, (delay_bounds p attempt (effective_hint error hint) j).0),
    ground (arith, (delay_bounds p attempt (effective_hint error hint) j).1),
  )
