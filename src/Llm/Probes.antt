-- ===== src/Llm/Probes.antt =====
-- A walk along a chain gives back every probe that it takes.
use ai_platform_template.Base.{
  ℕ, ◌+◌, ◌≡◌, refl, String, Bool, true, false, not, Option, none, some, List, [], ◌∷◌, arith, leb,
  length, Bool-cases, if_intro, inl, inr,
}
use ai_platform_template.Base.Eq.{◌==◌, ==_iff, string_eq, pair_eq}
use ai_platform_template.Base.Result.{Exception, Result, ok, err}
use ai_platform_template.Dict.Laws.{lookup-insert}
use ai_platform_template.Resilience.Errors.{Error, is_transient_error}
use ai_platform_template.Resilience.Breaker.{CircuitBreaker, trip}
use ai_platform_template.Resilience.Breaker.{
  try_acquire as breaker_acquire, release_probe as breaker_release,
  record_success as breaker_success, record_failure as breaker_failure,
}
use ai_platform_template.Llm.{
  BreakerKey, ModelRouter, breaker, with_breaker, try_acquire, release, record_success,
  record_error, Call, concluded, answered, raised, cut, cancelled, Invocation, message, failure,
  deadline_exceeded, unavailable, interrupted, walk, ainvoke, ainvoke_on, chain,
}

-- No breaker of the router has a probe out.
pub record IsFree (r : ModelRouter) : Type 0 where
  pub no_probe : (k : BreakerKey) → (breaker k r).probe_lease_until ≡ none

abbrev lease : CircuitBreaker → Option ℕ
lease b = b.probe_lease_until

-- Only the breaker of `k` may have a probe out.
abbrev IsFreeBut : BreakerKey → ModelRouter → Type 0
IsFreeBut k r = (j : BreakerKey) → (k == j) ≡ false → lease (breaker j r) ≡ none

with_breaker-IsFree :
    (k : BreakerKey) (b : CircuitBreaker) (r : ModelRouter)
    → IsFreeBut k r
    → lease b ≡ none
    → IsFree (with_breaker k b r)
with_breaker-IsFree k b r f h = record {
  no_probe = λ j. ground (arith, lookup-insert k j b r.breakers, f j);
}

refused_unchanged :
    (now : ℕ) (b : CircuitBreaker)
    → lease b ≡ none
    → (breaker_acquire now b).0 ≡ false
    → lease (breaker_acquire now b).1 ≡ none
unfolding breaker_acquire
refused_unchanged now b h q = ground arith

failed_gives_back :
    (now ended : ℕ) (e : Error) (b : CircuitBreaker)
    → lease b ≡ none
    → (lease (breaker_failure ended e b) ≡ none)
      × (lease (breaker_failure ended e (breaker_acquire now b).1) ≡ none)
unfolding breaker_acquire breaker_failure trip
failed_gives_back now ended e b h = ground arith

module _ (now size : ℕ) (k : BreakerKey) (r : ModelRouter) (f : IsFree r) where
  acquired : ModelRouter
  acquired = (try_acquire now size k r).1

  acquired_but : IsFreeBut k (try_acquire now size k r).1
  unfolding try_acquire
  acquired_but j h =
      ground
        (arith, lookup-insert k j (breaker_acquire now (breaker k r)).1 r.breakers, f.no_probe j)

  refused-IsFree : (try_acquire now size k r).0 ≡ false → IsFree (try_acquire now size k r).1
  unfolding try_acquire
  refused-IsFree h = record {
    no_probe = λ j. ground (
      arith,
      lookup-insert k j (breaker_acquire now (breaker k r)).1 r.breakers,
      f.no_probe j,
      f.no_probe k,
      refused_unchanged now (breaker k r),
    );
  }

  failed_lease :
      (ended : ℕ) (e : Error)
      → lease (breaker_failure ended e (breaker k (try_acquire now size k r).1)) ≡ none
  unfolding try_acquire
  failed_lease ended e = ground (
    arith,
    lookup-insert k k (breaker_acquire now (breaker k r)).1 r.breakers,
    ==_iff k k,
    f.no_probe k,
    failed_gives_back now ended e (breaker k r),
  )

  settled-IsFree :
      (ended : ℕ)
      → IsFree (record_success k (try_acquire now size k r).1)
        × IsFree (release k (try_acquire now size k r).1)
        × ((e : Error) → IsFree (record_error ended e k (try_acquire now size k r).1))
  unfolding record_success release record_error
  settled-IsFree ended = (
    with_breaker-IsFree k (breaker_success (breaker k (try_acquire now size k r).1))
        (try_acquire now size k r).1 acquired_but (unfold breaker_success in refl),
    with_breaker-IsFree k (breaker_release (breaker k (try_acquire now size k r).1))
        (try_acquire now size k r).1 acquired_but (unfold breaker_release in refl),
    λ e.
        with_breaker-IsFree k (breaker_failure ended e (breaker k (try_acquire now size k r).1))
          (try_acquire now size k r).1 acquired_but (failed_lease ended e),
  )

-- The call was not cancelled.
abbrev pub is_finished : Invocation → Bool
is_finished interrupted = false
is_finished (message _) = true
is_finished (failure _) = true
is_finished deadline_exceeded = true
is_finished unavailable = true

-- No probe is out, unless the call was cancelled.
abbrev IsFreeIf : Invocation × ModelRouter → Type 0
IsFreeIf p = is_finished p.0 ≡ true → IsFree p.1

module _ (call : String → ℕ → ℕ × Call) (size : ℕ) (role : String) (deadline : ℕ) where
  walk-IsFree :
      (targets : List String) (now : ℕ) (last : Option Error) (r : ModelRouter)
      → IsFree r
      → IsFreeIf (walk call size role deadline targets now last r)
  unfolding walk
  walk-IsFree [] now last r f = λ _. f
  walk-IsFree (target ∷ targets) now last r f =
      elim (Bool-cases (try_acquire now size (role, target) r).0) [
        | inl admitted ↦ rw admitted (
            if_intro IsFreeIf (leb deadline now) _ _ (λ _. f)
              (by_call (λ e m g. walk-IsFree targets (call target now).0 (some e) m g)
                (call target now).1))
        | inr refused ↦ rw refused (
            if_intro IsFreeIf (leb deadline now) _ _ (λ _. f)
              (walk-IsFree targets now last (try_acquire now size (role, target) r).1
                (refused-IsFree now size (role, target) r f refused)))
      ]
    where
      next : Error → ModelRouter → Invocation × ModelRouter
      next e m = walk call size role deadline targets (call target now).0 (some e) m

      by_call :
          ((e : Error) (m : ModelRouter) → IsFree m → IsFreeIf (next e m))
          → (c : Call)
          → IsFreeIf (
              concluded
                (call target now).0
                (role, target)
                (try_acquire now size (role, target) r).1
                next
                c)
      by_call rest cancelled = λ e. absurd (ground (arith, e))
      by_call rest (answered m) = λ _. (settled-IsFree now size (role, target) r f now).0
      by_call rest cut = λ _. (settled-IsFree now size (role, target) r f now).1
      by_call rest (raised e) =
          if_intro IsFreeIf (not (is_transient_error e)) _ _
            (λ _. (settled-IsFree now size (role, target) r f (call target now).0).2 e)
            (rest e
              (record_error (call target now).0 e (role, target)
                (try_acquire now size (role, target) r).1)
              ((settled-IsFree now size (role, target) r f (call target now).0).2 e))

-- A result that is no CancelledError.
abbrev pub is_completed : Result Exception Invocation → Bool
is_completed (err _) = true
is_completed (ok i) = is_finished i

-- If no breaker has a probe out before an invocation, and the invocation is not cancelled, none has one
-- after it: neither after an answer, nor an exception, nor the deadline, nor where no target admits the call.
pub ainvoke-IsFree :
    (call : String → ℕ → ℕ × Call) (role : String) (now : ℕ) (r : ModelRouter)
    → IsFree r
    → is_completed (ainvoke call role now r).0 ≡ true
    → IsFree (ainvoke call role now r).1
unfolding ainvoke
ainvoke-IsFree call role now r f c = by_chain (chain r.settings role) c
  where
    by_chain :
        (c : Result Exception (List String))
        → is_completed (ainvoke_on call role now r c).0 ≡ true
        → IsFree (ainvoke_on call role now r c).1
    by_chain (err e) q = f
    by_chain (ok targets) q =
        walk-IsFree call (length targets) role (now + r.settings.chain_deadline_seconds) targets now
          none r f q
