-- ===== src/Completions/Guards.antt =====
-- What `complete` lets through, and what it observes.
use ai_platform_template.Base.{◌≡◌, ◌↔◌, refl, ap, ◌∙◌, subst, List, [], ◌∷◌, ◌++◌, All, arith}
use ai_platform_template.Base.Result.{Result, ok, err}
use ai_platform_template.Completions.{
  CompletionRequest, CompletionResult, CompletionGuard, CompletionObservation, Raise, Effect,
  and_then, input_checked, output_checked, handled, closed, observed, Did, check_inputs,
  check_outputs, attempt, complete, sync_observation,
}

-- The guard lets the request in, and the result out.
abbrev pub AllowsInput : CompletionRequest → CompletionGuard → Type 0
AllowsInput request guard = guard.check_input request ≡ ok tt

abbrev pub AllowsOutput : CompletionRequest → CompletionResult → CompletionGuard → Type 0
AllowsOutput request result guard = guard.check_output request result ≡ ok tt

abbrev pub observations : List Effect → List CompletionObservation
observations [] = []
observations (observed o ∷ es) = o ∷ observations es
observations (input_checked ∷ es) = observations es
observations (output_checked ∷ es) = observations es
observations (handled ∷ es) = observations es
observations (closed ∷ es) = observations es

pub observations-append :
    (es fs : List Effect) → observations (es ++ fs) ≡ observations es ++ observations fs
observations-append [] fs = refl
observations-append (observed o ∷ es) fs = ap (λ os. o ∷ os) (observations-append es fs)
observations-append (input_checked ∷ es) fs = observations-append es fs
observations-append (output_checked ∷ es) fs = observations-append es fs
observations-append (handled ∷ es) fs = observations-append es fs
observations-append (closed ∷ es) fs = observations-append es fs

pub check_inputs-quiet :
    (guards : List CompletionGuard) (request : CompletionRequest)
    → observations (check_inputs guards request).1 ≡ []
unfolding check_inputs
check_inputs-quiet [] request = refl
check_inputs-quiet (guard ∷ guards) request = ground (arith, check_inputs-quiet guards request)

check_outputs-quiet :
    (guards : List CompletionGuard) (request : CompletionRequest) (result : CompletionResult)
    → observations (check_outputs guards request result).1 ≡ []
unfolding check_outputs
check_outputs-quiet [] request result = refl
check_outputs-quiet (guard ∷ guards) request result =
    ground (arith, check_outputs-quiet guards request result)

and_then-quiet :
    {A B : Type 0} (d : Did A) (next : A → Did B)
    → observations d.1 ≡ []
    → ((a : A) → observations (next a).1 ≡ [])
    → observations (and_then d next).1 ≡ []
and_then-quiet (err e, done) next h k = h
and_then-quiet (ok a, done) next h k = observations-append done (next a).1 ∙ ground (arith, h, k a)

and_then_iff :
    {A B : Type 0} (d : Did A) (next : A → Did B) (b : B)
    → ((and_then d next).0 ≡ ok b) ↔ ((a : A) × (d.0 ≡ ok a) × ((next a).0 ≡ ok b))
and_then_iff (err e, done) next b = (λ h. absurd (ground arith), λ h. absurd (ground (arith, h.1)))
and_then_iff (ok a, done) next b = (λ h. (a, refl, h), λ (c, e, h). ground (arith, e, h))

pub check_inputs_iff :
    (guards : List CompletionGuard) (request : CompletionRequest)
    → ((check_inputs guards request).0 ≡ ok tt) ↔ All (AllowsInput request) guards
unfolding check_inputs
check_inputs_iff [] request = (λ _. tt, λ _. refl)
check_inputs_iff (guard ∷ guards) request =
    let step =
      and_then_iff (guard.check_input request, input_checked ∷ [])
        (λ _. check_inputs guards request) tt in
    let rest = check_inputs_iff guards request in
    (λ h. (let (a, e, f) = step.0 h in (e, rest.0 f)), λ h. step.1 (tt, h.0, rest.1 h.1))

check_outputs_iff :
    (guards : List CompletionGuard) (request : CompletionRequest) (result : CompletionResult)
    → ((check_outputs guards request result).0 ≡ ok tt) ↔ All (AllowsOutput request result) guards
unfolding check_outputs
check_outputs_iff [] request result = (λ _. tt, λ _. refl)
check_outputs_iff (guard ∷ guards) request result =
    let step =
      and_then_iff (guard.check_output request result, output_checked ∷ [])
        (λ _. check_outputs guards request result) tt in
    let rest = check_outputs_iff guards request result in
    (λ h. (let (a, e, f) = step.0 h in (e, rest.0 f)), λ h. step.1 (tt, h.0, rest.1 h.1))

module _ (guards : List CompletionGuard)
    (handler : CompletionRequest → Result Raise CompletionResult)
    (request : CompletionRequest) where
  after_outputs : CompletionResult → Did CompletionResult
  after_outputs result = and_then (check_outputs guards request result) (λ _. (ok result, []))

  attempt_iff :
      (result : CompletionResult)
      → ((attempt guards handler request).0 ≡ ok result) ↔ (
          All (AllowsInput request) guards
          × (handler request ≡ ok result)
          × All (AllowsOutput request result) guards)
  unfolding attempt after_outputs
  attempt_iff result =
      let inputs =
        and_then_iff (check_inputs guards request)
          (λ _. and_then (handler request, handled ∷ []) after_outputs) result in
      let handling = and_then_iff (handler request, handled ∷ []) after_outputs result in
      (
        λ h.
            (let (a, e, f) = inputs.0 h in
              let (r, g, k) = handling.0 f in
              let (u, m, n) =
                (and_then_iff (check_outputs guards request r) (λ _. (ok r, [])) result).0 k in
              let same : r ≡ result = ground (arith, n) in
              (
                (check_inputs_iff guards request).0 e,
                g ∙ ap ok same,
                subst (λ x. All (AllowsOutput request x) guards) same
                    ((check_outputs_iff guards request r).0 m),
              )),
        λ (i, g, o). inputs.1 (
          tt,
          (check_inputs_iff guards request).1 i,
          handling.1 (
            result,
            g,
            (and_then_iff (check_outputs guards request result) (λ _. (ok result, [])) result).1
                (tt, (check_outputs_iff guards request result).1 o, refl),
          ),
        ),
      )

  attempt-quiet : observations (attempt guards handler request).1 ≡ []
  unfolding attempt
  attempt-quiet =
      and_then-quiet (check_inputs guards request)
        (λ _. and_then (handler request, handled ∷ []) after) (check_inputs-quiet guards request)
        (λ _.
          and_then-quiet (handler request, handled ∷ []) after refl
            (λ result.
              and_then-quiet (check_outputs guards request result) (λ _. (ok result, []))
                (check_outputs-quiet guards request result) (λ _. refl)))
    where
      after : CompletionResult → Did CompletionResult
      after result = and_then (check_outputs guards request result) (λ _. (ok result, []))

  -- `complete` is fail-closed: it returns a result exactly when every guard lets the request in, the
  -- handler returns that result, and every guard lets it out; in every case it hands the sink one
  -- observation, of the outcome of the call.
  pub complete_guards :
      (result : CompletionResult)
      → (((complete guards handler request).0 ≡ ok result) ↔ (
          All (AllowsInput request) guards
          × (handler request ≡ ok result)
          × All (AllowsOutput request result) guards))
        × (observations (complete guards handler request).1
            ≡ sync_observation (complete guards handler request).0 ∷ [])
  unfolding complete
  complete_guards result = (
    attempt_iff result,
    observations-append (attempt guards handler request).1
          (observed (sync_observation (attempt guards handler request).0) ∷ [])
        ∙ ap (λ os. os ++ (sync_observation (attempt guards handler request).0 ∷ [])) attempt-quiet,
  )
