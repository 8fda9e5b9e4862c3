-- ===== src/Completions/Stream.antt =====
-- What `stream` serves, and what it observes.
use ai_platform_template.Base.{
  ℕ, suc, ◌+◌, ◌≡◌, refl, ap, ◌∙◌, All, Option, none, some, List, [], ◌∷◌, ◌++◌, ltb, length, arith,
  map, String, if◌then◌else◌,
}
use ai_platform_template.Base.Result.{Result, ok, err}
use ai_platform_template.Base.Eq.{◌==◌, string_eq}
use ai_platform_template.Tasks.Memory.{take}
use ai_platform_template.Completions.{
  CompletionRequest, CompletionStreamChunk, CompletionGuard, StreamSummary, StreamPolicy, Raise,
  stream_timeout, cancelled, observed, closed, piece, exhausted, raising, Pull, stream_from, stream,
  merge, empty_summary, check_inputs, stream_observation, mark_first_token, CallOutcome, outcome_ok,
  outcome_timeout, outcome_disconnected, outcome_error, CompletionObservation, stream_mode,
  Streamed, failure,
}
use ai_platform_template.Completions.Guards.{
  observations, observations-append, check_inputs-quiet, check_inputs_iff, AllowsInput,
}

-- The chunks that come in time: the first within `deadline`, each later one within `idle`.
abbrev pub timely : ℕ → ℕ → List Pull → List CompletionStreamChunk
timely idle deadline [] = []
timely idle deadline ((wait, exhausted) ∷ source) = []
timely idle deadline ((wait, raising e) ∷ source) = []
timely idle deadline ((wait, piece chunk) ∷ source) =
    let rest = timely idle idle source in if ltb wait deadline then chunk ∷ rest else []

-- What stops the stream after them: its end, an exception of the handler, or a missed deadline.
abbrev pub stops : ℕ → ℕ → List Pull → Result Raise (Unit {0})
stops idle deadline [] = err stream_timeout
stops idle deadline ((wait, exhausted) ∷ source) =
    if ltb wait deadline then ok tt else err stream_timeout
stops idle deadline ((wait, raising e) ∷ source) =
    if ltb wait deadline then err e else err stream_timeout
stops idle deadline ((wait, piece chunk) ∷ source) =
    let rest = stops idle idle source in if ltb wait deadline then rest else err stream_timeout

abbrev merge_all : List CompletionStreamChunk → StreamSummary → StreamSummary
merge_all [] s = s
merge_all (chunk ∷ chunks) s = merge_all chunks (merge chunk s)

module _ (idle : ℕ) where
  stream_from-serves :
      (deadline now : ℕ) (s : StreamSummary) (ttft : Option ℕ) (source : List Pull)
      (consumer : List ℕ)
      → let r = stream_from idle deadline now s ttft source consumer in
        let chunks = timely idle deadline source in
        (r.yielded ≡ take (suc (length consumer)) chunks)
        × (r.ending ≡ (
            if ltb (length consumer) (length chunks)
            then err cancelled
            else stops idle deadline source))
        × (r.summary ≡ merge_all r.yielded s)
  unfolding stream_from take
  stream_from-serves deadline now s ttft [] consumer = (refl, ground arith, refl)
  stream_from-serves deadline now s ttft ((wait, exhausted) ∷ source) consumer = ground arith
  stream_from-serves deadline now s ttft ((wait, raising e) ∷ source) consumer = ground arith
  stream_from-serves deadline now s ttft ((wait, piece chunk) ∷ source) [] = ground arith
  stream_from-serves deadline now s ttft ((wait, piece chunk) ∷ source) (held ∷ consumer) = ground (
    arith,
    stream_from-serves idle (now + wait + held) (merge chunk s)
        (mark_first_token chunk (now + wait) ttft) source consumer,
  )

-- Whatever happens, a call hands the sink one observation.
stream_observes :
    (policy : StreamPolicy) (guards : List CompletionGuard) (request : CompletionRequest)
    (source : List Pull) (consumer : List ℕ)
    → let (r, done) = stream policy guards request source consumer in
      observations done ≡ stream_observation r ∷ []
unfolding stream
stream_observes policy guards request source consumer =
    let r = (stream policy guards request source consumer).0 in
    observations-append (check_inputs guards request).1
      (observed (stream_observation r) ∷ closed ∷ [])
    ∙ ap (λ os. os ++ (stream_observation r ∷ [])) (check_inputs-quiet guards request)

-- The outcome for an ending.
abbrev pub outcome_for : Result Raise (Unit {0}) → CallOutcome
outcome_for (ok _) = outcome_ok
outcome_for (err stream_timeout) = outcome_timeout
outcome_for (err cancelled) = outcome_disconnected
outcome_for (err (failure _)) = outcome_error

-- The last value that is given in a list.
abbrev pub last_given {ℓ} : {A : Type ℓ} → List (Option A) → Option A
last_given [] = none
last_given (o ∷ os) = elim (last_given os) [ none ↦ o | some a ↦ some a ]

-- A text that says something.
abbrev pub nonempty : Option String → Option String
nonempty none = none
nonempty (some text) = if text == "" then none else some text

-- What a stream that has yielded the chunks tells the sink.
abbrev pub told :
    List CompletionStreamChunk → Result Raise (Unit {0}) → Option ℕ → CompletionObservation
told chunks ending ttft = record {
  mode = stream_mode;
  outcome = outcome_for ending;
  ttft = ttft;
  model = last_given (map (λ c. nonempty c.model) chunks);
  finish_reason = last_given (map (λ c. nonempty c.finish_reason) chunks);
  usage = last_given (map (λ c. c.usage) chunks);
}

abbrev or_old {ℓ} : {A : Type ℓ} → Option A → Option A → Option A
or_old none old = old
or_old (some a) old = some a

or_old-none {ℓ} : {A : Type ℓ} (o : Option A) → or_old o none ≡ o
or_old-none none = refl
or_old-none (some a) = refl

merge_all-last :
    (chunks : List CompletionStreamChunk) (s : StreamSummary)
    → ((merge_all chunks s).model
        ≡ or_old (last_given (map (λ c. nonempty c.model) chunks)) s.model)
      × ((merge_all chunks s).finish_reason
          ≡ or_old (last_given (map (λ c. nonempty c.finish_reason) chunks)) s.finish_reason)
      × ((merge_all chunks s).usage ≡ or_old (last_given (map (λ c. c.usage) chunks)) s.usage)
unfolding merge
merge_all-last [] s = (refl, refl, refl)
merge_all-last (chunk ∷ chunks) s =
    let (m, f, u) = merge_all-last chunks (merge chunk s) in
    ((ground (arith, m)), (ground (arith, f)), (ground (arith, u)))

observation-told :
    (r : Streamed)
    → r.summary ≡ merge_all r.yielded empty_summary
    → stream_observation r ≡ told r.yielded r.ending r.ttft
observation-told r h =
    let (m, f, u) = merge_all-last r.yielded empty_summary in
    ground (
      arith,
      h,
      m ∙ or_old-none (last_given (map (λ c. nonempty c.model) r.yielded)),
      f ∙ or_old-none (last_given (map (λ c. nonempty c.finish_reason) r.yielded)),
      u ∙ or_old-none (last_given (map (λ c. c.usage) r.yielded)),
    )

-- A call of `stream` whose request every guard lets in, of a consumer that asks for one chunk more than
-- it has times listed: it yields the chunks that the handler gives in time, up to that many; it ends
-- closed by the consumer if there were at least that many, else as the handler's stream ends (its end, its
-- exception, or the missed deadline as a StreamTimeoutError); and it hands the sink one observation, with
-- the outcome for that ending (ok, timeout, disconnected or error) and the last model, finish reason and
-- usage that the yielded chunks reported.
pub stream_serves :
    (policy : StreamPolicy) (guards : List CompletionGuard) (request : CompletionRequest)
    (source : List Pull) (consumer : List ℕ)
    → All (AllowsInput request) guards
    → let (r, done) = stream policy guards request source consumer in
      let chunks = timely policy.idle_timeout policy.first_token_timeout source in
      (r.yielded ≡ take (suc (length consumer)) chunks)
      × (r.ending ≡ (
          if ltb (length consumer) (length chunks)
          then err cancelled
          else stops policy.idle_timeout policy.first_token_timeout source))
      × (observations done ≡ told r.yielded r.ending r.ttft ∷ [])
unfolding stream
stream_serves policy guards request source consumer allowed =
    let e = (check_inputs_iff guards request).1 allowed in
    let (y, z, m) =
      stream_from-serves policy.idle_timeout policy.first_token_timeout 0 empty_summary none source
        consumer in
    let r = (stream policy guards request source consumer).0 in
    (
      rw e y,
      rw e z,
      stream_observes policy guards request source consumer
          ∙ ap (λ o. o ∷ []) (observation-told r (rw e m)),
    )
