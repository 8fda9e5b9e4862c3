-- ===== src/Tests/Completions.antt =====
-- Runs of app/modules/business/completions: one guard, one handler, a stream of two chunks.
use ai_platform_template.Base.{
  ◌≡◌, ◌↔◌, refl, none, some, List, [], ◌∷◌, length, ltb, All, if◌then◌else◌,
}
use ai_platform_template.Base.Result.{Result, ok, err}
use ai_platform_template.Tasks.Memory.{take}
use ai_platform_template.Completions.{
  user, CompletionRequest, CompletionResult, CompletionStreamChunk, CompletionGuard, Raise, failure,
  cancelled, StreamPolicy, Pull, piece, exhausted, complete, stream, sync_observation,
}
use ai_platform_template.Completions.Guards.{
  AllowsInput, AllowsOutput, observations, complete_guards,
}
use ai_platform_template.Completions.Stream.{timely, stops, told, stream_serves}

abbrev question : CompletionRequest
question = record { messages = record { role = user; content = "hi" } ∷ []; metadata = [] }

abbrev answer : CompletionResult
answer = record {
  content = "hello";
  model = some "m";
  usage = none;
  finish_reason = some "stop";
  metadata = [];
}

abbrev guard : CompletionGuard
guard = record { check_input = λ _. ok tt; check_output = λ _ _. err (failure "blocked") }

abbrev handler : CompletionRequest → Result Raise CompletionResult
handler _ = ok answer

complete_guards_example :
    (((complete (guard ∷ []) handler question).0 ≡ ok answer) ↔ (
      All (AllowsInput question) (guard ∷ [])
      × (handler question ≡ ok answer)
      × All (AllowsOutput question answer) (guard ∷ [])))
    × (observations (complete (guard ∷ []) handler question).1
        ≡ sync_observation (complete (guard ∷ []) handler question).0 ∷ [])
complete_guards_example = complete_guards (guard ∷ []) handler question answer

abbrev chunk : CompletionStreamChunk
chunk = record { delta = "he"; model = some "m"; usage = none; finish_reason = none; metadata = [] }

abbrev policy : StreamPolicy
policy = record { first_token_timeout = 30; idle_timeout = 10 }

-- The second chunk comes too late.
abbrev pulls : List Pull
pulls = (20, piece chunk) ∷ (12, piece chunk) ∷ (1, exhausted) ∷ []

stream_serves_example :
    let (r, done) = stream policy (guard ∷ []) question pulls (1 ∷ 1 ∷ []) in
    let chunks = timely 10 30 pulls in
    (r.yielded ≡ take 3 chunks)
    × (r.ending ≡ (if ltb 2 (length chunks) then err cancelled else stops 10 30 pulls))
    × (observations done ≡ told r.yielded r.ending r.ttft ∷ [])
stream_serves_example = stream_serves policy (guard ∷ []) question pulls (1 ∷ 1 ∷ []) (refl, tt)
