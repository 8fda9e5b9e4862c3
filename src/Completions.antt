-- ===== src/Completions.antt =====
-- app/modules/business/completions: schemas.py, guards.py and service.py. A guard and the handler are
-- functions of what they get; a stream of the handler is the list of what `anext` gives with the ticks
-- that it takes, where the end of the list is a model that never answers. An observation keeps no
-- starting time and no duration.
pub mod Guards
pub mod Stream
use ai_platform_template.Base.{
  ℕ, suc, ◌+◌, String, Bool, true, false, not, ◌&&◌, ◌||◌, Option, none, some, List, [], ◌∷◌, ◌++◌,
  leb, ltb, length, is_some, or_else, if◌then◌else◌,
}
use ai_platform_template.Base.Eq.{◌==◌, string_eq}
use ai_platform_template.Base.Json.{Json}
use ai_platform_template.Base.Result.{Result, ok, err, Exception, value_error}
use ai_platform_template.Dict.{Dict}
use Prim.Native.String.{count}

pub data CompletionRole : Type 0 where
  user assistant : CompletionRole

pub record CompletionMessage : Type 0 where
  pub role : CompletionRole
  pub content : String

pub record CompletionRequest : Type 0 where
  pub messages : List CompletionMessage
  pub metadata : Dict String Json

pub record CompletionUsage : Type 0 where
  pub input_tokens : ℕ
  pub output_tokens : ℕ
  pub total_tokens : ℕ

pub record StreamSummary : Type 0 where
  pub usage : Option CompletionUsage
  pub finish_reason : Option String
  pub model : Option String

pub record CompletionResult : Type 0 where
  pub content : String
  pub model : Option String
  pub usage : Option CompletionUsage
  pub finish_reason : Option String
  pub metadata : Dict String Json

pub record CompletionStreamChunk : Type 0 where
  pub delta : String
  pub model : Option String
  pub usage : Option CompletionUsage
  pub finish_reason : Option String
  pub metadata : Dict String Json

-- The bounds of the fields and the validator of the metadata, for the length of its JSON text.
abbrev all_contents : List CompletionMessage → Bool
all_contents [] = true
all_contents (m ∷ ms) = (leb 1 (count m.content) && leb (count m.content) 32_000) && all_contents ms

unfoldable pub check_request :
    (Dict String Json → ℕ) → CompletionRequest → Result Exception CompletionRequest
check_request text_length request =
    if leb 1 (length request.messages)
      && (leb (length request.messages) 64
          && (all_contents request.messages
              && (leb (length request.metadata) 32 && leb (text_length request.metadata) 4_096)))
    then ok request
    else err value_error

-- `new or old` on texts: an empty one does not count.
abbrev or_text : Option String → Option String → Option String
or_text none old = old
or_text (some text) old = if text == "" then old else some text

abbrev or_usage : Option CompletionUsage → Option CompletionUsage → Option CompletionUsage
or_usage none old = old
or_usage (some usage) old = some usage

abbrev pub empty_summary : StreamSummary
empty_summary = record { usage = none; finish_reason = none; model = none }

-- `StreamSummary.merge`
unfoldable pub merge : CompletionStreamChunk → StreamSummary → StreamSummary
merge chunk s = record {
  model = or_text chunk.model s.model;
  usage = or_usage chunk.usage s.usage;
  finish_reason = or_text chunk.finish_reason s.finish_reason;
}

unfoldable pub merge_result : CompletionResult → StreamSummary → StreamSummary
merge_result result s = record {
  model = or_text result.model s.model;
  usage = or_usage result.usage s.usage;
  finish_reason = or_text result.finish_reason s.finish_reason;
}

-- What is raised: an Exception, a StreamTimeoutError among them, or the CancelledError or
-- GeneratorExit that is none.
pub data Raise : Type 0 where
  failure : String → Raise
  stream_timeout : Raise
  cancelled : Raise

-- "ok", "error", "timeout" and "disconnected"
pub data CallOutcome : Type 0 where
  outcome_ok outcome_error outcome_timeout outcome_disconnected : CallOutcome

pub data Mode : Type 0 where
  sync stream_mode : Mode

pub record CompletionObservation : Type 0 where
  pub mode : Mode
  pub outcome : CallOutcome
  pub ttft : Option ℕ
  pub model : Option String
  pub finish_reason : Option String
  pub usage : Option CompletionUsage

pub record CompletionGuard : Type 0 where
  pub check_input : CompletionRequest → Result Raise (Unit {0})
  pub check_output : CompletionRequest → CompletionResult → Result Raise (Unit {0})

-- What a call does besides its result, in order.
pub data Effect : Type 0 where
  input_checked output_checked handled closed : Effect
  observed : CompletionObservation → Effect

-- `_Observation.record`
abbrev pub observation : Mode → CallOutcome → Option ℕ → StreamSummary → CompletionObservation
observation mode outcome ttft s = record {
  mode = mode;
  outcome = outcome;
  ttft = ttft;
  model = s.model;
  finish_reason = s.finish_reason;
  usage = s.usage;
}

-- A step of a call: its value or what it raises, and what it did.
abbrev pub Did : Type 0 → Type 0
Did A = Result Raise A × List Effect

abbrev pub and_then : {A B : Type 0} → Did A → (A → Did B) → Did B
and_then (err e, done) next = (err e, done)
and_then (ok a, done) next = ((next a).0, done ++ (next a).1)

-- `_check_input`
unfoldable pub check_inputs : List CompletionGuard → CompletionRequest → Did (Unit {0})
check_inputs [] request = (ok tt, [])
check_inputs (guard ∷ guards) request =
    and_then (guard.check_input request, input_checked ∷ []) (λ _. check_inputs guards request)

unfoldable pub check_outputs :
    List CompletionGuard → CompletionRequest → CompletionResult → Did (Unit {0})
check_outputs [] request result = (ok tt, [])
check_outputs (guard ∷ guards) request result =
    and_then (guard.check_output request result, output_checked ∷ [])
      (λ _. check_outputs guards request result)

-- The `try` of `complete`
unfoldable pub attempt :
    List CompletionGuard
    → (CompletionRequest → Result Raise CompletionResult)
    → CompletionRequest
    → Did CompletionResult
unfolding check_inputs check_outputs
attempt guards handler request = and_then (check_inputs guards request) (λ _.
    and_then (handler request, handled ∷ [])
      (λ result. and_then (check_outputs guards request result) (λ _. (ok result, []))))

-- The outcome that `complete` records: `except Exception` takes every exception but a cancellation.
abbrev pub outcome_of : Result Raise CompletionResult → CallOutcome
outcome_of (ok _) = outcome_ok
outcome_of (err (failure _)) = outcome_error
outcome_of (err stream_timeout) = outcome_error
outcome_of (err cancelled) = outcome_disconnected

-- The summary at the end of `complete`: merged after the last guard.
abbrev pub summary_of : Result Raise CompletionResult → StreamSummary
summary_of (ok result) = merge_result result empty_summary
summary_of (err _) = empty_summary

abbrev pub sync_observation : Result Raise CompletionResult → CompletionObservation
sync_observation r = observation sync (outcome_of r) none (summary_of r)

unfoldable pub complete :
    List CompletionGuard
    → (CompletionRequest → Result Raise CompletionResult)
    → CompletionRequest
    → Did CompletionResult
unfolding attempt merge_result
complete guards handler request =
    let (result, done) = attempt guards handler request in
    (result, done ++ (observed (sync_observation result) ∷ []))

-- What `anext` comes to: a chunk, the end of the stream, or an exception of the handler.
pub data Item : Type 0 where
  piece : CompletionStreamChunk → Item
  exhausted : Item
  raising : Raise → Item

abbrev pub Pull : Type 0
Pull = ℕ × Item

pub record StreamPolicy : Type 0 where
  pub first_token_timeout : ℕ
  pub idle_timeout : ℕ

-- What a stream has yielded, how it ended, and what its observation has gathered.
pub record Streamed : Type 0 where
  pub yielded : List CompletionStreamChunk
  pub ending : Result Raise (Unit {0})
  pub summary : StreamSummary
  pub ttft : Option ℕ

abbrev pub stopped : Result Raise (Unit {0}) → StreamSummary → Option ℕ → Streamed
stopped r s ttft = record { yielded = []; ending = r; summary = s; ttft = ttft }

-- `mark_first_token`, under `if chunk.delta`
abbrev pub mark_first_token : CompletionStreamChunk → ℕ → Option ℕ → Option ℕ
mark_first_token chunk now none = if chunk.delta == "" then none else some now
mark_first_token chunk now (some t) = some t

abbrev yielding : CompletionStreamChunk → Streamed → Streamed
yielding chunk r = record r { yielded = chunk ∷ r.yielded }

-- The loop of `stream`, from the tick `now` of the call. The consumer holds each chunk for some
-- ticks and asks for the next one; where its list is empty, it closes the stream at a `yield`.
unfoldable pub stream_from : ℕ → ℕ → ℕ → StreamSummary → Option ℕ → List Pull → List ℕ → Streamed
unfolding merge
stream_from idle deadline now s ttft [] consumer = stopped (err stream_timeout) s ttft
stream_from idle deadline now s ttft ((wait, exhausted) ∷ source) consumer =
    if ltb wait deadline then stopped (ok tt) s ttft else stopped (err stream_timeout) s ttft
stream_from idle deadline now s ttft ((wait, raising e) ∷ source) consumer =
    if ltb wait deadline then stopped (err e) s ttft else stopped (err stream_timeout) s ttft
stream_from idle deadline now s ttft ((wait, piece chunk) ∷ source) [] =
    if ltb wait deadline
    then yielding chunk
        (stopped (err cancelled) (merge chunk s) (mark_first_token chunk (now + wait) ttft))
    else stopped (err stream_timeout) s ttft
stream_from idle deadline now s ttft ((wait, piece chunk) ∷ source) (held ∷ consumer) =
    let rest =
      stream_from idle idle (now + wait + held) (merge chunk s)
        (mark_first_token chunk (now + wait) ttft) source consumer in
    if ltb wait deadline then yielding chunk rest else stopped (err stream_timeout) s ttft

abbrev after_input : StreamPolicy → List Pull → List ℕ → Result Raise (Unit {0}) → Streamed
after_input policy source consumer (err e) = stopped (err e) empty_summary none
after_input policy source consumer (ok _) =
    stream_from policy.idle_timeout policy.first_token_timeout 0 empty_summary none source consumer

-- The outcome that `stream` records.
abbrev pub stream_outcome : Result Raise (Unit {0}) → CallOutcome
stream_outcome (ok _) = outcome_ok
stream_outcome (err (failure _)) = outcome_error
stream_outcome (err stream_timeout) = outcome_timeout
stream_outcome (err cancelled) = outcome_disconnected

abbrev pub stream_observation : Streamed → CompletionObservation
stream_observation r = observation stream_mode (stream_outcome r.ending) r.ttft r.summary

unfoldable pub stream :
    StreamPolicy
    → List CompletionGuard
    → CompletionRequest
    → List Pull
    → List ℕ
    → Streamed × List Effect
unfolding check_inputs stream_from
stream policy guards request source consumer =
    let (checked, done) = check_inputs guards request in
    let r = after_input policy source consumer checked in
    (r, done ++ (observed (stream_observation r) ∷ closed ∷ []))
