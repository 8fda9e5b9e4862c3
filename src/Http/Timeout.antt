-- ===== src/Http/Timeout.antt =====
-- app/core/middleware.py: RequestTimeoutMiddleware. Times are ticks; an application whose time is up
-- lets its cancellation pass.
pub mod Until
pub mod Once
pub mod Deadline
use ai_platform_template.Base.{
  ℕ, ◌+◌, ◌-◌, ◌*◌, ◌≤◌, ◌<◌, ◌≡◌, refl, ap, ◌∙◌, sym, String, Bool, true, false, not, ◌&&◌, ◌||◌,
  Option, none, some, List, [], ◌∷◌, ◌++◌, leb, ltb, if◌then◌else◌, arith, Bool-cases, inl, inr,
}
use ai_platform_template.Base.Result.{Result, ok, err, Exception, value_error}
use ai_platform_template.Http.Bytes.{Bytes, contains}
use ai_platform_template.Http.Asgi.{
  State, Scope, Sent, response_start, response_body, Failure, body_too_large, timeout_error,
  unicode_error, failed, App, done, raises, receives, awaits, sends, takes, reads, writes, logs,
  LogEntry, Arrival, is_start, starts, run, Run, Outcome, returned, waiting, raised, sending,
  logging,
}
use ai_platform_template.Http.RequestId.{Dumps, send_error}

-- `__init__`: the limit, or the ValueError
unfoldable pub check_timeout : ℕ → Result Exception ℕ
check_timeout timeout_seconds =
    if leb timeout_seconds 0 then err value_error else ok timeout_seconds

-- `_is_excluded`: `any(pattern in path for pattern in self.exclude_patterns)`
unfoldable pub is_excluded : List Bytes → Bytes → Bool
unfolding contains
is_excluded [] path = false
is_excluded (pattern ∷ patterns) path = contains pattern path || is_excluded patterns path

-- `_send_timeout`
abbrev pub send_timeout : Dumps → Scope → Bytes → App
send_timeout dumps = send_error dumps 504 "request_timeout" "Request exceeded timeout" []

abbrev pub is_timeout : Failure → Bool
is_timeout timeout_error = true
is_timeout _ = false

-- The `except` clause: a TimeoutError, whoever raised it, is answered unless the response has started.
abbrev pub caught : App → Bool → Failure → App
caught reply started e = if is_timeout e && not started then reply else raises e

-- The application under `asyncio.wait_for`, with `left` ticks to go.
unfoldable pub timed : App → ℕ → Bool → App → App
timed reply left started done = done
timed reply left started (raises e) = caught reply started e
timed reply left started (receives k) =
    awaits left (λ n r. timed reply (left - n) started (k n r)) (caught reply started timeout_error)
timed reply left started (awaits limit k late) =
    let rest = timed reply (left - limit) started late in
    awaits (if ltb limit left then limit else left) (λ n r. timed reply (left - n) started (k n r))
      (if ltb limit left then rest else caught reply started timeout_error)
timed reply left started (sends m a) = sends m (timed reply left (started || is_start m) a)
timed reply left started (takes n a) =
    let rest = takes n (timed reply (left - n) started a) in
    if ltb n left then rest else takes left (caught reply started timeout_error)
timed reply left started (reads f) = reads (λ s. timed reply left started (f s))
timed reply left started (writes f a) = writes f (timed reply left started a)
timed reply left started (logs l a) = logs l (timed reply left started a)

-- `__call__`
unfoldable pub time_out : Dumps → ℕ → List Bytes → Scope → Bytes → App → App
unfolding timed is_excluded send_error
time_out dumps timeout_seconds exclude_patterns scope uuid app =
    if not scope.is_http || is_excluded exclude_patterns scope.path
    then app
    else timed (send_timeout dumps scope uuid) timeout_seconds false app
