-- ===== src/Http/AccessLog.antt =====
-- app/core/middleware.py: AccessLogMiddleware. A line keeps the status, the request id and the
-- principal; the method and the path are those of the scope, and the duration is left out.
use ai_platform_template.Base.{
  ℕ, ◌-◌, ◌≡◌, refl, ap, ◌∙◌, sym, true, Option, none, some, List, [], ◌∷◌, ◌++◌, or_else,
  if◌then◌else◌, arith,
}
use ai_platform_template.Http.Bytes.{Bytes}
use ai_platform_template.Http.RequestId.{present}
use ai_platform_template.Http.Asgi.{
  State, Scope, Sent, response_start, response_body, App, done, raises, receives, awaits, sends,
  takes, reads, writes, logs, LogEntry, Arrival, Run, run, sending, logging, is_over,
}

-- `send_with_status`: the status code after a message
abbrev pub status_after : ℕ → Sent → ℕ
status_after status (response_start code _) = code
status_after status (response_body _) = status

-- The line of the `finally` clause; `context_id` is what `get_request_id()` gives.
abbrev pub entry : Bytes → ℕ → State → LogEntry
entry context_id status s = record {
  status = status;
  request_id = or_else (present s.request_id) context_id;
  principal = s.principal;
}

unfoldable pub observed : Bytes → ℕ → App → App
observed context_id status done = reads (λ s. logs (entry context_id status s) done)
observed context_id status (raises e) = reads (λ s. logs (entry context_id status s) (raises e))
observed context_id status (receives k) = receives (λ n r. observed context_id status (k n r))
observed context_id status (awaits limit k late) =
    awaits limit (λ n r. observed context_id status (k n r)) (observed context_id status late)
observed context_id status (sends m a) = sends m (observed context_id (status_after status m) a)
observed context_id status (takes n a) = takes n (observed context_id status a)
observed context_id status (reads f) = reads (λ s. observed context_id status (f s))
observed context_id status (writes f a) = writes f (observed context_id status a)
observed context_id status (logs l a) = logs l (observed context_id status a)

-- `__call__`
unfoldable pub log_access : Bytes → Scope → App → App
unfolding observed
log_access context_id scope app = if scope.is_http then observed context_id 500 app else app

-- The status of the last response that a run started.
abbrev last_status : ℕ → List Sent → ℕ
last_status status [] = status
last_status status (m ∷ ms) = last_status (status_after status m) ms

-- A run with one line more at its end, if it is over.
abbrev with_line : Bytes → ℕ → Run → Run
with_line context_id status r =
    if is_over r.outcome
    then record r {
      logged = r.logged ++ (entry context_id (last_status status r.sent) r.state ∷ []);
    }
    else r

with_line-sending :
    (context_id : Bytes) (status : ℕ) (m : Sent) (r : Run)
    → with_line context_id status (sending m r)
      ≡ sending m (with_line context_id (status_after status m) r)
with_line-sending context_id status m r = ground arith

with_line-logging :
    (context_id : Bytes) (status : ℕ) (l : LogEntry) (r : Run)
    → with_line context_id status (logging l r) ≡ logging l (with_line context_id status r)
with_line-logging context_id status l r = ground arith

run-observed :
    (context_id : Bytes) (status : ℕ) (app : App) (s : State) (i : List Arrival)
    → run (observed context_id status app) s i ≡ with_line context_id status (run app s i)
unfolding observed run
run-observed context_id status done s i = refl
run-observed context_id status (raises e) s i = refl
run-observed context_id status (receives k) s [] = refl
run-observed context_id status (receives k) s ((n, none) ∷ i) = refl
run-observed context_id status (receives k) s ((n, some r) ∷ i) =
    run-observed context_id status (k n r) s i
run-observed context_id status (awaits limit k late) s [] = refl
run-observed context_id status (awaits limit k late) s ((n, none) ∷ i) =
    ground (arith, run-observed context_id status late s ((n - limit, none) ∷ i))
run-observed context_id status (awaits limit k late) s ((n, some r) ∷ i) = ground (
  arith,
  run-observed context_id status (k n r) s i,
  run-observed context_id status late s ((n - limit, some r) ∷ i),
)
run-observed context_id status (sends m a) s i =
    ap (sending m) (run-observed context_id (status_after status m) a s i)
    ∙ sym (with_line-sending context_id status m (run a s i))
run-observed context_id status (takes n a) s i = run-observed context_id status a s i
run-observed context_id status (reads f) s i = run-observed context_id status (f s) s i
run-observed context_id status (writes f a) s i = run-observed context_id status a (f s) i
run-observed context_id status (logs l a) s i =
    ap (logging l) (run-observed context_id status a s i)
    ∙ sym (with_line-logging context_id status l (run a s i))

-- The status of the last response that was started, if one was.
abbrev pub last_start : List Sent → Option ℕ
last_start [] = none
last_start (response_start code _ ∷ ms) = some (or_else (last_start ms) code)
last_start (response_body _ ∷ ms) = last_start ms

last_status-start :
    (status : ℕ) (ms : List Sent) → last_status status ms ≡ or_else (last_start ms) status
last_status-start status [] = refl
last_status-start status (response_start code _ ∷ ms) = last_status-start code ms
last_status-start status (response_body _ ∷ ms) = last_status-start status ms

-- The id of the state, or the context's if the state has none or an empty one.
abbrev pub shown_id : Bytes → Option Bytes → Bytes
shown_id context_id none = context_id
shown_id context_id (some []) = context_id
shown_id context_id (some (b ∷ bs)) = b ∷ bs

shown_id-present :
    (context_id : Bytes) (o : Option Bytes) → or_else (present o) context_id ≡ shown_id context_id o
shown_id-present context_id none = refl
shown_id-present context_id (some []) = refl
shown_id-present context_id (some (b ∷ bs)) = refl

-- A run with one line more at its end.
abbrev pub with_access_line : Bytes → Run → Run
with_access_line context_id r = record r {
  logged =
      r.logged
      ++ (record {
        status = or_else (last_start r.sent) 500;
        request_id = shown_id context_id r.state.request_id;
        principal = r.state.principal;
      }
          ∷ []);
}

with_line-access :
    (context_id : Bytes) (r : Run)
    → with_line context_id 500 r ≡ (if is_over r.outcome then with_access_line context_id r else r)
with_line-access context_id r =
    ground (arith, last_status-start 500 r.sent, shown_id-present context_id r.state.request_id)

-- The access log leaves the run of the application of an HTTP request as it is, but for one line at
-- its end, whether it returns or raises: the line has the status of the last response that was started
-- (500 if none was), the request id of the state (the context's if it has none or an empty one) and its
-- principal. A run that is not over has no line more.
pub log_access_once :
    (context_id : Bytes) (scope : Scope) (app : App) (s : State) (i : List Arrival)
    → scope.is_http ≡ true
    → let r = run app s i in
      run (log_access context_id scope app) s i
      ≡ (if is_over r.outcome then with_access_line context_id r else r)
unfolding log_access
log_access_once context_id scope app s i h =
    rw h (run-observed context_id 500 app s i ∙ with_line-access context_id (run app s i))
