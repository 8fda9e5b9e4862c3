-- ===== src/Http/BodyLimit.antt =====
-- app/core/middleware.py: RequestBodyLimitMiddleware.
pub mod Bounds
use ai_platform_template.Base.{
  ℕ, ◌+◌, String, Bool, true, false, not, ◌&&◌, ◌||◌, Option, none, some, List, [], ◌∷◌, leb, ltb,
  length, if◌then◌else◌,
}
use ai_platform_template.Base.Result.{Result, ok, err, Exception, value_error}
use ai_platform_template.Http.Bytes.{Bytes}
use ai_platform_template.Http.Asgi.{
  State, Scope, Received, http_request, disconnect, Sent, Failure, body_too_large, App, done,
  raises, receives, awaits, sends, takes, reads, writes, logs, Arrival, is_start,
}
use ai_platform_template.Http.RequestId.{Dumps, content_length, send_error}

-- `__init__`: the limit, or the ValueError
unfoldable pub check_limit : ℕ → Result Exception ℕ
check_limit max_body_bytes = if leb max_body_bytes 0 then err value_error else ok max_body_bytes

-- `_send_too_large`
abbrev pub send_too_large : Dumps → Scope → Bytes → App
send_too_large dumps = send_error dumps 413 "request_body_too_large" "Request body too large" []

-- `receive_with_limit`: the bytes received, and what the application gets.
abbrev pub received : ℕ → ℕ → Result Failure Received → ℕ × Result Failure Received
received limit bytes (err e) = (bytes, err e)
received limit bytes (ok disconnect) = (bytes, ok disconnect)
received limit bytes (ok (http_request body more)) = (
  bytes + length body,
  if ltb limit (bytes + length body) then err body_too_large else ok (http_request body more),
)

abbrev pub is_too_large : Failure → Bool
is_too_large body_too_large = true
is_too_large _ = false

-- The application with the wrapped `receive` and `send`, under the `except` clause, where `reply`
-- stands for `_send_too_large`.
unfoldable pub limited : App → ℕ → ℕ → Bool → App → App
limited reply limit bytes started done = done
limited reply limit bytes started (raises e) =
    if is_too_large e && not started then reply else raises e
limited reply limit bytes started (receives k) =
    receives (λ n r.
      limited reply limit (received limit bytes r).0 started (k n (received limit bytes r).1))
limited reply limit bytes started (awaits left k late) =
    awaits left
      (λ n r.
        limited reply limit (received limit bytes r).0 started (k n (received limit bytes r).1))
      (limited reply limit bytes started late)
limited reply limit bytes started (sends m a) =
    sends m (limited reply limit bytes (started || is_start m) a)
limited reply limit bytes started (takes n a) = takes n (limited reply limit bytes started a)
limited reply limit bytes started (reads f) = reads (λ s. limited reply limit bytes started (f s))
limited reply limit bytes started (writes f a) = writes f (limited reply limit bytes started a)
limited reply limit bytes started (logs l a) = logs l (limited reply limit bytes started a)

abbrev declares_more : ℕ → Option ℕ → Bool
declares_more limit none = false
declares_more limit (some n) = ltb limit n

-- `__call__`
unfoldable pub limit_body : Dumps → ℕ → Scope → Bytes → App → App
unfolding limited content_length send_error
limit_body dumps limit scope uuid app =
    if not scope.is_http
    then app
    else if declares_more limit (content_length scope)
    then send_too_large dumps scope uuid
    else limited (send_too_large dumps scope uuid) limit 0 false app
