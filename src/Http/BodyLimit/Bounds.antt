-- ===== src/Http/BodyLimit/Bounds.antt =====
-- What an application behind the body limit receives, and what its run then is.
use ai_platform_template.Base.{
  ℕ, ◌+◌, ◌-◌, ◌≤◌, ◌≡◌, refl, ap, ◌∙◌, sym, Bool, true, false, not, ◌&&◌, ◌||◌, none, some, List,
  [], ◌∷◌, length, if◌then◌else◌, arith,
}
use ai_platform_template.Base.Result.{Result, ok, err}
use ai_platform_template.Http.Bytes.{Bytes}
use ai_platform_template.Http.Asgi.{
  State, Scope, Received, http_request, disconnect, Sent, Failure, App, done, raises, receives,
  awaits, sends, takes, reads, writes, logs, Arrival, is_start, any_start, run, LogEntry, Run,
  Outcome, returned, waiting, raised, sending, logging, followed_by,
}
use ai_platform_template.Http.RequestId.{Dumps, content_length, send_error-quiet}
use ai_platform_template.Http.BodyLimit.{
  is_too_large, limit_body, limited, received, send_too_large, declares_more,
}

-- The arrivals as the application gets them: from the message on that exceeds the limit, every body
-- is an exception.
unfoldable pub cut : ℕ → ℕ → List Arrival → List Arrival
cut limit bytes [] = []
cut limit bytes ((n, none) ∷ i) = (n, none) ∷ cut limit bytes i
cut limit bytes ((n, some r) ∷ i) =
    (n, some (received limit bytes r).1) ∷ cut limit (received limit bytes r).0 i

abbrev bytes_of : Result Failure Received → ℕ
bytes_of (ok (http_request body more)) = length body
bytes_of _ = 0

-- The bytes of the bodies that arrive.
abbrev pub total_bytes : List Arrival → ℕ
total_bytes [] = 0
total_bytes ((_, none) ∷ i) = total_bytes i
total_bytes ((_, some r) ∷ i) = bytes_of r + total_bytes i

cut-bound : (limit bytes : ℕ) (i : List Arrival) → total_bytes (cut limit bytes i) ≤ limit - bytes
unfolding cut
cut-bound limit bytes [] = omega arith
cut-bound limit bytes ((n, none) ∷ i) = omega (arith, cut-bound limit bytes i)
cut-bound limit bytes ((n, some (err e)) ∷ i) = omega (arith, cut-bound limit bytes i)
cut-bound limit bytes ((n, some (ok disconnect)) ∷ i) = omega (arith, cut-bound limit bytes i)
cut-bound limit bytes ((n, some (ok (http_request b m))) ∷ i) =
    ground (arith, cut-bound limit (bytes + length b) i)

cut-whole :
    (limit bytes : ℕ) (i : List Arrival) → bytes + total_bytes i ≤ limit → cut limit bytes i ≡ i
unfolding cut
cut-whole limit bytes [] h = refl
cut-whole limit bytes ((n, none) ∷ i) h = ap (λ j. (n, none) ∷ j) (cut-whole limit bytes i h)
cut-whole limit bytes ((n, some (err e)) ∷ i) h =
    ap (λ j. (n, some (err e)) ∷ j) (cut-whole limit bytes i (omega arith))
cut-whole limit bytes ((n, some (ok disconnect)) ∷ i) h =
    ap (λ j. (n, some (ok disconnect)) ∷ j) (cut-whole limit bytes i (omega arith))
cut-whole limit bytes ((n, some (ok (http_request b m))) ∷ i) h =
    ground (arith, cut-whole limit (bytes + length b) i)

abbrev raised_too_large : Outcome → Bool
raised_too_large (raised e) = is_too_large e
raised_too_large returned = false
raised_too_large waiting = false

-- A run of the application, with the reply of the middleware after it where it ended in
-- RequestBodyTooLarge before the response had started.
abbrev pub recovered : App → Bool → Run → Run
recovered reply started r =
    if raised_too_large r.outcome && not (started || any_start r.sent)
    then followed_by r (run reply r.state [])
    else r

recovered-sending :
    (reply : App) (started : Bool) (m : Sent) (r : Run)
    → recovered reply started (sending m r) ≡ sending m (recovered reply (started || is_start m) r)
recovered-sending reply started m r = ground arith

recovered-logging :
    (reply : App) (started : Bool) (l : LogEntry) (r : Run)
    → recovered reply started (logging l r) ≡ logging l (recovered reply started r)
recovered-logging reply started l r = ground arith

run-limited :
    (reply : App) (limit bytes : ℕ) (started : Bool) (app : App) (s : State) (i : List Arrival)
    → ((t : State) (j : List Arrival) → run reply t j ≡ run reply t [])
    → run (limited reply limit bytes started app) s i
      ≡ recovered reply started (run app s (cut limit bytes i))
unfolding limited run cut
run-limited reply limit bytes started done s i q = refl
run-limited reply limit bytes started (raises e) s i q = ground (arith, q s i)
run-limited reply limit bytes started (receives k) s [] q = refl
run-limited reply limit bytes started (receives k) s ((n, none) ∷ i) q = refl
run-limited reply limit bytes started (receives k) s ((n, some r) ∷ i) q =
    run-limited reply limit (received limit bytes r).0 started (k n (received limit bytes r).1) s i
      q
run-limited reply limit bytes started (awaits left k late) s [] q = refl
run-limited reply limit bytes started (awaits left k late) s ((n, none) ∷ i) q =
    ground (arith, run-limited reply limit bytes started late s ((n - left, none) ∷ i) q)
run-limited reply limit bytes started (awaits left k late) s ((n, some r) ∷ i) q = ground (
  arith,
  run-limited reply limit (received limit bytes r).0 started (k n (received limit bytes r).1) s i q,
  run-limited reply limit bytes started late s ((n - left, some r) ∷ i) q,
)
run-limited reply limit bytes started (sends m a) s i q =
    ap (sending m) (run-limited reply limit bytes (started || is_start m) a s i q)
    ∙ sym (recovered-sending reply started m (run a s (cut limit bytes i)))
run-limited reply limit bytes started (takes n a) s i q =
    run-limited reply limit bytes started a s i q
run-limited reply limit bytes started (reads f) s i q =
    run-limited reply limit bytes started (f s) s i q
run-limited reply limit bytes started (writes f a) s i q =
    run-limited reply limit bytes started a (f s) i q
run-limited reply limit bytes started (logs l a) s i q =
    ap (logging l) (run-limited reply limit bytes started a s i q)
    ∙ sym (recovered-logging reply started l (run a s (cut limit bytes i)))

opened :
    (dumps : Dumps) (limit : ℕ) (scope : Scope) (uuid : Bytes) (app : App)
    → scope.is_http ≡ true
    → declares_more limit (content_length scope) ≡ false
    → limit_body dumps limit scope uuid app
      ≡ limited (send_too_large dumps scope uuid) limit 0 false app
unfolding limit_body
opened dumps limit scope uuid app h d = ground arith

module _ (dumps : Dumps) (limit : ℕ) (scope : Scope) (uuid : Bytes) (app : App) (s : State)
    (i : List Arrival) (http : scope.is_http ≡ true)
    (fits : declares_more limit (content_length scope) ≡ false) where
  -- For an HTTP request with no declared length over the limit: the application behind the middleware
  -- runs as it would on the arrivals cut at the limit, of whose bodies it gets at most the limit in
  -- bytes; where that run ends in RequestBodyTooLarge before the response has started, the 413 reply
  -- follows it.
  pub limit_body-bounds :
      (run (limit_body dumps limit scope uuid app) s i
        ≡ recovered (send_too_large dumps scope uuid) false (run app s (cut limit 0 i)))
      × (total_bytes (cut limit 0 i) ≤ limit)
  limit_body-bounds = (
    ap (λ a. run a s i) (opened dumps limit scope uuid app http fits)
        ∙ run-limited (send_too_large dumps scope uuid) limit 0 false app s i (λ t j.
          send_error-quiet dumps 413 "request_body_too_large" "Request body too large" [] scope uuid
            t j []),
    omega (arith, cut-bound limit 0 i),
  )

  -- For an HTTP request with no declared length over the limit whose bodies together are within the
  -- limit: the application gets every arrival as it is.
  pub limit_body-whole :
      total_bytes i ≤ limit
      → run (limit_body dumps limit scope uuid app) s i
        ≡ recovered (send_too_large dumps scope uuid) false (run app s i)
  limit_body-whole w =
      limit_body-bounds.0
      ∙ ap (λ j. recovered (send_too_large dumps scope uuid) false (run app s j))
          (cut-whole limit 0 i (omega arith))
