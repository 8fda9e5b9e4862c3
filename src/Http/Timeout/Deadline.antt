-- ===== src/Http/Timeout/Deadline.antt =====
-- A call behind the timeout of app/core/middleware.py, in its time and past it.
use ai_platform_template.Base.{
  ℕ, ◌≤◌, ◌<◌, ◌≡◌, ap, ◌∙◌, true, false, List, [], if◌then◌else◌, arith,
}
use ai_platform_template.Http.Bytes.{Bytes}
use ai_platform_template.Http.Asgi.{
  State, Scope, timeout_error, App, Arrival, any_start, starts, run, raised, followed_by, is_over,
}
use ai_platform_template.Http.RequestId.{Dumps, send_error-quiet, send_error-over, send_error-once}
use ai_platform_template.Http.Timeout.{timed, time_out, send_timeout, is_excluded}
use ai_platform_template.Http.Timeout.Until.{
  duration, answered, until, until_early, until_late, run-timed,
}
use ai_platform_template.Http.Timeout.Once.{timed_once}

module _ (dumps : Dumps) (limit : ℕ) (patterns : List Bytes) (scope : Scope) (uuid : Bytes)
    (app : App) (s : State) (http : scope.is_http ≡ true)
    (included : is_excluded patterns scope.path ≡ false) where
  timed_call :
      time_out dumps limit patterns scope uuid app
      ≡ timed (send_timeout dumps scope uuid) limit false app
  unfolding time_out
  timed_call = ground arith

  -- For an HTTP request on a path that is not excluded: an application that takes less than the
  -- timeout runs as it would by itself, and where it raises a TimeoutError before the response has
  -- started, the 504 reply follows its run.
  pub time_out_early :
      (i : List Arrival)
      → duration app s i < limit
      → run (time_out dumps limit patterns scope uuid app) s i
        ≡ answered (send_timeout dumps scope uuid) false (run app s i)
  time_out_early i h =
      ap (λ a. run a s i) timed_call
      ∙ (run-timed (send_timeout dumps scope uuid)
            (λ t j.
              send_error-quiet dumps 504 "request_timeout" "Request exceeded timeout" [] scope uuid
                t j [])
            limit false app s i
          ∙ ap (answered (send_timeout dumps scope uuid) false) (until_early limit app s i h))

  -- For an HTTP request on a path that is not excluded, and a positive timeout: when the application
  -- with its waits, that for a client that stays silent among them, takes the timeout or longer, then its
  -- run is cut off at that time with a TimeoutError, which the 504 reply follows if the response has not
  -- started by then; and the call is over.
  pub time_out_late :
      (i : List Arrival)
      → 0 < limit
      → limit ≤ duration app s i
      → ((until limit app s i).outcome ≡ raised timeout_error)
        × (run (time_out dumps limit patterns scope uuid app) s i ≡ (
            if any_start (until limit app s i).sent
            then until limit app s i
            else followed_by
                (until limit app s i)
                (run (send_timeout dumps scope uuid) (until limit app s i).state [])))
        × (is_over (run (time_out dumps limit patterns scope uuid app) s i).outcome ≡ true)
  time_out_late i p h =
      let u = until_late limit app s i p h in
      let reply = send_timeout dumps scope uuid in
      let over =
        send_error-over dumps 504 "request_timeout" "Request exceeded timeout" [] scope uuid
          (until limit app s i).state [] in
      let e =
        ap (λ a. run a s i) timed_call
        ∙ run-timed reply
            (λ t j.
              send_error-quiet dumps 504 "request_timeout" "Request exceeded timeout" [] scope uuid
                t j [])
            limit false app s i in
      (u, ground (arith, e, u), ground (arith, e, u, over))

  -- For an HTTP request on a path that is not excluded: where the application starts at most one
  -- response, whatever arrives, so does the application behind the timeout.
  pub time_out_once :
      ((i : List Arrival) → starts (run app s i).sent ≤ 1)
      → (i : List Arrival)
      → starts (run (time_out dumps limit patterns scope uuid app) s i).sent ≤ 1
  time_out_once h i = rw timed_call (
      omega (
        arith,
        timed_once (send_timeout dumps scope uuid) limit false app s
            (send_error-once dumps 504 "request_timeout" "Request exceeded timeout" [] scope uuid)
            (λ j. omega (arith, h j)) i,
      ))
