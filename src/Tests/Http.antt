-- ===== src/Tests/Http.antt =====
-- Runs of app/core/middleware.py: one upload in two parts.
use ai_platform_template.Base.{
  ◌≡◌, ◌≤◌, refl, true, false, none, some, List, [], ◌∷◌, ◌++◌, length, arith, is_some,
  if◌then◌else◌,
}
use ai_platform_template.Base.Result.{Result, ok, err}
use ai_platform_template.Base.Eq.{==_iff}
use ai_platform_template.Dict.{lookup, insert}
use ai_platform_template.Dict.Laws.{lookup-insert}
use ai_platform_template.Http.Bytes.{ascii, bytes_eq, bytes_equals}
use ai_platform_template.Http.Asgi.{
  Headers, State, Scope, Received, http_request, response_start, response_body, Failure, App, done,
  raises, receives, sends, takes, Arrival, run, starts, is_over, raised, timeout_error, any_start,
  followed_by,
}
use ai_platform_template.Http.RequestId.{Dumps, content_length}
use ai_platform_template.Http.BodyLimit.{limit_body, send_too_large}
use ai_platform_template.Http.BodyLimit.Bounds.{cut, recovered, total_bytes, limit_body-bounds}
use ai_platform_template.Http.Timeout.{is_excluded, time_out, send_timeout}
use ai_platform_template.Http.Timeout.Until.{duration, until, answered}
use ai_platform_template.Http.Timeout.Deadline.{time_out_early, time_out_late, time_out_once}
use ai_platform_template.Http.AccessLog.{log_access, with_access_line, log_access_once}
use ai_platform_template.Http.SecurityHeaders.{
  Setdefault, IsSetdefault, secure, promised, IsSecured, secure_sets,
}
use ai_platform_template.Http.ClientIp.{
  extract_client_ip, from_right, forwarded_hops, extract_client_ip-trusted,
}
use ai_platform_template.Http.InFlight.{
  Event, enters, ends, steps, wait_idle, empty_pool, comes_to_rest, wait_idle_exact,
}

abbrev upload_scope : Scope
upload_scope = record { is_http = true; path = ascii "/v1/files"; headers = []; client = none }

abbrev no_state : State
no_state = record { request_id = none; principal = none }

abbrev respond : Result Failure Received → App
respond (err e) = raises e
respond (ok m) = sends (response_start 200 []) (takes 3 (sends (response_body []) done))

-- Two messages, and a response to the second.
abbrev upload : App
upload = receives (λ _ r. elim r [ err e ↦ raises e | ok m ↦ receives (λ _ q. respond q) ])

abbrev parts : List Arrival
parts =
    (1, some (ok (http_request (1 ∷ 2 ∷ 3 ∷ []) true)))
    ∷ (1, some (ok (http_request (4 ∷ []) false)))
    ∷ []

-- One message, and then a silence.
abbrev silent : List Arrival
silent = (1, some (ok (http_request (1 ∷ 2 ∷ 3 ∷ []) true))) ∷ (7, none) ∷ []

abbrev no_text : Dumps
no_text code message id = []

limit_body-bounds_example :
    (run (limit_body no_text 3 upload_scope [] upload) no_state parts
      ≡ recovered
          (send_too_large no_text upload_scope [])
          false
          (run upload no_state (cut 3 0 parts)))
    × (total_bytes (cut 3 0 parts) ≤ 3)
unfolding content_length
limit_body-bounds_example =
    limit_body-bounds no_text 3 upload_scope [] upload no_state parts refl refl

time_out_early_example :
    run (time_out no_text 9 [] upload_scope [] upload) no_state parts
    ≡ answered (send_timeout no_text upload_scope []) false (run upload no_state parts)
unfolding is_excluded duration
time_out_early_example =
    time_out_early no_text 9 [] upload_scope [] upload no_state refl refl parts (omega arith)

time_out_late_example :
    ((until 2 upload no_state silent).outcome ≡ raised timeout_error)
    × (run (time_out no_text 2 [] upload_scope [] upload) no_state silent ≡ (
        if any_start (until 2 upload no_state silent).sent
        then until 2 upload no_state silent
        else followed_by
            (until 2 upload no_state silent)
            (run (send_timeout no_text upload_scope []) (until 2 upload no_state silent).state [])))
    × (is_over (run (time_out no_text 2 [] upload_scope [] upload) no_state silent).outcome ≡ true)
unfolding is_excluded duration
time_out_late_example =
    time_out_late no_text 2 [] upload_scope [] upload no_state refl refl silent (omega arith)
      (omega arith)

upload_once : (i : List Arrival) → starts (run upload no_state i).sent ≤ 1
unfolding run
upload_once [] = omega arith
upload_once ((n, none) ∷ i) = omega arith
upload_once ((n, some (err e)) ∷ i) = omega arith
upload_once ((n, some (ok m)) ∷ []) = omega arith
upload_once ((n, some (ok m)) ∷ (k, none) ∷ i) = omega arith
upload_once ((n, some (ok m)) ∷ (k, some (err e)) ∷ i) = omega arith
upload_once ((n, some (ok m)) ∷ (k, some (ok r)) ∷ i) = omega arith

time_out_once_example :
    starts (run (time_out no_text 2 [] upload_scope [] upload) no_state parts).sent ≤ 1
unfolding is_excluded
time_out_once_example =
    time_out_once no_text 2 [] upload_scope [] upload no_state refl refl upload_once parts

log_access_once_example : run (log_access (ascii "-") upload_scope upload) no_state parts ≡ (
    if is_over (run upload no_state parts).outcome
    then with_access_line (ascii "-") (run upload no_state parts)
    else run upload no_state parts)
log_access_once_example = log_access_once (ascii "-") upload_scope upload no_state parts refl

abbrev set_if_missing : Setdefault
set_if_missing key value headers =
    if is_some (lookup key headers) then headers else insert key value headers

set_if_missing-IsSetdefault : IsSetdefault set_if_missing
set_if_missing-IsSetdefault name key value headers =
    ground (arith, lookup-insert key name value headers, ==_iff key name)

secure_sets_example :
    (run (secure set_if_missing true 60 upload_scope upload) no_state parts
      ≡ record (run upload no_state parts) {
        sent = (run (secure set_if_missing true 60 upload_scope upload) no_state parts).sent;
      })
    × IsSecured
        (ascii "x-frame-options")
        (promised true 60 (ascii "x-frame-options"))
        (run upload no_state parts).sent
        (run (secure set_if_missing true 60 upload_scope upload) no_state parts).sent
secure_sets_example =
    secure_sets set_if_missing true 60 upload_scope upload no_state parts (ascii "x-frame-options")
      set_if_missing-IsSetdefault refl

-- The client claims an address, and the one trusted proxy adds the true one.
abbrev claimed : Headers
claimed = (ascii "x-forwarded-for", ascii "9.9.9.9, 8.8.8.8") ∷ []

abbrev proxied : Headers
proxied = (ascii "x-forwarded-for", ascii "10.0.0.7") ∷ []

extract_client_ip-trusted_example :
    some (extract_client_ip 1 none (claimed ++ proxied)) ≡ from_right 1 (forwarded_hops proxied)
unfolding forwarded_hops bytes_equals
extract_client_ip-trusted_example =
    extract_client_ip-trusted 1 none claimed proxied (omega arith) (omega arith)

abbrev two_in : List Event
two_in = enters true "a" ∷ enters true "b" ∷ enters false "ws" ∷ []

abbrev one_out : List Event
one_out = ends "a" ∷ ends "b" ∷ []

wait_idle_exact_example :
    ((steps two_in empty_pool).tracker.count ≡ length (steps two_in empty_pool).running)
    × (wait_idle one_out (steps two_in empty_pool)
        ≡ comes_to_rest one_out (steps two_in empty_pool))
wait_idle_exact_example = wait_idle_exact two_in one_out
