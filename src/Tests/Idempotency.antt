-- ===== src/Tests/Idempotency.antt =====
-- Runs of app/modules/platform/idempotency: one key of one principal.
use ai_platform_template.Base.{◌≤◌, ◌≡◌, refl, none, some, [], ◌∷◌, arith}
use ai_platform_template.Base.Eq.{string_eq, pair_eq, pair_equals}
use ai_platform_template.Base.Result.{ok}
use ai_platform_template.Dict.{lookup}
use ai_platform_template.Idempotency.{
  IdempotencyKey, Attempt, Table, in_progress, cached, check_or_store, store_response,
}
use ai_platform_template.Idempotency.Fence.{
  checking, storing, completions, held, completes_once, replays_completion,
}

abbrev attempt : Attempt
attempt = record { row = ("u1", "k1"); request_hash = "h"; token = "t2"; expires_at = 900 }

abbrev row : IdempotencyKey
row = record {
  request_hash = "h";
  status = in_progress;
  claim_token = some "t1";
  response_status_code = none;
  response_body = none;
  expires_at = 500;
  updated_at = 10;
}

abbrev table : Table
table = (("u1", "k1"), row) ∷ []

completes_once_example :
    completions
      ("u1", "k1")
      "t1"
      (checking 200 200 60 attempt ∷ storing 210 ("u1", "k1") "t1" 200 [] ∷ [])
      table
    ≤ held ("u1", "k1") "t1" table
completes_once_example =
    completes_once ("u1", "k1") "t1"
      (checking 200 200 60 attempt ∷ storing 210 ("u1", "k1") "t1" 200 [] ∷ []) table
      (refl, (tt, tt))

replays_completion_example :
    check_or_store 60 60 30 attempt (store_response 20 ("u1", "k1") "t1" 201 [] table).1 ≡ (
      ok (cached (record { status_code = 201; body = [] })),
      (store_response 20 ("u1", "k1") "t1" 201 [] table).1,
    )
unfolding lookup store_response pair_equals
replays_completion_example =
    replays_completion 20 60 60 30 201 [] "t1" row attempt table refl refl (omega arith)
