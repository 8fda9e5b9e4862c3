-- ===== src/Idempotency.antt =====
-- app/modules/platform/idempotency/service.py over its table, whose rows stand under the unique index
-- on principal and key. One call is one transaction: the insert does nothing on a conflict, and the
-- row is locked while it is read and reset. The token of `uuid4`, the clock of the application and the
-- clock of the database are arguments.
pub mod Fence
use ai_platform_template.Base.{
  ℕ, ◌-◌, ◌+◌, String, Bool, true, false, ◌||◌, ◌&&◌, Option, none, some, List, [], ◌∷◌, leb,
  is_some, or_else, nat_beq, if◌then◌else◌,
}
use ai_platform_template.Base.Eq.{◌==◌, string_eq, pair_eq}
use ai_platform_template.Base.Json.{Json}
use ai_platform_template.Base.Result.{Result, ok, err}
use ai_platform_template.Dict.{Dict, lookup, insert}

pub data IdempotencyStatus : Type 0 where
  in_progress completed : IdempotencyStatus

-- The row of one (principal_id, key).
pub record IdempotencyKey : Type 0 where
  pub request_hash : String
  pub status : IdempotencyStatus
  pub claim_token : Option String
  pub response_status_code : Option ℕ
  pub response_body : Option (Dict String Json)
  pub expires_at : ℕ
  pub updated_at : ℕ

-- (principal_id, key)
abbrev pub RowKey : Type 0
RowKey = String × String

abbrev pub Table : Type 0
Table = Dict RowKey IdempotencyKey

pub record IdempotencyCachedResponse : Type 0 where
  pub status_code : ℕ
  pub body : Dict String Json

pub record IdempotencyClaim : Type 0 where
  pub token : String

pub data Answer : Type 0 where
  cached : IdempotencyCachedResponse → Answer
  claim : IdempotencyClaim → Answer

-- The `AppError`s of `check_or_store_idempotency_key`, by their codes.
pub data AppError : Type 0 where
  idempotency_internal_error idempotency_key_conflict idempotency_key_in_progress : AppError

-- What a request brings: its key, its hash, the fresh token and the expiry of a new claim.
pub record Attempt : Type 0 where
  pub row : RowKey
  pub request_hash : String
  pub token : String
  pub expires_at : ℕ

abbrev new_row : ℕ → Attempt → IdempotencyKey
new_row stamp a = record {
  request_hash = a.request_hash;
  status = in_progress;
  claim_token = some a.token;
  response_status_code = none;
  response_body = none;
  expires_at = a.expires_at;
  updated_at = stamp;
}

-- `_try_insert`
unfoldable pub try_insert : ℕ → Attempt → Table → Bool × Table
try_insert stamp a t =
    if is_some (lookup a.row t) then (false, t) else (true, insert a.row (new_row stamp a) t)

-- `_is_stuck_in_progress`
unfoldable pub is_stuck_in_progress : ℕ → ℕ → IdempotencyKey → Bool
is_stuck_in_progress now timeout_seconds r = elim r.status [
  | in_progress ↦ leb (r.updated_at + timeout_seconds) now
  | completed ↦ false
]

-- `_reset_expired_record`
unfoldable pub reset_expired_record : ℕ → Attempt → IdempotencyKey → IdempotencyKey
reset_expired_record now a r = record r {
  request_hash = a.request_hash;
  claim_token = some a.token;
  status = in_progress;
  response_status_code = none;
  response_body = none;
  expires_at = a.expires_at;
  updated_at = now;
}

-- `record.response_status_code or 200`
abbrev status_or_ok : Option ℕ → ℕ
status_or_ok none = 200
status_or_ok (some code) = if nat_beq code 0 then 200 else code

abbrev replay : Option (Dict String Json) → IdempotencyKey → Result AppError Answer
replay none r = err idempotency_key_in_progress
replay (some body) r = elim r.status [
  | in_progress ↦ err idempotency_key_in_progress
  | completed ↦
      ok (cached (record { status_code = status_or_ok r.response_status_code; body = body }))
]

-- The rest of the check, for a row that is there and was not inserted now.
abbrev check_row : ℕ → ℕ → Attempt → Option IdempotencyKey → Table → Result AppError Answer × Table
check_row now timeout_seconds a none t = (err idempotency_internal_error, t)
check_row now timeout_seconds a (some r) t =
    if leb r.expires_at now || is_stuck_in_progress now timeout_seconds r
    then (ok (claim (record { token = a.token })), insert a.row (reset_expired_record now a r) t)
    else if r.request_hash == a.request_hash
    then (replay r.response_body r, t)
    else (err idempotency_key_conflict, t)

abbrev check_inserted : ℕ → ℕ → Attempt → Bool × Table → Result AppError Answer × Table
check_inserted now timeout_seconds a (true, t) = (ok (claim (record { token = a.token })), t)
check_inserted now timeout_seconds a (false, t) = check_row now timeout_seconds a (lookup a.row t) t

-- `check_or_store_idempotency_key`; `stamp` is the clock of the database.
unfoldable pub check_or_store : ℕ → ℕ → ℕ → Attempt → Table → Result AppError Answer × Table
unfolding try_insert is_stuck_in_progress reset_expired_record
check_or_store stamp now timeout_seconds a t =
    check_inserted now timeout_seconds a (try_insert stamp a t)

abbrev same_token : Option String → String → Bool
same_token none token = false
same_token (some held) token = held == token

-- `claim_token = …` and `status = 'in_progress'`
abbrev pub holds : String → IdempotencyKey → Bool
holds token r = elim r.status [ in_progress ↦ same_token r.claim_token token | completed ↦ false ]

abbrev pub completed_with : ℕ → ℕ → Dict String Json → IdempotencyKey → IdempotencyKey
completed_with stamp status_code body r = record r {
  status = completed;
  response_status_code = some status_code;
  response_body = some body;
  updated_at = stamp;
}

-- `store_idempotency_response`
unfoldable pub store_response : ℕ → RowKey → String → ℕ → Dict String Json → Table → Bool × Table
store_response stamp k token status_code body t = elim (lookup k t) [
  | none ↦ (false, t)
  | some r ↦
      if holds token r
      then (true, insert k (completed_with stamp status_code body r) t)
      else (false, t)
]
