-- ===== src/Outbox.antt =====
-- app/modules/messaging/outbox/publisher.py: OutboxPublisher over a store of events by their ids. What
-- `claim_pending` claims is an argument, and so is what the sink makes of a record: nothing, or an
-- exception with its text.
pub mod Report
use ai_platform_template.Base.{
  ℕ, ◌+◌, String, Bool, true, false, Option, none, some, List, [], ◌∷◌, leb, length, or_else,
  if◌then◌else◌,
}
use ai_platform_template.Base.Eq.{string_eq}
use ai_platform_template.Base.Json.{Json}
use ai_platform_template.Base.Result.{Exception, value_error, key_error, Result, ok, err}
use ai_platform_template.Dict.{Dict, lookup, insert}
use ai_platform_template.Resilience.Errors.{Error}
use ai_platform_template.Resilience.Retry.{RetryDecision, RetryPolicy, decision}

pub data OutboxStatus : Type 0 where
  pending published failed : OutboxStatus

pub record OutboxRecord : Type 0 where
  pub id : String
  pub event_type : String
  pub payload : Dict String Json
  pub metadata : Dict String Json
  pub status : OutboxStatus
  pub attempts : ℕ
  pub available_at : Option ℕ
  pub locked_until : Option ℕ
  pub published_at : Option ℕ
  pub error : Option String

abbrev pub OutboxStore : Type 0
OutboxStore = Dict String OutboxRecord

pub record OutboxPublishReport : Type 0 where
  pub total : ℕ
  pub published : ℕ
  pub retried : ℕ
  pub failed : ℕ

-- An exception and its `str`.
pub record SinkError : Type 0 where
  pub error : Error
  pub text : String

abbrev pub as_published : ℕ → OutboxRecord → OutboxRecord
as_published now r = record r {
  status = published;
  published_at = some now;
  locked_until = none;
  error = none;
}

abbrev pub as_failed : String → Option ℕ → OutboxRecord → OutboxRecord
as_failed text none r = record r {
  status = failed;
  error = some text;
  attempts = r.attempts + 1;
  locked_until = none;
}
as_failed text (some available_at) r = record r {
  status = pending;
  error = some text;
  attempts = r.attempts + 1;
  locked_until = none;
  available_at = some available_at;
}

-- An update by id; a missing row raises KeyError.
abbrev update_row :
    String → (OutboxRecord → OutboxRecord) → OutboxStore → Result Exception OutboxStore
update_row id change s = elim (lookup id s) [
  | none ↦ err key_error
  | some r ↦ ok (insert id (change r) s)
]

unfoldable pub mark_published : String → ℕ → OutboxStore → Result Exception OutboxStore
mark_published id now = update_row id (as_published now)

unfoldable pub mark_failed : String → String → Option ℕ → OutboxStore → Result Exception OutboxStore
mark_failed id text available_at = update_row id (as_failed text available_at)

abbrev pub empty_report : OutboxPublishReport
empty_report = record { total = 0; published = 0; retried = 0; failed = 0 }

abbrev retried_report : OutboxPublishReport → OutboxPublishReport
retried_report p = record p { retried = p.retried + 1 }

abbrev failed_report : OutboxPublishReport → OutboxPublishReport
failed_report p = record p { failed = p.failed + 1 }

abbrev published_report : OutboxPublishReport → OutboxPublishReport
published_report p = record p { published = p.published + 1 }

module _ (jitter : ℕ → ℕ) (policy : RetryPolicy) (publish : OutboxRecord → ℕ → Option SinkError)
    (now : ℕ) where
  -- When a failed record is tried again, if it is.
  unfoldable pub retry_at : OutboxRecord → SinkError → Option ℕ
  unfolding decision
  retry_at r e =
      let d = decision jitter policy (r.attempts + 1) none (some e.error) none in
      if d.should_retry then some (now + or_else d.next_delay_seconds 0) else none

  abbrev settle_failed :
      OutboxRecord
      → SinkError
      → Option ℕ
      → OutboxPublishReport
      → OutboxStore
      → Result Exception (OutboxPublishReport × OutboxStore)
  settle_failed r e at report s = elim (mark_failed r.id e.text at s) [
    | err x ↦ err x
    | ok s' ↦ ok (elim at [ none ↦ failed_report report | some _ ↦ retried_report report ], s')
  ]

  -- The body of the loop of `publish_pending`.
  unfoldable pub publish_one :
      OutboxRecord
      → OutboxPublishReport
      → OutboxStore
      → Result Exception (OutboxPublishReport × OutboxStore)
  unfolding retry_at mark_published mark_failed
  publish_one r report s = elim (publish r now) [
    | some e ↦ settle_failed r e (retry_at r e) report s
    | none ↦ elim (mark_published r.id now s) [
      | err x ↦ err x
      | ok s' ↦ ok (published_report report, s')
    ]
  ]

  unfoldable pub publish_all :
      List OutboxRecord
      → OutboxPublishReport
      → OutboxStore
      → Result Exception (OutboxPublishReport × OutboxStore)
  unfolding publish_one
  publish_all [] report s = ok (report, s)
  publish_all (r ∷ rs) report s = elim (publish_one r report s) [
    | err x ↦ err x
    | ok (report', s') ↦ publish_all rs report' s'
  ]

  -- `publish_pending`, for the records claimed.
  unfoldable pub publish_pending :
      ℕ → List OutboxRecord → OutboxStore → Result Exception (OutboxPublishReport × OutboxStore)
  unfolding publish_all
  publish_pending lock_seconds records s =
      if leb lock_seconds 0
      then err value_error
      else publish_all records (record empty_report { total = length records }) s
