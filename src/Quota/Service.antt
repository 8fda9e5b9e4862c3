-- ===== src/Quota/Service.antt =====
-- app/modules/platform/quota/service.py: QuotaService over the store in memory. A time is a number of
-- ticks in UTC, of which `second` make a second. `str` is Python's text of a number; the policy store's
-- answer and the id of `uuid4` are arguments.
pub mod Window
use ai_platform_template.Base.{
  ℕ, ◌+◌, ◌-◌, ◌*◌, ◌/◌, max, String, Bool, true, false, not, Option, none, some, leb, or_else,
  if◌then◌else◌,
}
use ai_platform_template.Base.Eq.{◌==◌, string_eq}
use ai_platform_template.Base.Result.{Exception, value_error, key_error, Result, ok, err}
use ai_platform_template.Quota.Models.{
  QuotaPolicy, QuotaWindow, QuotaUsage, QuotaReservation, ReserveQuota, QuotaUsageQuery,
  check_command,
}
use ai_platform_template.Quota.Memory.{
  MemoryQuotaStore, reserve as store_reserve, finalize as store_finalize, refund as store_refund,
  get_usage as store_get_usage, reset_usage as store_reset_usage,
}

abbrev pub second : ℕ
second = 1_000_000

-- What a call of the service may raise: an exception of Python, or the RateLimitError with its
-- `retry_after_seconds`.
pub data ServiceError : Type 0 where
  raises : Exception → ServiceError
  rate_limited : ℕ → ServiceError

abbrev pub Reply : Type 0 → Type 0
Reply A = Result ServiceError A × MemoryQuotaStore

abbrev lifted : {A : Type 0} → Result Exception A × MemoryQuotaStore → Reply A
lifted (ok a, s) = (ok a, s)
lifted (err e, s) = (err (raises e), s)

-- `_resolve_policy`
unfoldable pub resolve_policy :
    Option QuotaPolicy → String → Option QuotaPolicy → Result Exception QuotaPolicy
resolve_policy stored resource none = elim stored [ none ↦ err key_error | some p ↦ ok p ]
resolve_policy stored resource (some p) = if p.resource == resource then ok p else err value_error

-- `_retry_after_seconds`: the quotient is rounded up.
unfoldable pub retry_after : ℕ → ℕ → ℕ
retry_after reset_at now = max ((reset_at - now + (second - 1)) / second) 1

module _ (str : ℕ → String) where
  -- `resolve_fixed_window`, for a positive window.
  unfoldable pub resolve_fixed_window : ℕ → ℕ → QuotaWindow
  resolve_fixed_window now window_seconds =
      let index = now / second / window_seconds in
      record { key = str index; reset_at = (index + 1) * window_seconds * second }

  -- The call of `resolve_fixed_window`, which raises for a window of 0.
  unfoldable pub checked_window : ℕ → ℕ → Result Exception QuotaWindow
  unfolding resolve_fixed_window
  checked_window now window_seconds =
      if leb window_seconds 0 then err value_error else ok (resolve_fixed_window now window_seconds)

  abbrev answer :
      ℕ → ℕ → Result Exception (Option QuotaReservation) × MemoryQuotaStore → Reply QuotaReservation
  answer reset_at now (err e, s) = (err (raises e), s)
  answer reset_at now (ok (some r), s) = (ok r, s)
  answer reset_at now (ok none, s) = (err (rate_limited (retry_after reset_at now)), s)

  abbrev command_for :
      String → String → ℕ → Option String → QuotaPolicy → QuotaWindow → ReserveQuota
  command_for id subject_id cost idempotency_key p w = record {
    subject_id = subject_id;
    resource = p.resource;
    window_key = w.key;
    limit = p.limit;
    cost = cost;
    reset_at = w.reset_at;
    reservation_id = id;
    idempotency_key = idempotency_key;
  }

  abbrev reserve_command :
      ℕ → ℕ → Result Exception ReserveQuota → MemoryQuotaStore → Reply QuotaReservation
  reserve_command reset_at now (err e) s = (err (raises e), s)
  reserve_command reset_at now (ok c) s = answer reset_at now (store_reserve c s)

  abbrev reserve_window :
      String
      → ℕ
      → String
      → ℕ
      → Option String
      → QuotaPolicy
      → Result Exception QuotaWindow
      → MemoryQuotaStore
      → Reply QuotaReservation
  reserve_window id now subject_id cost idempotency_key p (err e) s = (err (raises e), s)
  reserve_window id now subject_id cost idempotency_key p (ok w) s =
      reserve_command w.reset_at now
        (check_command (command_for id subject_id cost idempotency_key p w)) s

  abbrev reserve_under :
      String
      → ℕ
      → String
      → Option ℕ
      → Option String
      → Result Exception QuotaPolicy
      → MemoryQuotaStore
      → Reply QuotaReservation
  reserve_under id now subject_id cost idempotency_key (err e) s = (err (raises e), s)
  reserve_under id now subject_id cost idempotency_key (ok p) s =
      let resolved = or_else cost p.default_cost in
      if leb resolved 0
      then (err (raises value_error), s)
      else reserve_window id now subject_id resolved idempotency_key p
          (checked_window now p.window_seconds) s

  -- `reserve`
  unfoldable pub reserve :
      Option QuotaPolicy
      → String
      → ℕ
      → String
      → String
      → Option ℕ
      → Option QuotaPolicy
      → Option String
      → MemoryQuotaStore
      → Reply QuotaReservation
  unfolding resolve_policy checked_window retry_after check_command store_reserve
  reserve stored id now subject_id resource cost policy idempotency_key =
      reserve_under id now subject_id cost idempotency_key (resolve_policy stored resource policy)

  -- `_usage_query`
  unfoldable pub usage_query : ℕ → String → QuotaPolicy → Result Exception QuotaUsageQuery
  unfolding checked_window
  usage_query now subject_id p = elim (checked_window now p.window_seconds) [
    | err e ↦ err e
    | ok w ↦ ok (record {
      subject_id = subject_id;
      resource = p.resource;
      window_key = w.key;
      limit = p.limit;
      reset_at = w.reset_at;
    })
  ]

  abbrev query_under :
      ℕ
      → String
      → Result Exception QuotaPolicy
      → (QuotaUsageQuery → MemoryQuotaStore → Result Exception QuotaUsage × MemoryQuotaStore)
      → MemoryQuotaStore
      → Reply QuotaUsage
  query_under now subject_id (err e) method s = (err (raises e), s)
  query_under now subject_id (ok p) method s = elim (usage_query now subject_id p) [
    | err e ↦ (err (raises e), s)
    | ok q ↦ lifted (method q s)
  ]

  -- `get_usage`
  unfoldable pub get_usage :
      Option QuotaPolicy
      → ℕ
      → String
      → String
      → Option QuotaPolicy
      → MemoryQuotaStore
      → Reply QuotaUsage
  unfolding resolve_policy usage_query store_get_usage
  get_usage stored now subject_id resource policy =
      query_under now subject_id (resolve_policy stored resource policy) store_get_usage

  -- `reset_usage`
  unfoldable pub reset_usage :
      Option QuotaPolicy
      → ℕ
      → String
      → String
      → Option QuotaPolicy
      → MemoryQuotaStore
      → Reply QuotaUsage
  unfolding resolve_policy usage_query store_reset_usage
  reset_usage stored now subject_id resource policy =
      query_under now subject_id (resolve_policy stored resource policy) store_reset_usage
