-- ===== src/Quota/Models.antt =====
-- app/modules/platform/quota/models.py. Limits and costs are positive there (`__post_init__`), so
-- they are natural numbers; a time is a number of ticks.
use ai_platform_template.Base.{ℕ, String, ◌||◌, Option, leb, if◌then◌else◌}
use ai_platform_template.Base.Eq.{◌==◌, string_eq}
use ai_platform_template.Base.Result.{Exception, value_error, Result, ok, err}

pub data QuotaReservationStatus : Type 0 where
  reserved finalized refunded : QuotaReservationStatus

pub record QuotaPolicy : Type 0 where
  pub resource : String
  pub limit : ℕ
  pub window_seconds : ℕ
  pub default_cost : ℕ

-- `QuotaPolicy.__post_init__`
unfoldable pub check_policy : QuotaPolicy → Result Exception QuotaPolicy
check_policy p =
    if p.resource == "" || (leb p.limit 0 || (leb p.window_seconds 0 || leb p.default_cost 0))
    then err value_error
    else ok p

pub record QuotaWindow : Type 0 where
  pub key : String
  pub reset_at : ℕ

pub record QuotaUsage : Type 0 where
  pub subject_id : String
  pub resource : String
  pub window_key : String
  pub used : ℕ
  pub limit : ℕ
  pub remaining : ℕ
  pub reset_at : ℕ

pub record QuotaReservation : Type 0 where
  pub id : String
  pub subject_id : String
  pub resource : String
  pub window_key : String
  pub cost : ℕ
  pub status : QuotaReservationStatus
  pub usage : QuotaUsage
  pub idempotency_key : Option String

pub record ReserveQuota : Type 0 where
  pub subject_id : String
  pub resource : String
  pub window_key : String
  pub limit : ℕ
  pub cost : ℕ
  pub reset_at : ℕ
  pub reservation_id : String
  pub idempotency_key : Option String

-- `ReserveQuota.__post_init__`
unfoldable pub check_command : ReserveQuota → Result Exception ReserveQuota
check_command c =
    if c.subject_id == ""
      || (c.resource == "" || (c.window_key == "" || (leb c.limit 0 || leb c.cost 0)))
    then err value_error
    else ok c

pub record QuotaUsageQuery : Type 0 where
  pub subject_id : String
  pub resource : String
  pub window_key : String
  pub limit : ℕ
  pub reset_at : ℕ
