-- ===== src/Quota/Postgres/Matches/Decisions.antt =====
-- What a call of a quota store decides, read off the replies of both stores.
use ai_platform_template.Base.{ℕ, String, Option, none, some}
use ai_platform_template.Base.Eq.{string_eq, pair_eq}
use ai_platform_template.Base.Result.{Exception, Result, ok, err}
use ai_platform_template.Quota.Models.{QuotaReservation, QuotaUsage}
use ai_platform_template.Quota.Postgres.{DbError, raises, no_result_found, data_error}

-- What a call decides, without the numbers of a usage.
pub data Decision : Type 0 where
  granted : String → Decision
  refused settled : Decision
  used : ℕ → Decision
  raised : Exception → Decision
  faulted : Decision

abbrev pub reservation_decision : Result Exception (Option QuotaReservation) → Decision
reservation_decision (ok none) = refused
reservation_decision (ok (some r)) = granted r.id
reservation_decision (err e) = raised e

abbrev pub settle_decision : Result Exception QuotaUsage → Decision
settle_decision (ok u) = settled
settle_decision (err e) = raised e

abbrev pub db_reservation_decision : Result DbError (Option QuotaReservation) → Decision
db_reservation_decision (ok none) = refused
db_reservation_decision (ok (some r)) = granted r.id
db_reservation_decision (err (raises e)) = raised e
db_reservation_decision (err no_result_found) = faulted
db_reservation_decision (err data_error) = faulted

abbrev pub db_settle_decision : Result DbError QuotaUsage → Decision
db_settle_decision (ok u) = settled
db_settle_decision (err (raises e)) = raised e
db_settle_decision (err no_result_found) = faulted
db_settle_decision (err data_error) = faulted

-- What a reading of the usage shows as used.
abbrev pub map_used : Result Exception QuotaUsage → Decision
map_used (ok u) = used u.used
map_used (err e) = raised e
