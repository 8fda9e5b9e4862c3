-- ===== src/Quota/Postgres.antt =====
-- app/modules/platform/quota/adapters/postgres.py over the tables of records.py. A method is one
-- transaction, and the unique index and the row locks make transactions on one key follow each other,
-- so it is one step from tables to tables; an exception rolls the tables back. The counters stand
-- under their unique key, the reservations under their primary key; the columns that the database
-- keeps for itself (a counter's id, the timestamps) are left out.
pub mod Keys
pub mod Matches
pub mod Refinement
use Prim.Native.String.{count}
use ai_platform_template.Base.{
  ℕ, ◌+◌, ◌-◌, max, String, Bool, true, false, not, ◌&&◌, ◌||◌, Option, none, some, List, [], ◌∷◌,
  leb, is_some, if◌then◌else◌,
}
use ai_platform_template.Base.Eq.{◌==◌, string_eq, pair_eq}
use ai_platform_template.Base.Result.{
  Exception, value_error, key_error, runtime_error, Result, ok, err,
}
use ai_platform_template.Dict.{Dict, lookup, insert, erase, keep}
use ai_platform_template.Quota.Models.{
  QuotaReservationStatus, reserved, finalized, refunded, QuotaUsage, QuotaReservation, ReserveQuota,
  QuotaUsageQuery,
}
use ai_platform_template.Quota.Memory.{
  CounterKey, IdempotencyKey, command_key, query_key, idempotency_key,
}

-- The largest INTEGER.
abbrev pub max_integer : ℕ
max_integer = 2_147_483_647

-- A row of `quota_counters`; its texts are VARCHAR(255), (255) and (64), its numbers INTEGER.
pub record QuotaCounter : Type 0 where
  pub subject_id : String
  pub resource : String
  pub window_key : String
  pub used : ℕ
  pub limit : ℕ
  pub reset_at : ℕ

-- A row of `quota_reservations`; its texts are VARCHAR(36), (255), (255), (64) and (255), its cost an
-- INTEGER.
pub record QuotaReservationRecord : Type 0 where
  pub id : String
  pub subject_id : String
  pub resource : String
  pub window_key : String
  pub cost : ℕ
  pub status : QuotaReservationStatus
  pub idempotency_key : Option String
  pub reset_at : ℕ

pub record Tables : Type 0 where
  pub counters : Dict CounterKey QuotaCounter
  pub reservations : Dict String QuotaReservationRecord

abbrev pub empty_tables : Tables
empty_tables = record { counters = []; reservations = [] }

-- An exception of the store itself, the NoResultFound of `result.one()`, or the DBAPIError for a value
-- that a column does not hold.
pub data DbError : Type 0 where
  raises : Exception → DbError
  no_result_found data_error : DbError

abbrev pub Reply : Type 0 → Type 0
Reply A = Result DbError A × Tables

abbrev pub record_key : QuotaReservationRecord → CounterKey
record_key r = (r.subject_id, (r.resource, r.window_key))

-- The columns of `uq_quota_reservations_idempotency`; a row with a NULL conflicts with none.
abbrev pub record_idempotency : QuotaReservationRecord → Option IdempotencyKey
record_idempotency r = elim r.idempotency_key [
  | none ↦ none
  | some k ↦ some (r.subject_id, (r.resource, (r.window_key, k)))
]

abbrev same_key : Option IdempotencyKey → IdempotencyKey → Bool
same_key none k = false
same_key (some j) k = j == k

-- `SELECT … WHERE` the four columns are equal: the row, if there is one.
unfoldable pub find_key :
    IdempotencyKey → Dict String QuotaReservationRecord → Option QuotaReservationRecord
find_key k [] = none
find_key k ((_, r) ∷ d) = if same_key (record_idempotency r) k then some r else find_key k d

abbrev pub find_row :
    Option IdempotencyKey → Dict String QuotaReservationRecord → Option QuotaReservationRecord
find_row none d = none
find_row (some k) d = find_key k d

-- `_find_idempotent_reservation`
abbrev find_idempotent_reservation : ReserveQuota → Tables → Option QuotaReservationRecord
find_idempotent_reservation c t = find_row (idempotency_key c) t.reservations

-- `_usage_from_row`
unfoldable pub usage_from_row : QuotaCounter → QuotaUsage
usage_from_row c = record {
  subject_id = c.subject_id;
  resource = c.resource;
  window_key = c.window_key;
  used = c.used;
  limit = c.limit;
  remaining = max (c.limit - c.used) 0;
  reset_at = c.reset_at;
}

abbrev one_row : Option QuotaCounter → Result DbError QuotaUsage
one_row none = err no_result_found
one_row (some c) = ok (usage_from_row c)

-- `_usage_for_reservation`
unfoldable pub usage_for_reservation : QuotaReservationRecord → Tables → Result DbError QuotaUsage
unfolding usage_from_row
usage_for_reservation r t = one_row (lookup (record_key r) t.counters)

abbrev pub with_usage : QuotaReservationRecord → QuotaUsage → QuotaReservation
with_usage r u = record {
  id = r.id;
  subject_id = r.subject_id;
  resource = r.resource;
  window_key = r.window_key;
  cost = r.cost;
  status = r.status;
  usage = u;
  idempotency_key = r.idempotency_key;
}

-- `_to_reservation`
abbrev to_reservation : QuotaReservationRecord → Tables → Result DbError (Option QuotaReservation)
to_reservation r t = elim (usage_for_reservation r t) [
  | err e ↦ err e
  | ok u ↦ ok (some (with_usage r u))
]

-- The end of a transaction: a commit, or the rollback to the tables before.
abbrev ended : {A : Type 0} → Result DbError A → Tables → Tables → Reply A
ended (ok a) before t = (ok a, t)
ended (err e) before t = (err e, before)

abbrev pub new_counter : ReserveQuota → QuotaCounter
new_counter c = record {
  subject_id = c.subject_id;
  resource = c.resource;
  window_key = c.window_key;
  used = 0;
  limit = c.limit;
  reset_at = c.reset_at;
}

abbrev upserted : ReserveQuota → Option QuotaCounter → QuotaCounter
upserted c none = new_counter c
upserted c (some counter) = record counter { limit = c.limit; reset_at = c.reset_at }

-- `_ensure_counter`: `INSERT … ON CONFLICT DO UPDATE`.
unfoldable pub ensure_counter : ReserveQuota → Tables → Tables
ensure_counter c t = record t {
  counters = insert (command_key c) (upserted c (lookup (command_key c) t.counters)) t.counters;
}

abbrev pub new_record : ReserveQuota → QuotaReservationRecord
new_record c = record {
  id = c.reservation_id;
  subject_id = c.subject_id;
  resource = c.resource;
  window_key = c.window_key;
  cost = c.cost;
  status = reserved;
  idempotency_key = c.idempotency_key;
  reset_at = c.reset_at;
}

-- `INSERT … ON CONFLICT DO NOTHING RETURNING id`: whether the row went in, and the tables.
unfoldable pub insert_reservation : ReserveQuota → Tables → Bool × Tables
unfolding find_key
insert_reservation c t =
    if is_some (lookup c.reservation_id t.reservations)
      || is_some (find_row (idempotency_key c) t.reservations)
    then (false, t)
    else (true, record t { reservations = insert c.reservation_id (new_record c) t.reservations })

abbrev pub incremented : ReserveQuota → QuotaCounter → QuotaCounter
incremented c counter = record counter {
  used = counter.used + c.cost;
  limit = c.limit;
  reset_at = c.reset_at;
}

abbrev increment_row : ReserveQuota → Option QuotaCounter → Tables → Reply (Option QuotaUsage)
increment_row c none t = (ok none, t)
increment_row c (some counter) t =
    if not (leb (counter.used + c.cost) max_integer)
    then (err data_error, t)
    else if leb (counter.used + c.cost) c.limit
    then (
      ok (some (usage_from_row (incremented c counter))),
      record t { counters = insert (command_key c) (incremented c counter) t.counters },
    )
    else (ok none, t)

-- `_try_increment_counter`
unfoldable pub try_increment_counter : ReserveQuota → Tables → Reply (Option QuotaUsage)
unfolding usage_from_row
try_increment_counter c t = increment_row c (lookup (command_key c) t.counters) t

-- From the increment on: the reservation, or the row is deleted again.
abbrev charge_reservation :
    ReserveQuota → Tables → Reply (Option QuotaUsage) → Reply (Option QuotaReservation)
charge_reservation c before (err e, t) = (err e, before)
charge_reservation c before (ok none, t) =
    (ok none, record t { reservations = erase c.reservation_id t.reservations })
charge_reservation c before (ok (some usage), t) = (ok (some (with_usage (new_record c) usage)), t)

-- The row that won a race for the idempotency key.
abbrev winner : Option QuotaReservationRecord → Tables → Result DbError (Option QuotaReservation)
winner none t = err (raises runtime_error)
winner (some r) t = to_reservation r t

abbrev after_insert : ReserveQuota → Tables → Bool × Tables → Reply (Option QuotaReservation)
after_insert c before (false, t) = ended (winner (find_idempotent_reservation c t) t) before t
after_insert c before (true, t) = charge_reservation c before (try_increment_counter c t)

abbrev holds_key : Option String → Bool
holds_key none = true
holds_key (some key) = leb (count key) 255

-- Whether the columns of both rows hold the values of a command. A text without a NUL is assumed.
unfoldable pub fits_columns : ReserveQuota → Bool
fits_columns c =
    (leb (count c.subject_id) 255 && leb (count c.resource) 255 && leb (count c.window_key) 64)
    && (leb (count c.reservation_id) 36 && holds_key c.idempotency_key)
    && (leb c.limit max_integer && leb c.cost max_integer)

abbrev reserve_unless :
    ReserveQuota → Option QuotaReservationRecord → Tables → Reply (Option QuotaReservation)
reserve_unless c (some existing) t = ended (to_reservation existing t) t t
reserve_unless c none t =
    if fits_columns c
    then after_insert c t (insert_reservation c (ensure_counter c t))
    else (err data_error, t)

unfoldable pub reserve : ReserveQuota → Tables → Reply (Option QuotaReservation)
unfolding find_key ensure_counter insert_reservation try_increment_counter usage_for_reservation
    fits_columns
reserve c t = reserve_unless c (find_idempotent_reservation c t) t

abbrev pub with_status : QuotaReservationStatus → QuotaReservationRecord → QuotaReservationRecord
with_status st r = record r { status = st }

abbrev claim_row :
    QuotaReservationStatus
    → String
    → Option QuotaReservationRecord
    → Tables
    → Option QuotaReservationRecord × Tables
claim_row st id none t = (none, t)
claim_row st id (some r) t = elim r.status [
  | reserved ↦ (
    some (with_status st r),
    record t { reservations = insert id (with_status st r) t.reservations },
  )
  | finalized ↦ (none, t)
  | refunded ↦ (none, t)
]

-- `_claim_reserved`: the row as the update leaves it, if its status was RESERVED.
unfoldable pub claim_reserved :
    QuotaReservationStatus → String → Tables → Option QuotaReservationRecord × Tables
claim_reserved st id t = claim_row st id (lookup id t.reservations) t

-- A call for a reservation that is not RESERVED, where `barred` is the status that it raises for.
abbrev settled_row :
    (QuotaReservationStatus → Bool)
    → Option QuotaReservationRecord
    → Tables
    → Result DbError QuotaUsage
settled_row barred none t = err (raises key_error)
settled_row barred (some r) t =
    if barred r.status then err (raises value_error) else usage_for_reservation r t

abbrev is_refunded : QuotaReservationStatus → Bool
is_refunded st = elim st [ refunded ↦ true | _ ↦ false ]

abbrev is_finalized : QuotaReservationStatus → Bool
is_finalized st = elim st [ finalized ↦ true | _ ↦ false ]

abbrev finalize_claimed :
    String → Tables → Option QuotaReservationRecord × Tables → Reply QuotaUsage
finalize_claimed id before (some claimed, t) = ended (usage_for_reservation claimed t) before t
finalize_claimed id before (none, t) =
    ended (settled_row is_refunded (lookup id t.reservations) t) before t

unfoldable pub finalize : String → Tables → Reply QuotaUsage
unfolding claim_reserved usage_for_reservation
finalize id t = finalize_claimed id t (claim_reserved finalized id t)

abbrev pub decremented : QuotaReservationRecord → QuotaCounter → QuotaCounter
decremented r counter = record counter {
  used = if leb r.cost counter.used then counter.used - r.cost else 0;
}

abbrev refund_row :
    QuotaReservationRecord → Tables → Option QuotaCounter → Tables → Reply QuotaUsage
refund_row r before none t = (err no_result_found, before)
refund_row r before (some counter) t = (
  ok (usage_from_row (decremented r counter)),
  record t { counters = insert (record_key r) (decremented r counter) t.counters },
)

abbrev refund_claimed : String → Tables → Option QuotaReservationRecord × Tables → Reply QuotaUsage
refund_claimed id before (none, t) =
    ended (settled_row is_finalized (lookup id t.reservations) t) before t
refund_claimed id before (some claimed, t) =
    refund_row claimed before (lookup (record_key claimed) t.counters) t

unfoldable pub refund : String → Tables → Reply QuotaUsage
unfolding claim_reserved usage_for_reservation usage_from_row
refund id t = refund_claimed id t (claim_reserved refunded id t)

abbrev usage_unused : QuotaUsageQuery → QuotaUsage
usage_unused q = record {
  subject_id = q.subject_id;
  resource = q.resource;
  window_key = q.window_key;
  used = 0;
  limit = q.limit;
  remaining = q.limit;
  reset_at = q.reset_at;
}

unfoldable pub get_usage : QuotaUsageQuery → Tables → QuotaUsage
unfolding usage_from_row
get_usage q t = elim (lookup (query_key q) t.counters) [
  | none ↦ usage_unused q
  | some c ↦ usage_from_row c
]

-- The two `DELETE`s, for a test on subject and resource of what stays.
abbrev delete_rows : (String → String → Bool) → Tables → Tables
delete_rows stays t = record {
  counters = keep (λ k _. stays k.0 k.1.0) t.counters;
  reservations = keep (λ _ r. stays r.subject_id r.resource) t.reservations;
}

unfoldable pub reset_usage : QuotaUsageQuery → Tables → QuotaUsage × Tables
unfolding keep
reset_usage q t =
    (usage_unused q, delete_rows (λ s r. not (s == q.subject_id) || not (r == q.resource)) t)

unfoldable pub reset_resource : String → Tables → Tables
unfolding keep
reset_resource resource t = delete_rows (λ s r. not (r == resource)) t
