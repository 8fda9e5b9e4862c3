-- ===== src/Quota/Memory.antt =====
-- app/modules/platform/quota/adapters/memory.py: MemoryQuotaStore. A method runs under the store's
-- lock, so it is one step from store to store; what was written before a raise stays written.
pub mod Charges
pub mod Invariant
pub mod Requests
pub mod Laws
use ai_platform_template.Base.{
  ℕ, ◌+◌, ◌-◌, max, String, Bool, true, false, not, ◌&&◌, ◌||◌, Option, none, some, [], ltb,
  if◌then◌else◌,
}
use ai_platform_template.Base.Eq.{◌==◌, string_eq, pair_eq}
use ai_platform_template.Base.Result.{
  Exception, value_error, key_error, runtime_error, Result, ok, err,
}
use ai_platform_template.Dict.{Dict, lookup, insert, keep}
use ai_platform_template.Quota.Models.{
  QuotaReservationStatus, reserved, finalized, refunded, QuotaUsage, QuotaReservation, ReserveQuota,
  QuotaUsageQuery,
}

-- (subject_id, resource, window_key)
abbrev pub CounterKey : Type 0
CounterKey = String × (String × String)

-- (subject_id, resource, window_key, idempotency_key)
abbrev pub IdempotencyKey : Type 0
IdempotencyKey = String × (String × (String × String))

pub record Counter : Type 0 where
  pub subject_id : String
  pub resource : String
  pub window_key : String
  pub used : ℕ
  pub limit : ℕ
  pub reset_at : ℕ

pub record MemoryQuotaStore : Type 0 where
  pub counters : Dict CounterKey Counter
  pub reservations : Dict String QuotaReservation
  pub idempotency : Dict IdempotencyKey String
  pub closed : Bool

abbrev pub empty_store : MemoryQuotaStore
empty_store = record { counters = []; reservations = []; idempotency = []; closed = false }

-- A method: the value or the exception, and the store that it leaves.
abbrev pub Reply : Type 0 → Type 0
Reply A = Result Exception A × MemoryQuotaStore

-- `_ensure_open`
abbrev when_open : {A : Type 0} → (MemoryQuotaStore → Reply A) → MemoryQuotaStore → Reply A
when_open body s = if s.closed then (err runtime_error, s) else body s

unfoldable pub usage_from_counter : Counter → QuotaUsage
usage_from_counter c = record {
  subject_id = c.subject_id;
  resource = c.resource;
  window_key = c.window_key;
  used = c.used;
  limit = c.limit;
  remaining = max (c.limit - c.used) 0;
  reset_at = c.reset_at;
}

unfoldable pub usage_from_query : QuotaUsageQuery → QuotaUsage
usage_from_query q = record {
  subject_id = q.subject_id;
  resource = q.resource;
  window_key = q.window_key;
  used = 0;
  limit = q.limit;
  remaining = q.limit;
  reset_at = q.reset_at;
}

abbrev pub command_key : ReserveQuota → CounterKey
command_key c = (c.subject_id, (c.resource, c.window_key))

abbrev pub reservation_key : QuotaReservation → CounterKey
reservation_key r = (r.subject_id, (r.resource, r.window_key))

abbrev pub new_counter : ReserveQuota → Counter
new_counter c = record {
  subject_id = c.subject_id;
  resource = c.resource;
  window_key = c.window_key;
  used = 0;
  limit = c.limit;
  reset_at = c.reset_at;
}

-- `_counter_for`: the counter, and the store, which gets the counter if it was not there.
abbrev pub counter_for : ReserveQuota → MemoryQuotaStore → Counter × MemoryQuotaStore
counter_for c s = elim (lookup (command_key c) s.counters) [
  | some counter ↦ (counter, s)
  | none ↦
      (new_counter c, record s { counters = insert (command_key c) (new_counter c) s.counters })
]

abbrev pub idempotency_key : ReserveQuota → Option IdempotencyKey
idempotency_key c = elim c.idempotency_key [
  | none ↦ none
  | some k ↦ some (c.subject_id, (c.resource, (c.window_key, k)))
]

abbrev pub existing_id : Option IdempotencyKey → MemoryQuotaStore → Option String
existing_id none s = none
existing_id (some k) s = lookup k s.idempotency

abbrev pub remember :
    Option IdempotencyKey → String → Dict IdempotencyKey String → Dict IdempotencyKey String
remember none id d = d
remember (some k) id d = insert k id d

abbrev pub charged : ReserveQuota → Counter → Counter
charged c counter = record counter {
  used = counter.used + c.cost;
  limit = c.limit;
  reset_at = c.reset_at;
}

abbrev pub granted : ReserveQuota → Counter → QuotaReservation
granted c counter = record {
  id = c.reservation_id;
  subject_id = c.subject_id;
  resource = c.resource;
  window_key = c.window_key;
  cost = c.cost;
  status = reserved;
  usage = usage_from_counter (charged c counter);
  idempotency_key = c.idempotency_key;
}

-- `reserve` from the quota check on, given the counter.
abbrev pub reserve_on : ReserveQuota → Counter × MemoryQuotaStore → Reply (Option QuotaReservation)
reserve_on c (counter, s) = if ltb c.limit (counter.used + c.cost) then (ok none, s) else (
  ok (some (granted c counter)),
  record s {
    counters = insert (command_key c) (charged c counter) s.counters;
    reservations = insert c.reservation_id (granted c counter) s.reservations;
    idempotency = remember (idempotency_key c) c.reservation_id s.idempotency;
  },
)

-- `self._reservations[reservation_id]`
abbrev require_reservation : String → MemoryQuotaStore → Result Exception QuotaReservation
require_reservation id s = elim (lookup id s.reservations) [ none ↦ err key_error | some r ↦ ok r ]

abbrev replay : String → MemoryQuotaStore → Result Exception (Option QuotaReservation)
replay id s = elim (lookup id s.reservations) [ none ↦ err key_error | some r ↦ ok (some r) ]

abbrev reserve_open : ReserveQuota → MemoryQuotaStore → Reply (Option QuotaReservation)
reserve_open c s = elim (existing_id (idempotency_key c) s) [
  | some id ↦ (replay id s, s)
  | none ↦ reserve_on c (counter_for c s)
]

unfoldable pub reserve : ReserveQuota → MemoryQuotaStore → Reply (Option QuotaReservation)
reserve c = when_open (reserve_open c)

-- The write of `finalize`, for a reservation that is RESERVED; the counter may be missing.
abbrev finalize_on : QuotaReservation → Option Counter → MemoryQuotaStore → Reply QuotaUsage
finalize_on r none s = (err key_error, s)
finalize_on r (some counter) s = (
  ok (usage_from_counter counter),
  record s {
    reservations =
        insert r.id (record r { status = finalized; usage = usage_from_counter counter })
          s.reservations;
  },
)

abbrev finalize_found : QuotaReservation → MemoryQuotaStore → Reply QuotaUsage
finalize_found r s = elim r.status [
  | refunded ↦ (err value_error, s)
  | reserved ↦ finalize_on r (lookup (reservation_key r) s.counters) s
  | finalized ↦ (ok r.usage, s)
]

abbrev finalize_open : String → MemoryQuotaStore → Reply QuotaUsage
finalize_open id s = elim (lookup id s.reservations) [
  | none ↦ (err key_error, s)
  | some r ↦ finalize_found r s
]

unfoldable pub finalize : String → MemoryQuotaStore → Reply QuotaUsage
finalize id = when_open (finalize_open id)

-- Python's `max(counter.used - reservation.cost, 0)` is subtraction that stops at 0.
abbrev pub released : QuotaReservation → Counter → Counter
released r counter = record counter { used = counter.used - r.cost }

abbrev refund_on : QuotaReservation → Option Counter → MemoryQuotaStore → Reply QuotaUsage
refund_on r none s = (err key_error, s)
refund_on r (some counter) s = (
  ok (usage_from_counter (released r counter)),
  record s {
    counters = insert (reservation_key r) (released r counter) s.counters;
    reservations =
        insert r.id
          (record r { status = refunded; usage = usage_from_counter (released r counter) })
          s.reservations;
  },
)

abbrev refund_found : QuotaReservation → MemoryQuotaStore → Reply QuotaUsage
refund_found r s = elim r.status [
  | finalized ↦ (err value_error, s)
  | refunded ↦ (ok r.usage, s)
  | reserved ↦ refund_on r (lookup (reservation_key r) s.counters) s
]

abbrev refund_open : String → MemoryQuotaStore → Reply QuotaUsage
refund_open id s = elim (lookup id s.reservations) [
  | none ↦ (err key_error, s)
  | some r ↦ refund_found r s
]

unfoldable pub refund : String → MemoryQuotaStore → Reply QuotaUsage
refund id = when_open (refund_open id)

abbrev pub query_key : QuotaUsageQuery → CounterKey
query_key q = (q.subject_id, (q.resource, q.window_key))

abbrev updated : QuotaUsageQuery → Counter → Counter
updated q counter = record counter { limit = q.limit; reset_at = q.reset_at }

abbrev get_usage_open : QuotaUsageQuery → MemoryQuotaStore → Reply QuotaUsage
get_usage_open q s = elim (lookup (query_key q) s.counters) [
  | none ↦ (ok (usage_from_query q), s)
  | some counter ↦ (
    ok (usage_from_counter (updated q counter)),
    record s { counters = insert (query_key q) (updated q counter) s.counters },
  )
]

unfoldable pub get_usage : QuotaUsageQuery → MemoryQuotaStore → Reply QuotaUsage
unfolding usage_from_query
get_usage q = when_open (get_usage_open q)

-- The three comprehensions of `reset_usage` and `reset_resource`, for a test on subject and resource
-- of what stays.
abbrev restrict : (String → String → Bool) → MemoryQuotaStore → MemoryQuotaStore
restrict stays s = record s {
  counters = keep (λ k _. stays k.0 k.1.0) s.counters;
  reservations = keep (λ _ r. stays r.subject_id r.resource) s.reservations;
  idempotency = keep (λ k _. stays k.0 k.1.0) s.idempotency;
}

abbrev pub differs : String → String → String → String → Bool
differs subject_id resource s r = not (s == subject_id) || not (r == resource)

abbrev pub differs_resource : String → String → String → Bool
differs_resource resource s r = not (r == resource)

abbrev reset_usage_open : QuotaUsageQuery → MemoryQuotaStore → Reply QuotaUsage
reset_usage_open q s = (ok (usage_from_query q), restrict (differs q.subject_id q.resource) s)

unfoldable pub reset_usage : QuotaUsageQuery → MemoryQuotaStore → Reply QuotaUsage
unfolding keep
reset_usage q = when_open (reset_usage_open q)

abbrev reset_resource_open : String → MemoryQuotaStore → Reply (Unit {0})
reset_resource_open resource s = (ok tt, restrict (differs_resource resource) s)

unfoldable pub reset_resource : String → MemoryQuotaStore → Reply (Unit {0})
reset_resource resource = when_open (reset_resource_open resource)

unfoldable pub close : MemoryQuotaStore → MemoryQuotaStore
close s = record { counters = []; reservations = []; idempotency = []; closed = true }
