-- ===== src/Quota/Memory/Invariant/Methods.antt =====
-- Every method of the quota store keeps the books balanced.
use ai_platform_template.Base.{
  ◌+◌, ◌≡◌, refl, String, Bool, Option, none, some, arith, Option-cases, inl, inr, if_intro, ltb,
}
use ai_platform_template.Base.Eq.{==_iff, ==_refl, string_eq, pair_eq}
use ai_platform_template.Dict.{lookup, insert}
use ai_platform_template.Dict.Laws.{lookup-insert}
use ai_platform_template.Quota.Models.{
  QuotaReservationStatus, reserved, finalized, refunded, QuotaReservation, ReserveQuota,
  QuotaUsageQuery,
}
use ai_platform_template.Quota.Memory.{
  IdempotencyKey, Counter, MemoryQuotaStore, Reply, reservation_key, command_key, query_key,
  reserve, finalize, refund, get_usage, reset_usage, reset_resource, differs, differs_resource,
  empty_store, finalize_on, finalize_found, refund_on, refund_found, reserve_on, granted, charged,
  released, usage_from_counter, remember, idempotency_key, counter_for, new_counter, existing_id,
  reserve_open, finalize_open, refund_open, get_usage_open, updated,
}
use ai_platform_template.Quota.Memory.Charges.{
  charges-insert_new, charges-insert, cost_of-le-charges, charges_nil,
}
use ai_platform_template.Quota.Memory.Invariant.{
  IsBalanced, put_counter, put_memory, booked-IsBalanced, restrict-IsBalanced,
}

abbrev Kept : {A : Type 0} → Reply A → Type 0
Kept m = IsBalanced m.1

-- The writes of the methods, each on its own.
finalize_on-Kept :
    (r : QuotaReservation) (o : Option Counter) (s : MemoryQuotaStore)
    → lookup r.id s.reservations ≡ some r
    → lookup (reservation_key r) s.counters ≡ o
    → r.status ≡ reserved
    → IsBalanced s
    → Kept (finalize_on r o s)
finalize_on-Kept r none s found q st b = b
finalize_on-Kept r (some c) s found q st b =
    booked-IsBalanced s s.counters r.id
      (record r { status = finalized; usage = usage_from_counter c }) refl
      (λ k. ground (
        arith,
        charges-insert r.id s.reservations k r
            (record r { status = finalized; usage = usage_from_counter c }) found refl,
        b.accounted k,
      ))
      (λ k h. h) (ground arith) (λ old q. ground (arith, found)) b

refund_on-Kept :
    (r : QuotaReservation) (o : Option Counter) (s : MemoryQuotaStore)
    → lookup r.id s.reservations ≡ some r
    → lookup (reservation_key r) s.counters ≡ o
    → r.status ≡ reserved
    → IsBalanced s
    → Kept (refund_on r o s)
refund_on-Kept r none s found q st b = b
refund_on-Kept r (some c) s found q st b =
    let r' = record r { status = refunded; usage = usage_from_counter (released r c) } in
    booked-IsBalanced s (insert (reservation_key r) (released r c) s.counters) r.id r' refl
      (λ k. ground (
        arith,
        charges-insert r.id s.reservations k r r' found refl,
        lookup-insert (reservation_key r) k (released r c) s.counters,
        ==_iff (reservation_key r) k,
        cost_of-le-charges r.id s.reservations r found,
        b.accounted k,
        b.accounted (reservation_key r),
      ))
      (λ k h. ground (arith, lookup-insert (reservation_key r) k (released r c) s.counters))
      (ground (
        arith,
        lookup-insert (reservation_key r) (reservation_key r) (released r c) s.counters,
        ==_refl (reservation_key r),
      ))
      (λ old q. ground (arith, found)) b

-- A granted reservation, before it is remembered under its idempotency key.
granted-IsBalanced :
    (c : ReserveQuota) (counter : Counter) (s : MemoryQuotaStore)
    → lookup (command_key c) s.counters ≡ some counter
    → lookup c.reservation_id s.reservations ≡ none
    → IsBalanced s
    → IsBalanced (record s {
      counters = insert (command_key c) (charged c counter) s.counters;
      reservations = insert c.reservation_id (granted c counter) s.reservations;
    })
granted-IsBalanced c counter s q fresh b =
    booked-IsBalanced s (insert (command_key c) (charged c counter) s.counters) c.reservation_id
      (granted c counter) refl
      (λ k. ground (
        arith,
        charges-insert_new c.reservation_id s.reservations k (granted c counter) fresh,
        lookup-insert (command_key c) k (charged c counter) s.counters,
        ==_iff (command_key c) k,
        b.accounted k,
      ))
      (λ k h. ground (arith, lookup-insert (command_key c) k (charged c counter) s.counters))
      (ground (
        arith,
        lookup-insert (command_key c) (command_key c) (charged c counter) s.counters,
        ==_refl (command_key c),
      ))
      (λ old h. ground (arith, fresh)) b

remember-IsBalanced :
    (o : Option IdempotencyKey) (r : QuotaReservation) (s : MemoryQuotaStore)
    → lookup r.id s.reservations ≡ some r
    → ((k : IdempotencyKey) → o ≡ some k → (r.subject_id ≡ k.0) × (r.resource ≡ k.1.0))
    → IsBalanced s
    → IsBalanced (record s { idempotency = remember o r.id s.idempotency })
remember-IsBalanced none r s found key b = b
remember-IsBalanced (some k) r s found key b =
    put_memory k r.id r s found (key k refl).0 (key k refl).1 b

reserve_on-Kept :
    (c : ReserveQuota) (counter : Counter) (s : MemoryQuotaStore)
    → lookup (command_key c) s.counters ≡ some counter
    → lookup c.reservation_id s.reservations ≡ none
    → IsBalanced s
    → Kept (reserve_on c (counter, s))
reserve_on-Kept c counter s q fresh b = if_intro Kept (ltb c.limit (counter.used + c.cost)) _ _ b (
    remember-IsBalanced (idempotency_key c) (granted c counter)
      (record s {
        counters = insert (command_key c) (charged c counter) s.counters;
        reservations = insert c.reservation_id (granted c counter) s.reservations;
      })
      (ground (
        arith,
        lookup-insert c.reservation_id c.reservation_id (granted c counter) s.reservations,
        ==_refl c.reservation_id,
      ))
      (λ k h. ground arith) (granted-IsBalanced c counter s q fresh b))

counter_for-Kept :
    (c : ReserveQuota) (s : MemoryQuotaStore)
    → lookup c.reservation_id s.reservations ≡ none
    → IsBalanced s
    → Kept (reserve_on c (counter_for c s))
counter_for-Kept c s fresh b = elim (Option-cases (lookup (command_key c) s.counters)) [
  | inl missing ↦
      rw (missing, counter_for)
        (reserve_on-Kept c (new_counter c)
          (record s { counters = insert (command_key c) (new_counter c) s.counters })
          (ground (
            arith,
            lookup-insert (command_key c) (command_key c) (new_counter c) s.counters,
            ==_refl (command_key c),
          ))
          fresh (put_counter (command_key c) (new_counter c) s (ground arith) b))
  | inr (counter, q) ↦ rw (q, counter_for) (reserve_on-Kept c counter s q fresh b)
]

-- `reserve` with a fresh reservation id keeps the books.
pub reserve-IsBalanced :
    (c : ReserveQuota) (s : MemoryQuotaStore)
    → lookup c.reservation_id s.reservations ≡ none
    → IsBalanced s
    → IsBalanced (reserve c s).1
unfolding reserve
reserve-IsBalanced c s fresh b =
    if_intro Kept s.closed _ _ b (elim (Option-cases (existing_id (idempotency_key c) s)) [
      | inl unknown ↦ rw (unknown, reserve_open) (counter_for-Kept c s fresh b)
      | inr (id, q) ↦ rw (q, reserve_open) b
    ])

finalize_found-Kept :
    (id : String) (r : QuotaReservation) (s : MemoryQuotaStore)
    → lookup id s.reservations ≡ some r
    → IsBalanced s
    → Kept (finalize_found r s)
finalize_found-Kept id r s q b = by_status r.status refl
  where
    by_status : (st : QuotaReservationStatus) → r.status ≡ st → Kept (finalize_found r s)
    by_status refunded e = rw (e, finalize_found) b
    by_status finalized e = rw (e, finalize_found) b
    by_status reserved e =
        rw (e, finalize_found)
          (finalize_on-Kept r (lookup (reservation_key r) s.counters) s
            (ground (arith, b.own_id id r)) refl e b)

-- `finalize` keeps the books.
pub finalize-IsBalanced :
    (id : String) (s : MemoryQuotaStore) → IsBalanced s → IsBalanced (finalize id s).1
unfolding finalize
finalize-IsBalanced id s b =
    if_intro Kept s.closed _ _ b (elim (Option-cases (lookup id s.reservations)) [
      | inl unknown ↦ rw (unknown, finalize_open) b
      | inr (r, q) ↦ rw (q, finalize_open) (finalize_found-Kept id r s q b)
    ])

refund_found-Kept :
    (id : String) (r : QuotaReservation) (s : MemoryQuotaStore)
    → lookup id s.reservations ≡ some r
    → IsBalanced s
    → Kept (refund_found r s)
refund_found-Kept id r s q b = by_status r.status refl
  where
    by_status : (st : QuotaReservationStatus) → r.status ≡ st → Kept (refund_found r s)
    by_status refunded e = rw (e, refund_found) b
    by_status finalized e = rw (e, refund_found) b
    by_status reserved e =
        rw (e, refund_found)
          (refund_on-Kept r (lookup (reservation_key r) s.counters) s
            (ground (arith, b.own_id id r)) refl e b)

-- `refund` keeps the books.
pub refund-IsBalanced :
    (id : String) (s : MemoryQuotaStore) → IsBalanced s → IsBalanced (refund id s).1
unfolding refund
refund-IsBalanced id s b =
    if_intro Kept s.closed _ _ b (elim (Option-cases (lookup id s.reservations)) [
      | inl unknown ↦ rw (unknown, refund_open) b
      | inr (r, q) ↦ rw (q, refund_open) (refund_found-Kept id r s q b)
    ])

-- `get_usage` keeps the books.
pub get_usage-IsBalanced :
    (q : QuotaUsageQuery) (s : MemoryQuotaStore) → IsBalanced s → IsBalanced (get_usage q s).1
unfolding get_usage
get_usage-IsBalanced q s b =
    if_intro Kept s.closed _ _ b (elim (Option-cases (lookup (query_key q) s.counters)) [
      | inl unknown ↦ rw (unknown, get_usage_open) b
      | inr (c, e) ↦
          rw (e, get_usage_open) (put_counter (query_key q) (updated q c) s (ground arith) b)
    ])

-- `reset_usage` keeps the books.
pub reset_usage-IsBalanced :
    (q : QuotaUsageQuery) (s : MemoryQuotaStore) → IsBalanced s → IsBalanced (reset_usage q s).1
unfolding reset_usage
reset_usage-IsBalanced q s b =
    if_intro Kept s.closed _ _ b (restrict-IsBalanced (differs q.subject_id q.resource) s b)

-- `reset_resource` keeps the books.
pub reset_resource-IsBalanced :
    (resource : String) (s : MemoryQuotaStore)
    → IsBalanced s
    → IsBalanced (reset_resource resource s).1
unfolding reset_resource
reset_resource-IsBalanced resource s b =
    if_intro Kept s.closed _ _ b (restrict-IsBalanced (differs_resource resource) s b)

-- The empty books balance; so do those of a closed store.
pub empty-IsBalanced : (closed : Bool) → IsBalanced (record empty_store { closed = closed })
unfolding lookup
empty-IsBalanced closed = record {
  unique = tt;
  accounted = λ k. charges_nil k;
  has_counter = λ id r q. cc;
  own_id = λ id r q. cc;
  remembered = λ k id q. absurd (cc);
}
