-- ===== src/Quota/Memory/Invariant.antt =====
-- The books of the quota store balance: each counter holds what the live reservations charge to it,
-- and every reference finds its entry. Every method keeps this.
pub mod Methods
use ai_platform_template.Base.{
  ℕ, ◌+◌, ◌-◌, ◌≤◌, ◌≡◌, ◌≢◌, refl, String, Bool, true, false, not, Option, none, some, arith,
  Bool-cases, Option-cases, inl, inr, is_some, if◌then◌else◌,
}
use ai_platform_template.Base.Eq.{◌==◌, ==_iff, ==_refl, string_eq, pair_eq}
use ai_platform_template.Dict.{Dict, lookup, insert, keep}
use ai_platform_template.Dict.Laws.{lookup-insert, lookup-keep-some, lookup-keep_keys}
use ai_platform_template.Dict.Unique.{IsUnique, insert-IsUnique, keep-IsUnique, lookup-keep_inv}
use ai_platform_template.Quota.Models.{
  QuotaReservationStatus, reserved, finalized, refunded, QuotaUsage, QuotaReservation, ReserveQuota,
  QuotaUsageQuery,
}
use ai_platform_template.Quota.Memory.{
  CounterKey, IdempotencyKey, Counter, MemoryQuotaStore, reservation_key, command_key, query_key,
  reserve, finalize, refund, get_usage, reset_usage, reset_resource, close, differs, empty_store,
}
use ai_platform_template.Quota.Memory.Charges.{
  cost_of, charges, used_at, charges-insert_new, charges-insert, cost_of-le-charges, charges-keep,
}

pub record IsBalanced (s : MemoryQuotaStore) : Type 0 where
  pub unique : IsUnique s.reservations
  pub accounted : (k : CounterKey) → used_at k s.counters ≡ charges k s.reservations
  pub has_counter :
      (id : String) (r : QuotaReservation)
      → lookup id s.reservations ≡ some r
      → is_some (lookup (reservation_key r) s.counters) ≡ true
  pub own_id : (id : String) (r : QuotaReservation) → lookup id s.reservations ≡ some r → r.id ≡ id
  pub remembered :
      (k : IdempotencyKey) (id : String)
      → lookup k s.idempotency ≡ some id
      → (r : QuotaReservation) × (lookup id s.reservations ≡ some r)
        × (r.subject_id ≡ k.0)
        × (r.resource ≡ k.1.0)

-- A write to a counter that leaves its `used` as it was (0 for a new counter).
pub put_counter :
    (k : CounterKey) (c : Counter) (s : MemoryQuotaStore)
    → c.used ≡ used_at k s.counters
    → IsBalanced s
    → IsBalanced (record s { counters = insert k c s.counters })
put_counter k c s h b = record {
  accounted =
      λ j. ground (arith, lookup-insert k j c s.counters, ==_iff k j, b.accounted j, b.accounted k);
  has_counter = λ id r q.
      ground (arith, lookup-insert k (reservation_key r) c s.counters, b.has_counter id r q);
  unique = b.unique;
  own_id = b.own_id;
  remembered = b.remembered;
}

-- A write to a reservation, with the counters that go with it.
module _ (s : MemoryQuotaStore) (counters : Dict CounterKey Counter) (id : String)
    (r : QuotaReservation) where
  booked_reservation :
      {subject resource : String} (i : String)
      → (x : QuotaReservation) × (lookup i s.reservations ≡ some x)
        × (x.subject_id ≡ subject)
        × (x.resource ≡ resource)
      → ((old : QuotaReservation)
          → lookup id s.reservations ≡ some old
          → reservation_key old ≡ reservation_key r)
      → (x : QuotaReservation) × (lookup i (insert id r s.reservations) ≡ some x)
        × (x.subject_id ≡ subject)
        × (x.resource ≡ resource)
  booked_reservation i x same = elim (Bool-cases (id == i)) [
    | inl new ↦
        let e : reservation_key x.0 ≡ reservation_key r =
          same x.0 (ground (arith, ==_iff id i, x.1)) in
        (
          r,
          ground (arith, lookup-insert id i r s.reservations),
          ground (arith, e, x.2),
          ground (arith, e, x.3),
        )
    | inr old ↦ (x.0, ground (arith, lookup-insert id i r s.reservations, x.1), x.2, x.3)
  ]

  pub booked-IsBalanced :
      r.id ≡ id
      → ((k : CounterKey) → used_at k counters ≡ charges k (insert id r s.reservations))
      → ((k : CounterKey)
          → is_some (lookup k s.counters) ≡ true
          → is_some (lookup k counters) ≡ true)
      → is_some (lookup (reservation_key r) counters) ≡ true
      → ((old : QuotaReservation)
          → lookup id s.reservations ≡ some old
          → reservation_key old ≡ reservation_key r)
      → IsBalanced s
      → IsBalanced (record s { counters = counters; reservations = insert id r s.reservations })
  booked-IsBalanced own sums more here same b = record {
    unique = insert-IsUnique id r s.reservations b.unique;
    accounted = sums;
    has_counter = λ i x q. ground (
      arith,
      lookup-insert id i r s.reservations,
      b.has_counter i x,
      more (reservation_key x),
      here,
    );
    own_id =
        λ i x q. ground (arith, lookup-insert id i r s.reservations, ==_iff id i, b.own_id i x);
    remembered = λ k i q. booked_reservation i (b.remembered k i q) same;
  }

pub put_memory :
    (k : IdempotencyKey) (id : String) (r : QuotaReservation) (s : MemoryQuotaStore)
    → lookup id s.reservations ≡ some r
    → r.subject_id ≡ k.0
    → r.resource ≡ k.1.0
    → IsBalanced s
    → IsBalanced (record s { idempotency = insert k id s.idempotency })
put_memory k id r s found subject resource b = record {
  accounted = b.accounted;
  has_counter = b.has_counter;
  unique = b.unique;
  own_id = b.own_id;
  remembered = λ j i q. elim (Bool-cases (k == j)) [
    | inl new ↦ (
      r,
      ground (arith, lookup-insert k j id s.idempotency),
      ground (arith, ==_iff k j),
      ground (arith, ==_iff k j),
    )
    | inr old ↦ b.remembered j i (ground (arith, lookup-insert k j id s.idempotency))
  ];
}

-- A reset drops the counters, the reservations and the memory of one subject or resource together.
pub restrict-IsBalanced :
    (stays : String → String → Bool) (s : MemoryQuotaStore)
    → IsBalanced s
    → IsBalanced (record s {
      counters = keep (λ k _. stays k.0 k.1.0) s.counters;
      reservations = keep (λ _ r. stays r.subject_id r.resource) s.reservations;
      idempotency = keep (λ k _. stays k.0 k.1.0) s.idempotency;
    })
restrict-IsBalanced stays s b = record {
  accounted = λ k. ground (
    arith,
    lookup-keep_keys (λ k. stays k.0 k.1.0) k s.counters,
    charges-keep stays k s.reservations,
    b.accounted k,
  );
  unique = keep-IsUnique (λ _ r. stays r.subject_id r.resource) s.reservations b.unique;
  has_counter = λ id r q. ground (
    arith,
    kept id r q,
    b.has_counter id r,
    lookup-keep_keys (λ k. stays k.0 k.1.0) (reservation_key r) s.counters,
  );
  own_id = λ id r q. b.own_id id r (kept id r q).0;
  remembered = λ k id q.
      let l = lookup-keep_keys (λ k. stays k.0 k.1.0) k s.idempotency in
      let x = b.remembered k id (ground (arith, l)) in
      (
        x.0,
        lookup-keep-some (λ _ r. stays r.subject_id r.resource) id s.reservations x.1
            (ground (arith, l, x.2, x.3)),
        x.2,
        x.3,
      );
}
  where
    kept :
        (id : String) (r : QuotaReservation)
        → lookup id (keep (λ _ r. stays r.subject_id r.resource) s.reservations) ≡ some r
        → (lookup id s.reservations ≡ some r) × (stays r.subject_id r.resource ≡ true)
    kept id r = lookup-keep_inv (λ _ r. stays r.subject_id r.resource) id s.reservations b.unique
