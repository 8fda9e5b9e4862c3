-- ===== src/Quota/Memory/Laws.antt =====
-- What each method of the quota store does, on every branch.
use ai_platform_template.Base.{
  ℕ, ◌+◌, ◌≤◌, ◌<◌, ◌≡◌, ◌≢◌, ◌↔◌, String, Bool, true, false, Option, none, some, arith, Bool-cases,
  Option-cases, inl, inr, is_some, if◌then◌else◌, leb, ◌&&◌,
}
use ai_platform_template.Base.Eq.{◌==◌, ==_iff, ==_refl, string_eq, pair_eq}
use ai_platform_template.Base.Result.{ok, err, is_ok, value_error, key_error}
use ai_platform_template.Dict.{lookup}
use ai_platform_template.Dict.Laws.{lookup-insert}
use ai_platform_template.Quota.Models.{
  reserved, finalized, refunded, QuotaReservation, ReserveQuota,
}
use ai_platform_template.Quota.Memory.{
  CounterKey, IdempotencyKey, Counter, MemoryQuotaStore, reservation_key, command_key,
  idempotency_key, existing_id, reserve, finalize, refund, usage_from_counter, granted, charged,
  released, new_counter, counter_for,
}
use ai_platform_template.Quota.Memory.Charges.{used_at, cost_of-le-charges}
use ai_platform_template.Quota.Memory.Invariant.{IsBalanced}

-- The rows of a store that a reservation touches, as `used_at` shows them.
abbrev pub used : CounterKey → MemoryQuotaStore → ℕ
used k s = used_at k s.counters

module _ (c : ReserveQuota) (s : MemoryQuotaStore) (k : CounterKey) where
  reserve-refuses :
      s.closed ≡ false
      → existing_id (idempotency_key c) s ≡ none
      → c.limit < used (command_key c) s + c.cost
      → ((reserve c s).0 ≡ ok none) × (used k (reserve c s).1 ≡ used k s)
  unfolding reserve
  reserve-refuses o unknown over =
      ground (
        arith,
        lookup-insert (command_key c) k (new_counter c) s.counters,
        ==_iff (command_key c) k,
      )

  reserve-granted :
      s.closed ≡ false
      → existing_id (idempotency_key c) s ≡ none
      → used (command_key c) s + c.cost ≤ c.limit
      → ((reserve c s).0 ≡ ok (some (granted c (counter_for c s).0)))
        × (used k (reserve c s).1 ≡ (if command_key c == k then used k s + c.cost else used k s))
  unfolding reserve
  reserve-granted o unknown fits = ground (
    arith,
    lookup-insert (command_key c) k (charged c (counter_for c s).0) (counter_for c s).1.counters,
    lookup-insert (command_key c) k (new_counter c) s.counters,
    ==_iff (command_key c) k,
  )

-- A reservation fits when its cost still does under the limit.
abbrev pub fits : ReserveQuota → MemoryQuotaStore → Bool
fits c s = leb (used (command_key c) s + c.cost) c.limit

-- Without a remembered key, an open store grants the command's reservation when its cost fits under
-- the limit, and charges the cost to the command's counter and to no other; otherwise it answers
-- None, and no counter's use changes.
pub reserve_decides :
    (c : ReserveQuota) (s : MemoryQuotaStore) (k : CounterKey)
    → s.closed ≡ false
    → existing_id (idempotency_key c) s ≡ none
    → ((reserve c s).0 ≡ ok (if fits c s then some (granted c (counter_for c s).0) else none))
      × (used k (reserve c s).1
          ≡ (if fits c s && command_key c == k then used k s + c.cost else used k s))
reserve_decides c s k o unknown = elim (Bool-cases (fits c s)) [
  | inl fit ↦ ground (arith, reserve-granted c s k o unknown (ground arith))
  | inr over ↦ ground (arith, reserve-refuses c s k o unknown (ground arith))
]

-- After a reservation that was granted under a new idempotency key, a second call with that key
-- gives the reservation of the first back, charges nothing and changes nothing.
pub reserve_replays :
    (c d : ReserveQuota) (k : IdempotencyKey) (r : QuotaReservation) (s : MemoryQuotaStore)
    → existing_id (idempotency_key c) s ≡ none
    → idempotency_key c ≡ some k
    → idempotency_key d ≡ some k
    → (reserve c s).0 ≡ ok (some r)
    → reserve d (reserve c s).1 ≡ (ok (some r), (reserve c s).1)
unfolding reserve
reserve_replays c d k r s unknown kc kd h = ground (
  arith,
  lookup-insert k k c.reservation_id s.idempotency,
  ==_refl k,
  lookup-insert c.reservation_id c.reservation_id r s.reservations,
  ==_refl c.reservation_id,
)

-- In an open store with balanced books a refund of a live reservation gives back exactly its cost,
-- never less for the clamp at 0, and touches no other counter.
pub refund_exact :
    (id : String) (r : QuotaReservation) (s : MemoryQuotaStore)
    → IsBalanced s
    → s.closed ≡ false
    → lookup id s.reservations ≡ some r
    → r.status ≡ reserved
    → (is_ok (refund id s).0 ≡ true)
      × ((k : CounterKey)
          → used k (refund id s).1 + (if reservation_key r == k then r.cost else 0) ≡ used k s)
unfolding refund
refund_exact id r s b o q st = elim (Option-cases (lookup (reservation_key r) s.counters)) [
  | inl missing ↦ absurd (ground (arith, b.has_counter id r q))
  | inr (counter, e) ↦ (
    ground arith,
    λ k. ground (
      arith,
      lookup-insert (reservation_key r) k (released r counter) s.counters,
      ==_iff (reservation_key r) k,
      cost_of-le-charges id s.reservations r q,
      b.accounted (reservation_key r),
    ),
  )
]

remembered-found :
    (o : Option IdempotencyKey) (id : String) (s : MemoryQuotaStore)
    → existing_id o s ≡ some id
    → IsBalanced s
    → is_some (lookup id s.reservations) ≡ true
remembered-found none id s q b = cc
remembered-found (some k) id s q b = ground (arith, (b.remembered k id q).1)

module _ (id : String) (s : MemoryQuotaStore) (b : IsBalanced s) (o : s.closed ≡ false) where
  finalize_known :
      (r : QuotaReservation) → lookup id s.reservations ≡ some r → (finalize id s).0 ≢ err key_error
  unfolding finalize
  finalize_known r q = ground (arith, b.has_counter id r q)

  refund_known :
      (r : QuotaReservation) → lookup id s.reservations ≡ some r → (refund id s).0 ≢ err key_error
  unfolding refund
  refund_known r q = ground (arith, b.has_counter id r q)

  raises_iff_unknown :
      (((finalize id s).0 ≡ err key_error) ↔ (lookup id s.reservations ≡ none))
      × (((refund id s).0 ≡ err key_error) ↔ (lookup id s.reservations ≡ none))
  unfolding finalize refund
  raises_iff_unknown = elim (Option-cases (lookup id s.reservations)) [
    | inl unknown ↦ ((λ _. unknown, λ _. ground arith), (λ _. unknown, λ _. ground arith))
    | inr (r, q) ↦ (
      (λ e. absurd (finalize_known r q e), λ e. ground arith),
      (λ e. absurd (refund_known r q e), λ e. ground arith),
    )
  ]

-- In an open store whose books balance no call meets a dangling reference: `reserve` never raises
-- KeyError, and `finalize` and `refund` raise it for an unknown reservation only.
pub no_dangling :
    (c : ReserveQuota) (id : String) (s : MemoryQuotaStore)
    → IsBalanced s
    → s.closed ≡ false
    → ((reserve c s).0 ≢ err key_error)
      × (((finalize id s).0 ≡ err key_error) ↔ (lookup id s.reservations ≡ none))
      × (((refund id s).0 ≡ err key_error) ↔ (lookup id s.reservations ≡ none))
unfolding reserve
no_dangling c id s b o = elim (Option-cases (existing_id (idempotency_key c) s)) [
  | inl unknown ↦ (ground arith, (raises_iff_unknown id s b o).0, (raises_iff_unknown id s b o).1)
  | inr (old, q) ↦ (
    ground (arith, remembered-found (idempotency_key c) old s q b),
    (raises_iff_unknown id s b o).0,
    (raises_iff_unknown id s b o).1,
  )
]

module _ (id : String) (r : QuotaReservation) (c : Counter) (s : MemoryQuotaStore) where
  finalize_settles :
      lookup id s.reservations ≡ some r
      → r.id ≡ id
      → lookup (reservation_key r) s.counters ≡ some c
      → is_ok (finalize id s).0 ≡ true
      → (refund id (finalize id s).1).0 ≡ err value_error
  unfolding finalize refund
  finalize_settles q own e h = ground (
    arith,
    lookup-insert r.id id (record r { status = finalized; usage = usage_from_counter c })
        s.reservations,
    ==_refl id,
  )

  refund_settles :
      lookup id s.reservations ≡ some r
      → r.id ≡ id
      → lookup (reservation_key r) s.counters ≡ some c
      → is_ok (refund id s).0 ≡ true
      → ((finalize id (refund id s).1).0 ≡ err value_error)
        × (refund id (refund id s).1 ≡ refund id s)
  unfolding finalize refund
  refund_settles q own e h = ground (
    arith,
    lookup-insert r.id id
        (record r { status = refunded; usage = usage_from_counter (released r c) }) s.reservations,
    ==_refl id,
  )

unknown_raises :
    (id : String) (s : MemoryQuotaStore)
    → lookup id s.reservations ≡ none
    → (is_ok (finalize id s).0 ≡ false) × (is_ok (refund id s).0 ≡ false)
unfolding finalize refund
unknown_raises id s q = ground arith

-- With balanced books, after a finalization that succeeds a refund raises ValueError.
pub finalize_is_final :
    (id : String) (s : MemoryQuotaStore)
    → IsBalanced s
    → is_ok (finalize id s).0 ≡ true
    → (refund id (finalize id s).1).0 ≡ err value_error
finalize_is_final id s b h = elim (Option-cases (lookup id s.reservations)) [
  | inl unknown ↦ absurd (ground (arith, unknown_raises id s unknown))
  | inr (r, q) ↦ elim (Option-cases (lookup (reservation_key r) s.counters)) [
    | inl missing ↦ absurd (ground (arith, b.has_counter id r q))
    | inr (c, e) ↦ finalize_settles id r c s q (b.own_id id r q) e h
  ]
]

-- With balanced books, after a refund that succeeds a finalization raises ValueError, and a second
-- refund gives the same answer and changes nothing.
pub refund_is_final :
    (id : String) (s : MemoryQuotaStore)
    → IsBalanced s
    → is_ok (refund id s).0 ≡ true
    → ((finalize id (refund id s).1).0 ≡ err value_error)
      × (refund id (refund id s).1 ≡ refund id s)
refund_is_final id s b h = elim (Option-cases (lookup id s.reservations)) [
  | inl unknown ↦ absurd (ground (arith, unknown_raises id s unknown))
  | inr (r, q) ↦ elim (Option-cases (lookup (reservation_key r) s.counters)) [
    | inl missing ↦ absurd (ground (arith, b.has_counter id r q))
    | inr (c, e) ↦ refund_settles id r c s q (b.own_id id r q) e h
  ]
]
