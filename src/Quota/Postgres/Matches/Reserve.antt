-- ===== src/Quota/Postgres/Matches/Reserve.antt =====
-- `reserve` of both quota stores, from matched books.
use ai_platform_template.Base.{
  ◌+◌, ◌≡◌, refl, ◌∙◌, sym, String, true, false, Option, none, some, arith, Bool-cases,
  Option-cases, inl, inr, leb,
}
use ai_platform_template.Base.Eq.{==_refl, string_eq, pair_eq}
use ai_platform_template.Base.Result.{Exception, Result, ok}
use ai_platform_template.Dict.{lookup, insert}
use ai_platform_template.Dict.Laws.{lookup-insert, erase-insert_new}
use ai_platform_template.Quota.Models.{QuotaReservation, ReserveQuota}
use ai_platform_template.Quota.Memory.{reserve as memory_reserve, new_counter as memory_new_counter}
use ai_platform_template.Quota.Memory.{
  IdempotencyKey, Counter, MemoryQuotaStore, command_key, idempotency_key, existing_id, counter_for,
  reserve_on, charged, granted, remember,
}
use ai_platform_template.Quota.Memory.Invariant.{IsBalanced}
use ai_platform_template.Quota.Postgres.{reserve as db_reserve}
use ai_platform_template.Quota.Postgres.{
  fits_columns, max_integer, QuotaCounter, QuotaReservationRecord, Tables, DbError, record_key,
  find_key, find_row, usage_for_reservation, usage_from_row, ensure_counter, upserted,
  insert_reservation, try_increment_counter, incremented, new_record, with_usage,
}
use ai_platform_template.Quota.Postgres.Keys.{row_id, find_key-lookup}
use ai_platform_template.Quota.Postgres.Matches.{
  Matches, counter-Matches, touched-Matches, granted-Matches,
}
use ai_platform_template.Quota.Postgres.Matches.Decisions.{
  reservation_decision, db_reservation_decision,
}
use ai_platform_template.Quota.Postgres.Matches.Settle.{row_counter}

module _ (c : ReserveQuota) (s : MemoryQuotaStore) (t : Tables) (m : Matches s t)
    (o : s.closed ≡ false) where
  -- The row of the command's counter after `_ensure_counter`.
  abbrev pub row : QuotaCounter
  row = upserted c (lookup (command_key c) t.counters)

  ensured : ((counter_for c s).0.used ≡ row.used) × Matches (counter_for c s).1 (ensure_counter c t)
  unfolding ensure_counter
  ensured = elim (Option-cases (lookup (command_key c) s.counters)) [
    | inl missing ↦
        (let e : row.used ≡ 0 = ground (arith, m.used (command_key c)) in
          rw (counter_for, missing)
            (sym e, counter-Matches (command_key c) (memory_new_counter c) row s t (sym e) m))
    | inr (counter, found) ↦
        (let e : counter.used ≡ row.used = ground (arith, m.used (command_key c)) in
          rw (counter_for, found) (e, touched-Matches (command_key c) row s t (ground arith) m))
  ]

  same_existing :
      existing_id (idempotency_key c) s ≡ row_id (find_row (idempotency_key c) t.reservations)
  same_existing = by_key (idempotency_key c)
    where
      by_key : (k : Option IdempotencyKey) → existing_id k s ≡ row_id (find_row k t.reservations)
      by_key none = refl
      by_key (some k) = m.keys k

  memory_new :
      existing_id (idempotency_key c) s ≡ none → memory_reserve c s ≡ reserve_on c (counter_for c s)
  unfolding memory_reserve
  memory_new e = ground arith

  found_row : lookup (command_key c) (insert (command_key c) row t.counters) ≡ some row
  found_row =
      ground (
        arith,
        lookup-insert (command_key c) (command_key c) row t.counters,
        ==_refl (command_key c),
      )

  db_refused :
      find_row (idempotency_key c) t.reservations ≡ none
      → lookup c.reservation_id t.reservations ≡ none
      → fits_columns c ≡ true
      → leb (row.used + c.cost) max_integer ≡ true
      → leb (row.used + c.cost) c.limit ≡ false
      → db_reserve c t ≡ (ok none, ensure_counter c t)
  unfolding db_reserve ensure_counter insert_reservation try_increment_counter
  db_refused e f v w g =
      ground (arith, found_row, erase-insert_new c.reservation_id (new_record c) t.reservations)

  db_granted :
      find_row (idempotency_key c) t.reservations ≡ none
      → lookup c.reservation_id t.reservations ≡ none
      → fits_columns c ≡ true
      → leb (row.used + c.cost) max_integer ≡ true
      → leb (row.used + c.cost) c.limit ≡ true
      → db_reserve c t ≡ (
        ok (some (with_usage (new_record c) (usage_from_row (incremented c row)))),
        record {
          counters = insert (command_key c) (incremented c row) (ensure_counter c t).counters;
          reservations = insert c.reservation_id (new_record c) t.reservations;
        },
      )
  unfolding db_reserve ensure_counter insert_reservation try_increment_counter
  db_granted e f v w g = ground (arith, found_row)

  replayed_memory :
      (id : String) (r : QuotaReservation)
      → existing_id (idempotency_key c) s ≡ some id
      → lookup id s.reservations ≡ some r
      → memory_reserve c s ≡ (ok (some r), s)
  unfolding memory_reserve
  replayed_memory id r e q = ground arith

  replayed_db :
      (x : QuotaReservationRecord) (d : QuotaCounter)
      → find_row (idempotency_key c) t.reservations ≡ some x
      → lookup (record_key x) t.counters ≡ some d
      → db_reserve c t ≡ (ok (some (with_usage x (usage_from_row d))), t)
  unfolding db_reserve usage_for_reservation
  replayed_db x d e q = ground arith

  -- Both stores agree on the reservation, and are matched after it.
  abbrev AgreesOn :
      Result Exception (Option QuotaReservation) × MemoryQuotaStore
      → Result DbError (Option QuotaReservation) × Tables
      → Type 0
  AgreesOn a p = (reservation_decision a.0 ≡ db_reservation_decision p.0) × Matches a.1 p.1

  refused_on :
      (p : Counter × MemoryQuotaStore)
      → leb (p.0.used + c.cost) c.limit ≡ false
      → reserve_on c p ≡ (ok none, p.1)
  refused_on p h = ground arith

  granted_on :
      (p : Counter × MemoryQuotaStore)
      → leb (p.0.used + c.cost) c.limit ≡ true
      → reserve_on c p ≡ (
        ok (some (granted c p.0)),
        record p.1 {
          counters = insert (command_key c) (charged c p.0) p.1.counters;
          reservations = insert c.reservation_id (granted c p.0) p.1.reservations;
          idempotency = remember (idempotency_key c) c.reservation_id p.1.idempotency;
        },
      )
  granted_on p h = ground arith

  module _ (e : existing_id (idempotency_key c) s ≡ none)
      (fresh : lookup c.reservation_id s.reservations ≡ none) (v : fits_columns c ≡ true)
      (w : leb (row.used + c.cost) max_integer ≡ true) where
    no_row : find_row (idempotency_key c) t.reservations ≡ none
    no_row = ground (arith, same_existing)

    new_id : lookup c.reservation_id t.reservations ≡ none
    new_id = ground (arith, m.entries c.reservation_id)

    no_key : (k : IdempotencyKey) → idempotency_key c ≡ some k → find_key k t.reservations ≡ none
    no_key k h = ground (arith, no_row)

    booked-Matches :
        (p : Counter × MemoryQuotaStore)
        → p.0.used ≡ row.used
        → Matches p.1 (ensure_counter c t)
        → Matches
            (record p.1 {
              counters = insert (command_key c) (charged c p.0) p.1.counters;
              reservations = insert c.reservation_id (granted c p.0) p.1.reservations;
              idempotency = remember (idempotency_key c) c.reservation_id p.1.idempotency;
            })
            (record {
              counters = insert (command_key c) (incremented c row) (ensure_counter c t).counters;
              reservations = insert c.reservation_id (new_record c) t.reservations;
            })
    unfolding ensure_counter
    booked-Matches p w n =
        counter-Matches (command_key c) (charged c p.0) (incremented c row)
          (record p.1 {
            reservations = insert c.reservation_id (granted c p.0) p.1.reservations;
            idempotency = remember (idempotency_key c) c.reservation_id p.1.idempotency;
          })
          (record (ensure_counter c t) {
            reservations = insert c.reservation_id (new_record c) t.reservations;
          })
          (ground arith)
          (granted-Matches (idempotency_key c) c.reservation_id (granted c p.0) (new_record c) p.1
            (ensure_counter c t) new_id refl refl refl no_key n)

    new_agrees : AgreesOn (memory_reserve c s) (db_reserve c t)
    new_agrees = elim (Bool-cases (leb (row.used + c.cost) c.limit)) [
      | inl fits ↦
          (let f = memory_new e ∙ granted_on (counter_for c s) (ground (arith, ensured.0)) in
            let g = db_granted no_row new_id v w fits in
            rw (f, g) (refl, booked-Matches (counter_for c s) ensured.0 ensured.1))
      | inr over ↦
          (let f = memory_new e ∙ refused_on (counter_for c s) (ground (arith, ensured.0)) in
            let g = db_refused no_row new_id v w over in rw (f, g) (refl, ensured.1))
    ]

  -- A remembered key: its reservation is in both stores.
  remembered_id :
      (b : IsBalanced s) (id : String)
      → existing_id (idempotency_key c) s ≡ some id
      → (r : QuotaReservation) × (lookup id s.reservations ≡ some r)
  remembered_id b id e = by_key (idempotency_key c) refl
    where
      by_key :
          (k : Option IdempotencyKey)
          → idempotency_key c ≡ k
          → (r : QuotaReservation) × (lookup id s.reservations ≡ some r)
      by_key none h = absurd (ground arith)
      by_key (some k) h = let x = b.remembered k id (ground arith) in (x.0, x.1)

  row_of :
      (x : QuotaReservationRecord)
      → find_row (idempotency_key c) t.reservations ≡ some x
      → lookup x.id t.reservations ≡ some x
  row_of x e = by_key (idempotency_key c) refl
    where
      by_key :
          (k : Option IdempotencyKey) → idempotency_key c ≡ k → lookup x.id t.reservations ≡ some x
      by_key none h = absurd (ground arith)
      by_key (some k) h = find_key-lookup k x t.reservations m.own_id m.unique (ground arith)

  old_agrees :
      IsBalanced s
      → (id : String) → existing_id (idempotency_key c) s ≡ some id
      → AgreesOn (memory_reserve c s) (db_reserve c t)
  old_agrees b id e = elim (Option-cases (find_row (idempotency_key c) t.reservations)) [
    | inl missing ↦ absurd (ground (arith, same_existing))
    | inr (x, h) ↦
        (let own : x.id ≡ id = ground (arith, same_existing) in
          let (r, q) = remembered_id b id e in
          let (y, k, d, l, hc, hd, w, n, i) = row_counter s t b m o id r q in
          let same : y ≡ x = ground (arith, row_of x h) in
          let f = replayed_memory id r e q in
          let g = replayed_db x d h (ground arith) in
          let j = b.own_id id r q in rw (f, g) (ground arith, m))
  ]

  pub reserve-Matches :
      IsBalanced s
      → lookup c.reservation_id s.reservations ≡ none
      → fits_columns c ≡ true
      → leb (row.used + c.cost) max_integer ≡ true
      → AgreesOn (memory_reserve c s) (db_reserve c t)
  reserve-Matches b fresh v w = elim (Option-cases (existing_id (idempotency_key c) s)) [
    | inl missing ↦ new_agrees missing fresh v w
    | inr (id, e) ↦ old_agrees b id e
  ]
