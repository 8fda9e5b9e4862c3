-- ===== src/Quota/Postgres/Matches/Settle.antt =====
-- `finalize` and `refund` of both quota stores, from matched books.
use ai_platform_template.Base.{◌≡◌, refl, String, false, none, some, arith, Option-cases, inl, inr}
use ai_platform_template.Base.Eq.{string_eq, pair_eq}
use ai_platform_template.Base.Result.{Exception, Result, ok, err, value_error, key_error}
use ai_platform_template.Dict.{lookup, insert}
use ai_platform_template.Quota.Models.{
  QuotaReservationStatus, reserved, finalized, refunded, QuotaReservation, QuotaUsage,
}
use ai_platform_template.Quota.Memory.{finalize as memory_finalize, refund as memory_refund}
use ai_platform_template.Quota.Memory.{
  Counter, MemoryQuotaStore, reservation_key, released, usage_from_counter,
}
use ai_platform_template.Quota.Memory.Invariant.{IsBalanced}
use ai_platform_template.Quota.Postgres.{finalize as db_finalize, refund as db_refund}
use ai_platform_template.Quota.Postgres.{
  QuotaCounter, QuotaReservationRecord, Tables, DbError, raises, record_key, claim_reserved,
  usage_for_reservation, with_status, decremented, usage_from_row,
}
use ai_platform_template.Quota.Postgres.Matches.{
  Matches, entry_of, entry_in, counter-Matches, status-Matches,
}
use ai_platform_template.Quota.Postgres.Matches.Decisions.{settle_decision, db_settle_decision}

module _ (s : MemoryQuotaStore) (t : Tables) (b : IsBalanced s) (m : Matches s t)
    (o : s.closed ≡ false) where
  -- A reservation that one side holds is held by the other, and its counter is there.
  pub row_counter :
      (id : String) (r : QuotaReservation)
      → lookup id s.reservations ≡ some r
      → (x : QuotaReservationRecord) × (c : Counter) × (d : QuotaCounter) × (lookup id
            t.reservations
          ≡ some x)
        × (lookup (reservation_key r) s.counters ≡ some c)
        × (lookup (record_key x) t.counters ≡ some d)
        × (c.used ≡ d.used)
        × (entry_of (some r) ≡ entry_in (some x))
        × (x.id ≡ id)
  row_counter id r q = elim (Option-cases (lookup id t.reservations)) [
    | inl missing ↦ absurd (ground (arith, m.entries id))
    | inr (x, e) ↦ elim (Option-cases (lookup (reservation_key r) s.counters)) [
      | inl missing ↦ absurd (ground (arith, b.has_counter id r q))
      | inr (c, h) ↦ elim (Option-cases (lookup (record_key x) t.counters)) [
        | inl missing ↦ absurd (ground (arith, m.entries id, m.used (record_key x)))
        | inr (d, k) ↦ (
          x,
          c,
          d,
          e,
          h,
          k,
          ground (arith, m.entries id, m.used (record_key x)),
          ground (arith, m.entries id),
          m.own_id id x e,
        )
      ]
    ]
  ]

  settle_unknown :
      (id : String)
      → lookup id s.reservations ≡ none
      → (memory_finalize id s ≡ (err key_error, s))
        × (memory_refund id s ≡ (err key_error, s))
        × (db_finalize id t ≡ (err (raises key_error), t))
        × (db_refund id t ≡ (err (raises key_error), t))
  unfolding memory_finalize memory_refund db_finalize db_refund claim_reserved
  settle_unknown id q =
      (ground arith, ground arith, ground (arith, m.entries id), ground (arith, m.entries id))

  -- Both stores agree on a call, and are matched after it.
  abbrev Agrees :
      Result Exception QuotaUsage × MemoryQuotaStore → Result DbError QuotaUsage × Tables → Type 0
  Agrees a p = (settle_decision a.0 ≡ db_settle_decision p.0) × Matches a.1 p.1

  module _ (id : String) (r : QuotaReservation) (x : QuotaReservationRecord) (c : Counter)
      (d : QuotaCounter) (q : lookup id s.reservations ≡ some r)
      (e : lookup id t.reservations ≡ some x) (hc : lookup (reservation_key r) s.counters ≡ some c)
      (hd : lookup (record_key x) t.counters ≡ some d) (w : c.used ≡ d.used)
      (n : entry_of (some r) ≡ entry_in (some x)) where
    abbrev ended_as : QuotaReservationStatus → QuotaUsage → QuotaReservation
    ended_as st u = record r { status = st; usage = u }

    finalize_reserved :
        r.status ≡ reserved
        → (memory_finalize id s ≡ (
          ok (usage_from_counter c),
          record s {
            reservations = insert id (ended_as finalized (usage_from_counter c)) s.reservations;
          },
        ))
          × (db_finalize id t ≡ (
            ok (usage_from_row d),
            record t { reservations = insert id (with_status finalized x) t.reservations },
          ))
    unfolding memory_finalize db_finalize claim_reserved usage_for_reservation
    finalize_reserved st = (ground (arith, b.own_id id r q), ground arith)

    finalize_settled :
        r.status ≡ finalized
        → (memory_finalize id s ≡ (ok r.usage, s)) × (db_finalize id t ≡ (ok (usage_from_row d), t))
    unfolding memory_finalize db_finalize claim_reserved usage_for_reservation
    finalize_settled st = (ground arith, ground arith)

    finalize_barred :
        r.status ≡ refunded
        → (memory_finalize id s ≡ (err value_error, s))
          × (db_finalize id t ≡ (err (raises value_error), t))
    unfolding memory_finalize db_finalize claim_reserved usage_for_reservation
    finalize_barred st = (ground arith, ground arith)

    finalize-Agrees : Agrees (memory_finalize id s) (db_finalize id t)
    finalize-Agrees = by_status r.status refl
      where
        by_status :
            (st : QuotaReservationStatus)
            → r.status ≡ st
            → Agrees (memory_finalize id s) (db_finalize id t)
        by_status reserved st =
            let (f, g) = finalize_reserved st in
            rw (f, g)
              (
                refl,
                status-Matches id r (ended_as finalized (usage_from_counter c)) x
                    (with_status finalized x) s t q e refl refl (ground arith) m,
              )
        by_status finalized st = let (f, g) = finalize_settled st in rw (f, g) (refl, m)
        by_status refunded st = let (f, g) = finalize_barred st in rw (f, g) (refl, m)

    refund_reserved :
        r.status ≡ reserved
        → (memory_refund id s ≡ (
          ok (usage_from_counter (released r c)),
          record s {
            counters = insert (reservation_key r) (released r c) s.counters;
            reservations =
                insert id (ended_as refunded (usage_from_counter (released r c))) s.reservations;
          },
        ))
          × (db_refund id t ≡ (
            ok (usage_from_row (decremented x d)),
            record t {
              counters = insert (reservation_key r) (decremented x d) t.counters;
              reservations = insert id (with_status refunded x) t.reservations;
            },
          ))
    unfolding memory_refund db_refund claim_reserved
    refund_reserved st = (ground (arith, b.own_id id r q), ground arith)

    refund_settled :
        r.status ≡ refunded
        → (memory_refund id s ≡ (ok r.usage, s)) × (db_refund id t ≡ (ok (usage_from_row d), t))
    unfolding memory_refund db_refund claim_reserved usage_for_reservation
    refund_settled st = (ground arith, ground arith)

    refund_barred :
        r.status ≡ finalized
        → (memory_refund id s ≡ (err value_error, s))
          × (db_refund id t ≡ (err (raises value_error), t))
    unfolding memory_refund db_refund claim_reserved usage_for_reservation
    refund_barred st = (ground arith, ground arith)

    refund-Agrees : Agrees (memory_refund id s) (db_refund id t)
    refund-Agrees = by_status r.status refl
      where
        by_status :
            (st : QuotaReservationStatus)
            → r.status ≡ st
            → Agrees (memory_refund id s) (db_refund id t)
        by_status reserved st =
            let (f, g) = refund_reserved st in
            rw (f, g)
              (
                refl,
                counter-Matches (reservation_key r) (released r c) (decremented x d)
                    (record s {
                      reservations =
                          insert id (ended_as refunded (usage_from_counter (released r c)))
                            s.reservations;
                    })
                    (record t { reservations = insert id (with_status refunded x) t.reservations })
                    (ground arith)
                    (status-Matches id r (ended_as refunded (usage_from_counter (released r c))) x
                      (with_status refunded x) s t q e refl refl (ground arith) m),
              )
        by_status refunded st = let (f, g) = refund_settled st in rw (f, g) (refl, m)
        by_status finalized st = let (f, g) = refund_barred st in rw (f, g) (refl, m)

  pub finalize-Matches : (id : String) → Agrees (memory_finalize id s) (db_finalize id t)
  finalize-Matches id = elim (Option-cases (lookup id s.reservations)) [
    | inl missing ↦ let u = settle_unknown id missing in rw (u.0, u.2) (refl, m)
    | inr (r, q) ↦
        (let (x, c, d, e, hc, hd, w, n, own) = row_counter id r q in
          finalize-Agrees id r x c d q e hc hd w n)
  ]

  pub refund-Matches : (id : String) → Agrees (memory_refund id s) (db_refund id t)
  refund-Matches id = elim (Option-cases (lookup id s.reservations)) [
    | inl missing ↦ let u = settle_unknown id missing in rw (u.1, u.3) (refl, m)
    | inr (r, q) ↦
        (let (x, c, d, e, hc, hd, w, n, own) = row_counter id r q in
          refund-Agrees id r x c d q e hc hd w n)
  ]
