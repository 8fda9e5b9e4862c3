-- ===== src/Quota/Postgres/Refinement.antt =====
-- The Postgres store and the store in memory, called with the same requests.
use ai_platform_template.Base.{◌+◌, leb, arith, ◌≡◌, refl, true, false, List, [], ◌∷◌, ap, ◌∙◌}
use ai_platform_template.Base.Eq.{string_eq, pair_eq}
use ai_platform_template.Quota.Memory.{MemoryQuotaStore, empty_store, command_key}
use ai_platform_template.Quota.Memory.{
  reserve as memory_reserve, finalize as memory_finalize, refund as memory_refund,
  get_usage as memory_get_usage, reset_usage as memory_reset_usage,
}
use ai_platform_template.Quota.Memory.Invariant.{IsBalanced}
use ai_platform_template.Quota.Memory.Invariant.Methods.{empty-IsBalanced}
use ai_platform_template.Quota.Memory.Requests.{
  Request, reserving, finalizing, refunding, reading, resetting, resetting_resource, closing,
  handle, AllFresh, IsFresh, handle-IsBalanced,
}
use ai_platform_template.Dict.{lookup}
use ai_platform_template.Quota.Postgres.{
  Tables, empty_tables, find_key, fits_columns, max_integer, upserted,
}
use ai_platform_template.Quota.Postgres.{
  reserve as db_reserve, finalize as db_finalize, refund as db_refund, get_usage as db_get_usage,
  reset_usage as db_reset_usage, reset_resource as db_reset_resource,
}
use ai_platform_template.Quota.Postgres.Matches.{Matches}
use ai_platform_template.Quota.Postgres.Matches.Decisions.{
  Decision, settled, used, reservation_decision, settle_decision, db_reservation_decision,
  db_settle_decision, map_used,
}
use ai_platform_template.Quota.Postgres.Matches.Settle.{finalize-Matches, refund-Matches}
use ai_platform_template.Quota.Postgres.Matches.Reads.{
  get_usage-Matches, reset_usage-Matches, reset_resource-Matches,
}
use ai_platform_template.Quota.Postgres.Matches.Reserve.{reserve-Matches}

-- What the store in memory decides on a request.
unfoldable pub decide : Request → MemoryQuotaStore → Decision
unfolding memory_reserve memory_finalize memory_refund memory_get_usage memory_reset_usage
decide (reserving c) s = reservation_decision (memory_reserve c s).0
decide (finalizing id) s = settle_decision (memory_finalize id s).0
decide (refunding id) s = settle_decision (memory_refund id s).0
decide (reading q) s = map_used (memory_get_usage q s).0
decide (resetting q) s = map_used (memory_reset_usage q s).0
decide (resetting_resource r) s = settled
decide closing s = settled

-- What the Postgres store decides on a request.
unfoldable pub db_decide : Request → Tables → Decision
unfolding db_reserve db_finalize db_refund db_get_usage db_reset_usage
db_decide (reserving c) t = db_reservation_decision (db_reserve c t).0
db_decide (finalizing id) t = db_settle_decision (db_finalize id t).0
db_decide (refunding id) t = db_settle_decision (db_refund id t).0
db_decide (reading q) t = used (db_get_usage q t).used
db_decide (resetting q) t = used (db_reset_usage q t).0.used
db_decide (resetting_resource r) t = settled
db_decide closing t = settled

unfoldable pub db_handle : Request → Tables → Tables
unfolding db_reserve db_finalize db_refund db_reset_usage db_reset_resource
db_handle (reserving c) t = (db_reserve c t).1
db_handle (finalizing id) t = (db_finalize id t).1
db_handle (refunding id) t = (db_refund id t).1
db_handle (reading q) t = t
db_handle (resetting q) t = (db_reset_usage q t).1
db_handle (resetting_resource r) t = db_reset_resource r t
db_handle closing t = t

unfoldable pub decisions : List Request → MemoryQuotaStore → List Decision
unfolding decide handle
decisions [] s = []
decisions (q ∷ qs) s = decide q s ∷ decisions qs (handle q s)

unfoldable pub db_decisions : List Request → Tables → List Decision
unfolding db_decide db_handle
db_decisions [] t = []
db_decisions (q ∷ qs) t = db_decide q t ∷ db_decisions qs (db_handle q t)

abbrev pub IsCall : Request → Type 0
IsCall closing = ⊥
IsCall _ = Unit

abbrev pub AllCalls : List Request → Type 0
AllCalls [] = Unit
AllCalls (q ∷ qs) = IsCall q × AllCalls qs

-- A reservation whose values its columns hold, and which charged on top of what its counter has used
-- would not exceed an INTEGER.
abbrev pub IsWithin : Request → Tables → Type 0
IsWithin (reserving c) t =
    (fits_columns c ≡ true)
    × (leb ((upserted c (lookup (command_key c) t.counters)).used + c.cost) max_integer ≡ true)
IsWithin _ t = Unit

abbrev pub AllWithin : List Request → Tables → Type 0
AllWithin [] t = Unit
AllWithin (q ∷ qs) t = IsWithin q t × AllWithin qs (db_handle q t)

module _ (s : MemoryQuotaStore) (t : Tables) (b : IsBalanced s) (m : Matches s t) where
  step-Matches :
      (q : Request)
      → IsCall q
      → IsFresh q s
      → IsWithin q t
      → (decide q s ≡ db_decide q t) × Matches (handle q s) (db_handle q t)
  unfolding decide db_decide handle db_handle
  step-Matches (reserving c) i f w = reserve-Matches c s t m m.is_open b f w.0 w.1
  step-Matches (finalizing id) i f w = finalize-Matches s t b m m.is_open id
  step-Matches (refunding id) i f w = refund-Matches s t b m m.is_open id
  step-Matches (reading q) i f w = get_usage-Matches s t b m m.is_open q
  step-Matches (resetting q) i f w = reset_usage-Matches s t b m m.is_open q
  step-Matches (resetting_resource r) i f w = (refl, (reset_resource-Matches s t b m m.is_open r).1)
  step-Matches closing i f w = absurd i

pub decisions_agree :
    (qs : List Request) (s : MemoryQuotaStore) (t : Tables)
    → IsBalanced s
    → Matches s t
    → AllCalls qs
    → AllFresh qs s
    → AllWithin qs t
    → decisions qs s ≡ db_decisions qs t
unfolding decisions db_decisions
decisions_agree [] s t b m i f w = refl
decisions_agree (q ∷ qs) s t b m i f w =
    let (e, n) = step-Matches s t b m q i.0 f.0 w.0 in
    ap (λ d. d ∷ decisions qs (handle q s)) e
    ∙ ap (λ ds. db_decide q t ∷ ds)
        (decisions_agree qs (handle q s) (db_handle q t) (handle-IsBalanced q s f.0 b) n i.1 f.1
          w.1)

empty-Matches : Matches empty_store empty_tables
unfolding lookup find_key
empty-Matches = record {
  is_open = refl;
  unique = tt;
  own_id = λ id r q. absurd (ground arith);
  used = λ k. refl;
  entries = λ id. refl;
  keys = λ k. refl;
}

-- From an empty store in memory and empty tables, for any requests other than `close` whose
-- reservation ids are fresh and whose values the columns of the tables hold, the store in memory and the Postgres store decide every call alike: a
-- reservation is granted with the same id or refused, `finalize` and `refund` succeed or raise the same
-- exception, and a reading or a reset of the usage shows the same amount used.
pub stores_agree :
    (qs : List Request)
    → AllCalls qs
    → AllFresh qs empty_store
    → AllWithin qs empty_tables
    → decisions qs empty_store ≡ db_decisions qs empty_tables
stores_agree qs i f w =
    decisions_agree qs empty_store empty_tables (empty-IsBalanced false) empty-Matches i f w
