-- ===== src/Quota/Postgres/Matches/Reads.antt =====
-- The reads and the resets of both quota stores, from matched books.
use ai_platform_template.Base.{
  ◌≡◌, refl, ap, ◌∙◌, sym, String, false, none, some, arith, Option-cases, inl, inr,
}
use ai_platform_template.Base.Eq.{string_eq, pair_eq}
use ai_platform_template.Base.Result.{ok}
use ai_platform_template.Dict.{lookup, insert, keep}
use ai_platform_template.Quota.Models.{QuotaUsageQuery}
use ai_platform_template.Quota.Memory.{
  get_usage as memory_get_usage, reset_usage as memory_reset_usage,
  reset_resource as memory_reset_resource,
}
use ai_platform_template.Quota.Memory.{
  Counter, MemoryQuotaStore, query_key, usage_from_counter, usage_from_query, differs,
  differs_resource,
}
use ai_platform_template.Quota.Memory.Invariant.{IsBalanced}
use ai_platform_template.Quota.Postgres.{
  get_usage as db_get_usage, reset_usage as db_reset_usage, reset_resource as db_reset_resource,
}
use ai_platform_template.Quota.Postgres.{QuotaCounter, Tables, usage_from_row}
use ai_platform_template.Quota.Postgres.Matches.{Matches, kept-Matches, deleted-Matches}
use ai_platform_template.Quota.Postgres.Matches.Decisions.{used, map_used}

module _ (s : MemoryQuotaStore) (t : Tables) (b : IsBalanced s) (m : Matches s t)
    (o : s.closed ≡ false) where
  memory_get_usage_missing :
      (q : QuotaUsageQuery)
      → lookup (query_key q) s.counters ≡ none
      → memory_get_usage q s ≡ (ok (usage_from_query q), s)
  unfolding memory_get_usage
  memory_get_usage_missing q e = ground arith

  memory_get_usage_found :
      (q : QuotaUsageQuery) (c : Counter)
      → lookup (query_key q) s.counters ≡ some c
      → memory_get_usage q s ≡ (
        ok (usage_from_counter (record c { limit = q.limit; reset_at = q.reset_at })),
        record s {
          counters =
              insert (query_key q) (record c { limit = q.limit; reset_at = q.reset_at }) s.counters;
        },
      )
  unfolding memory_get_usage
  memory_get_usage_found q c e = ground arith

  used_of_usage : (q : QuotaUsageQuery) (c : Counter) → (usage_from_counter c).used ≡ c.used
  unfolding usage_from_counter
  used_of_usage q c = refl

  used_of_query : (q : QuotaUsageQuery) → (usage_from_query q).used ≡ 0
  unfolding usage_from_query
  used_of_query q = refl

  db_get_usage_missing :
      (q : QuotaUsageQuery) → lookup (query_key q) t.counters ≡ none → (db_get_usage q t).used ≡ 0
  unfolding db_get_usage
  db_get_usage_missing q e = ground arith

  db_get_usage_found :
      (q : QuotaUsageQuery) (d : QuotaCounter)
      → lookup (query_key q) t.counters ≡ some d
      → (db_get_usage q t).used ≡ d.used
  unfolding db_get_usage usage_from_row
  db_get_usage_found q d e = ground arith

  -- The used part of a usage is the same; the deletions are the same.
  pub get_usage-Matches :
      (q : QuotaUsageQuery)
      → (map_used (memory_get_usage q s).0 ≡ used (db_get_usage q t).used)
        × Matches (memory_get_usage q s).1 t
  get_usage-Matches q = elim (Option-cases (lookup (query_key q) s.counters)) [
    | inl missing ↦
        (let f = memory_get_usage_missing q missing in
          let g = db_get_usage_missing q (ground (arith, m.used (query_key q))) in
          rw f (ap used (used_of_query q ∙ sym g), m))
    | inr (c, e) ↦ elim (Option-cases (lookup (query_key q) t.counters)) [
      | inl missing ↦ absurd (ground (arith, m.used (query_key q)))
      | inr (d, h) ↦
          (let f = memory_get_usage_found q c e in
            let w : c.used ≡ d.used = ground (arith, m.used (query_key q)) in
            let u = used_of_usage q (record c { limit = q.limit; reset_at = q.reset_at }) in
            rw f (
              ap used (u ∙ w ∙ sym (db_get_usage_found q d h)),
              kept-Matches (query_key q) (record c { limit = q.limit; reset_at = q.reset_at }) s t
                  (ground arith) m,
            ))
    ]
  ]

  memory_reset_usage_open :
      (q : QuotaUsageQuery)
      → memory_reset_usage q s ≡ (
        ok (usage_from_query q),
        record s {
          counters = keep (λ k _. differs q.subject_id q.resource k.0 k.1.0) s.counters;
          reservations =
              keep (λ _ r. differs q.subject_id q.resource r.subject_id r.resource) s.reservations;
          idempotency = keep (λ k _. differs q.subject_id q.resource k.0 k.1.0) s.idempotency;
        },
      )
  unfolding memory_reset_usage
  memory_reset_usage_open q = ground arith

  memory_reset_resource_open :
      (resource : String)
      → memory_reset_resource resource s ≡ (
        ok tt,
        record s {
          counters = keep (λ k _. differs_resource resource k.0 k.1.0) s.counters;
          reservations =
              keep (λ _ r. differs_resource resource r.subject_id r.resource) s.reservations;
          idempotency = keep (λ k _. differs_resource resource k.0 k.1.0) s.idempotency;
        },
      )
  unfolding memory_reset_resource
  memory_reset_resource_open resource = ground arith

  pub reset_usage-Matches :
      (q : QuotaUsageQuery)
      → (map_used (memory_reset_usage q s).0 ≡ used (db_reset_usage q t).0.used)
        × Matches (memory_reset_usage q s).1 (db_reset_usage q t).1
  unfolding db_reset_usage
  reset_usage-Matches q =
      let f = memory_reset_usage_open q in
      rw f (
        ap used (used_of_query q),
        deleted-Matches (differs q.subject_id q.resource) s t b.unique m,
      )

  pub reset_resource-Matches :
      (resource : String)
      → ((memory_reset_resource resource s).0 ≡ ok tt)
        × Matches (memory_reset_resource resource s).1 (db_reset_resource resource t)
  unfolding db_reset_resource
  reset_resource-Matches resource =
      let f = memory_reset_resource_open resource in
      rw f (refl, deleted-Matches (differs_resource resource) s t b.unique m)
