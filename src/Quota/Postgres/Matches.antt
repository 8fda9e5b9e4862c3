-- ===== src/Quota/Postgres/Matches.antt =====
-- The store in memory and the tables of Postgres stand for the same books: what a counter has used,
-- the state of each reservation, and what an idempotency key remembers.
pub mod Decisions
pub mod Settle
pub mod Reads
pub mod Reserve
use ai_platform_template.Base.{
  ℕ, ◌+◌, ◌-◌, ◌≤◌, ◌<◌, ◌≡◌, ◌≢◌, refl, ap, ◌∙◌, sym, String, Bool, true, false, not, ◌||◌, ◌&&◌,
  Option, none, some, List, [], ◌∷◌, arith, Bool-cases, Option-cases, inl, inr, is_some, leb, ltb,
  if◌then◌else◌,
}
use ai_platform_template.Base.Eq.{◌==◌, ==_iff, ==_refl, string_eq, pair_eq}
use ai_platform_template.Base.Result.{Exception, Result, ok, err, value_error, key_error}
use ai_platform_template.Dict.{Dict, lookup, insert, erase, keep}
use ai_platform_template.Dict.Laws.{lookup-insert, lookup-keep_keys, erase-insert_new}
use ai_platform_template.Dict.Unique.{
  IsUnique, insert-IsUnique, keep-IsUnique, lookup-keep_inv, lookup-keep,
}
use ai_platform_template.Quota.Models.{
  QuotaReservationStatus, reserved, finalized, refunded, QuotaReservation, QuotaUsage, ReserveQuota,
  QuotaUsageQuery,
}
use ai_platform_template.Quota.Memory.{
  CounterKey, IdempotencyKey, Counter, MemoryQuotaStore, reservation_key, remember,
}
use ai_platform_template.Quota.Postgres.{
  QuotaCounter, QuotaReservationRecord, Tables, DbError, raises, no_result_found, record_key,
  record_idempotency, find_key,
}
use ai_platform_template.Quota.Postgres.Keys.{
  Rows, row_id, find_key-insert_old, find_key-insert_new, find_key-keep,
}

abbrev pub used_of : Option Counter → Option ℕ
used_of none = none
used_of (some c) = some c.used

abbrev pub used_in : Option QuotaCounter → Option ℕ
used_in none = none
used_in (some c) = some c.used

-- What both stores know of a reservation.
pub record Entry : Type 0 where
  pub key : CounterKey
  pub cost : ℕ
  pub status : QuotaReservationStatus

abbrev pub entry_of : Option QuotaReservation → Option Entry
entry_of none = none
entry_of (some r) = some (record { key = reservation_key r; cost = r.cost; status = r.status })

abbrev pub entry_in : Option QuotaReservationRecord → Option Entry
entry_in none = none
entry_in (some r) = some (record { key = record_key r; cost = r.cost; status = r.status })

pub record Matches (s : MemoryQuotaStore) (t : Tables) : Type 0 where
  pub is_open : s.closed ≡ false
  pub unique : IsUnique t.reservations
  pub own_id :
      (id : String) (r : QuotaReservationRecord) → lookup id t.reservations ≡ some r → r.id ≡ id
  pub used : (k : CounterKey) → used_of (lookup k s.counters) ≡ used_in (lookup k t.counters)
  pub entries :
      (id : String) → entry_of (lookup id s.reservations) ≡ entry_in (lookup id t.reservations)
  pub keys : (k : IdempotencyKey) → lookup k s.idempotency ≡ row_id (find_key k t.reservations)

-- The same write to a counter on both sides.
pub counter-Matches :
    (k : CounterKey) (c : Counter) (d : QuotaCounter) (s : MemoryQuotaStore) (t : Tables)
    → c.used ≡ d.used
    → Matches s t
    → Matches
        (record s { counters = insert k c s.counters })
        (record t { counters = insert k d t.counters })
counter-Matches k c d s t h m = record {
  is_open = m.is_open;
  unique = m.unique;
  own_id = m.own_id;
  used =
      λ j. ground (arith, lookup-insert k j c s.counters, lookup-insert k j d t.counters, m.used j);
  entries = m.entries;
  keys = m.keys;
}

-- A write to a counter of the tables that leaves what it has used.
pub touched-Matches :
    (k : CounterKey) (d : QuotaCounter) (s : MemoryQuotaStore) (t : Tables)
    → used_of (lookup k s.counters) ≡ some d.used
    → Matches s t
    → Matches s (record t { counters = insert k d t.counters })
touched-Matches k d s t h m = record {
  is_open = m.is_open;
  unique = m.unique;
  own_id = m.own_id;
  used = λ j. ground (arith, lookup-insert k j d t.counters, m.used j, ==_iff k j);
  entries = m.entries;
  keys = m.keys;
}

-- The same change of a reservation's status on both sides.
pub status-Matches :
    (id : String) (r r' : QuotaReservation) (x x' : QuotaReservationRecord) (s : MemoryQuotaStore)
    (t : Tables)
    → lookup id s.reservations ≡ some r
    → lookup id t.reservations ≡ some x
    → record_idempotency x' ≡ record_idempotency x
    → x'.id ≡ x.id
    → entry_of (some r') ≡ entry_in (some x')
    → Matches s t
    → Matches
        (record s { reservations = insert id r' s.reservations })
        (record t { reservations = insert id x' t.reservations })
status-Matches id r r' x x' s t q e same own h m = record {
  is_open = m.is_open;
  unique = insert-IsUnique id x' t.reservations m.unique;
  own_id = λ i y p.
      ground
        (arith, lookup-insert id i x' t.reservations, ==_iff id i, m.own_id i y, m.own_id id x e);
  used = m.used;
  entries = λ i. ground (
    arith,
    lookup-insert id i r' s.reservations,
    lookup-insert id i x' t.reservations,
    m.entries i,
  );
  keys = λ k. m.keys k ∙ sym (find_key-insert_old k id x' x t.reservations e same own);
}

-- A new reservation, remembered under its idempotency key if it has one.
pub granted-Matches :
    (o : Option IdempotencyKey) (id : String) (r : QuotaReservation) (x : QuotaReservationRecord)
    (s : MemoryQuotaStore) (t : Tables)
    → lookup id t.reservations ≡ none
    → record_idempotency x ≡ o
    → x.id ≡ id
    → entry_of (some r) ≡ entry_in (some x)
    → ((k : IdempotencyKey) → o ≡ some k → find_key k t.reservations ≡ none)
    → Matches s t
    → Matches
        (record s {
          reservations = insert id r s.reservations;
          idempotency = remember o id s.idempotency;
        })
        (record t { reservations = insert id x t.reservations })
granted-Matches o id r x s t new key own h fresh m = record {
  is_open = m.is_open;
  unique = insert-IsUnique id x t.reservations m.unique;
  own_id = λ i y p. ground (arith, lookup-insert id i x t.reservations, ==_iff id i, m.own_id i y);
  used = m.used;
  entries = λ i. ground (
    arith,
    lookup-insert id i r s.reservations,
    lookup-insert id i x t.reservations,
    m.entries i,
  );
  keys = λ k. by_key o k refl;
}
  where
    by_key :
        (p : Option IdempotencyKey) (k : IdempotencyKey)
        → o ≡ p
        → lookup k (remember p id s.idempotency) ≡ row_id (find_key k (insert id x t.reservations))
    by_key none k e = ground (arith, find_key-insert_new k id x t.reservations new, m.keys k)
    by_key (some j) k e = ground (
      arith,
      find_key-insert_new k id x t.reservations new,
      m.keys k,
      lookup-insert j k id s.idempotency,
      ==_iff j k,
      fresh j,
    )

-- The same deletion on both sides.
pub deleted-Matches :
    (stays : String → String → Bool) (s : MemoryQuotaStore) (t : Tables)
    → IsUnique s.reservations
    → Matches s t
    → Matches
        (record s {
          counters = keep (λ k _. stays k.0 k.1.0) s.counters;
          reservations = keep (λ _ r. stays r.subject_id r.resource) s.reservations;
          idempotency = keep (λ k _. stays k.0 k.1.0) s.idempotency;
        })
        (record {
          counters = keep (λ k _. stays k.0 k.1.0) t.counters;
          reservations = keep (λ _ r. stays r.subject_id r.resource) t.reservations;
        })
deleted-Matches stays s t u m = record {
  is_open = m.is_open;
  unique = keep-IsUnique (λ _ r. stays r.subject_id r.resource) t.reservations m.unique;
  own_id = λ id r q.
      m.own_id id r
        (lookup-keep_inv (λ _ x. stays x.subject_id x.resource) id t.reservations m.unique q).0;
  used = λ k. ground (
    arith,
    lookup-keep_keys (λ (j : CounterKey). stays j.0 j.1.0) k s.counters,
    lookup-keep_keys (λ (j : CounterKey). stays j.0 j.1.0) k t.counters,
    m.used k,
  );
  entries = λ id. ground (
    arith,
    lookup-keep (λ _ (r : QuotaReservation). stays r.subject_id r.resource) id s.reservations u,
    lookup-keep (λ _ (r : QuotaReservationRecord). stays r.subject_id r.resource) id t.reservations
        m.unique,
    m.entries id,
  );
  keys = λ k. ground (
    arith,
    lookup-keep_keys (λ (j : IdempotencyKey). stays j.0 j.1.0) k s.idempotency,
    find_key-keep stays k t.reservations,
    m.keys k,
  );
}

-- A write to a counter of the store that leaves what it has used.
pub kept-Matches :
    (k : CounterKey) (c : Counter) (s : MemoryQuotaStore) (t : Tables)
    → used_of (lookup k s.counters) ≡ some c.used
    → Matches s t
    → Matches (record s { counters = insert k c s.counters }) t
kept-Matches k c s t h m = record {
  is_open = m.is_open;
  unique = m.unique;
  own_id = m.own_id;
  used = λ j. ground (arith, lookup-insert k j c s.counters, m.used j, ==_iff k j);
  entries = m.entries;
  keys = m.keys;
}
