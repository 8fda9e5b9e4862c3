-- ===== src/Quota/Postgres/Keys.antt =====
-- What a search by the four columns of the idempotency index finds after each update of the rows.
use ai_platform_template.Base.{
  ◌≡◌, refl, String, Bool, true, Option, none, some, [], ◌∷◌, arith, Bool-cases, inl, inr,
  if◌then◌else◌,
}
use ai_platform_template.Base.Eq.{==_iff, ==_refl, string_eq, pair_eq}
use ai_platform_template.Dict.{Dict, lookup, insert, keep}
use ai_platform_template.Dict.Unique.{IsUnique}
use ai_platform_template.Quota.Memory.{IdempotencyKey}
use ai_platform_template.Quota.Postgres.{
  QuotaReservationRecord, record_idempotency, find_key, same_key,
}

abbrev pub Rows : Type 0
Rows = Dict String QuotaReservationRecord

abbrev pub row_id : Option QuotaReservationRecord → Option String
row_id none = none
row_id (some r) = some r.id

-- A row whose columns of the index stay as they were.
pub find_key-insert_old :
    (k : IdempotencyKey) (id : String) (r old : QuotaReservationRecord) (d : Rows)
    → lookup id d ≡ some old
    → record_idempotency r ≡ record_idempotency old
    → r.id ≡ old.id
    → row_id (find_key k (insert id r d)) ≡ row_id (find_key k d)
unfolding find_key lookup insert
find_key-insert_old k id r old [] q h e = ground arith
find_key-insert_old k id r old ((j, x) ∷ d) q h e = ground (arith, find_key-insert_old k id r old d)

pub find_key-insert_new :
    (k : IdempotencyKey) (id : String) (r : QuotaReservationRecord) (d : Rows)
    → lookup id d ≡ none
    → row_id (find_key k (insert id r d)) ≡ (elim (find_key k d) [
      | some x ↦ some x.id
      | none ↦ if same_key (record_idempotency r) k then some r.id else none
    ])
unfolding find_key lookup insert
find_key-insert_new k id r [] q = ground arith
find_key-insert_new k id r ((j, x) ∷ d) q = ground (arith, find_key-insert_new k id r d)

-- A row that is found has the key's subject and resource.
found_columns :
    (k : IdempotencyKey) (r : QuotaReservationRecord)
    → same_key (record_idempotency r) k ≡ true
    → (r.subject_id ≡ k.0) × (r.resource ≡ k.1.0)
found_columns k r h = by_key r.idempotency_key refl
  where
    by_key :
        (o : Option String) → r.idempotency_key ≡ o → (r.subject_id ≡ k.0) × (r.resource ≡ k.1.0)
    by_key none q = absurd (ground arith)
    by_key (some x) q = ground (arith, ==_iff (r.subject_id, (r.resource, (r.window_key, x))) k)

pub find_key-keep :
    (stays : String → String → Bool) (k : IdempotencyKey) (d : Rows)
    → row_id (find_key k (keep (λ _ r. stays r.subject_id r.resource) d))
      ≡ (if stays k.0 k.1.0 then row_id (find_key k d) else none)
unfolding find_key keep
find_key-keep stays k [] = ground arith
find_key-keep stays k ((j, x) ∷ d) = elim (Bool-cases (same_key (record_idempotency x) k)) [
  | inl hit ↦ ground (arith, find_key-keep stays k d, found_columns k x hit)
  | inr miss ↦ ground (arith, find_key-keep stays k d)
]

-- A row that is found stands under some id.
pub find_key-lookup :
    (k : IdempotencyKey) (r : QuotaReservationRecord) (d : Rows)
    → ((id : String) (x : QuotaReservationRecord) → lookup id d ≡ some x → x.id ≡ id)
    → (unique : IsUnique d) → find_key k d ≡ some r
    → lookup r.id d ≡ some r
unfolding find_key lookup
find_key-lookup k r [] own u q = ground arith
find_key-lookup k r ((j, x) ∷ d) own u q = elim (Bool-cases (same_key (record_idempotency x) k)) [
  | inl hit ↦ ground (arith, own j x, ==_refl j)
  | inr miss ↦ ground (
    arith,
    find_key-lookup k r d (λ id y h. own id y (ground (arith, ==_iff j id, u.0))) u.1,
    ==_iff j r.id,
    u.0,
  )
]
