-- ===== src/Outbox/Report.antt =====
-- What a round of the publisher reports, and what becomes of the records.
use ai_platform_template.Base.{
  ℕ, ◌+◌, ◌<◌, Bool, true, false, not, or_else, Bool-cases, ◌≡◌, refl, ◌∙◌, if◌then◌else◌, String,
  true, Option, none, some, List, [], ◌∷◌, arith, length, is_some, All, Option-cases, inl, inr,
}
use ai_platform_template.Base.Eq.{◌==◌, ==_iff, string_eq}
use ai_platform_template.Base.Result.{Exception, Result, ok}
use ai_platform_template.Dict.{lookup, insert}
use ai_platform_template.Dict.Laws.{lookup-insert}
use ai_platform_template.Resilience.Retry.{RetryPolicy, RetryDecision, decision}
use ai_platform_template.Outbox.{
  OutboxRecord, OutboxStore, OutboxPublishReport, SinkError, empty_report, pending, published,
  failed, mark_published, mark_failed, retry_at, publish_one, publish_all, publish_pending,
}

-- The rows of the records claimed are in the store.
abbrev pub IsPresent : OutboxStore → OutboxRecord → Type 0
IsPresent s r = is_some (lookup r.id s) ≡ true

abbrev pub count : (OutboxRecord → Bool) → List OutboxRecord → ℕ
count test [] = 0
count test (r ∷ rs) = (if test r then 1 else 0) + count test rs

module _ (jitter : ℕ → ℕ) (policy : RetryPolicy) (publish : OutboxRecord → ℕ → Option SinkError)
    (now : ℕ) where
  -- The policy's decision after one attempt more of a record.
  abbrev pub decision_on : OutboxRecord → SinkError → RetryDecision
  decision_on r e = decision jitter policy (r.attempts + 1) none (some e.error) none

  abbrev pub succeeds : Option SinkError → Bool
  succeeds none = true
  succeeds (some e) = false

  abbrev pub is_retried : Option SinkError → OutboxRecord → Bool
  is_retried none r = false
  is_retried (some e) r = (decision_on r e).should_retry

  abbrev pub gives_up : Option SinkError → OutboxRecord → Bool
  gives_up none r = false
  gives_up (some e) r = not (decision_on r e).should_retry

  -- What the row of a record becomes.
  abbrev pub outcome : Option SinkError → OutboxRecord → OutboxRecord → OutboxRecord
  outcome none r row = record row {
    status = published;
    published_at = some now;
    locked_until = none;
    error = none;
  }
  outcome (some e) r row =
      let d = decision_on r e in
      record row {
        status = if d.should_retry then pending else failed;
        attempts = row.attempts + 1;
        available_at =
            (if d.should_retry
              then some (now + or_else d.next_delay_seconds 0)
              else row.available_at);
        locked_until = none;
        error = some e.text;
      }

  -- A report after some records more.
  abbrev Counts : List OutboxRecord → OutboxPublishReport → OutboxPublishReport → Type 0
  Counts rs p p' =
      (p'.published ≡ p.published + count (λ r. succeeds (publish r now)) rs)
      × (p'.retried ≡ p.retried + count (λ r. is_retried (publish r now) r) rs)
      × (p'.failed ≡ p.failed + count (λ r. gives_up (publish r now) r) rs)
      × (p'.total ≡ p.total)

  -- The store and report after one record.
  abbrev ResultOf :
      OutboxRecord
      → OutboxRecord
      → OutboxPublishReport
      → OutboxStore
      → Result Exception (OutboxPublishReport × OutboxStore)
      → Type 0
  ResultOf r row report s res =
      (report' : OutboxPublishReport) × (res
        ≡ ok (report', insert r.id (outcome (publish r now) r row) s))
      × Counts (r ∷ []) report report'

  one_settles :
      (r row : OutboxRecord) (report : OutboxPublishReport) (s : OutboxStore)
      → lookup r.id s ≡ some row
      → ResultOf r row report s (publish_one jitter policy publish now r report s)
  unfolding publish_one mark_published mark_failed retry_at
  one_settles r row report s q = elim (Option-cases (publish r now)) [
    | inl done ↦ (
      record report { published = report.published + 1 },
      ground arith,
      (ground arith, ground arith, ground arith, refl),
    )
    | inr (e, h) ↦ elim (Bool-cases (decision_on r e).should_retry) [
      | inl more ↦ (
        record report { retried = report.retried + 1 },
        ground arith,
        (ground arith, ground arith, ground arith, refl),
      )
      | inr last ↦ (
        record report { failed = report.failed + 1 },
        ground arith,
        (ground arith, ground arith, ground arith, refl),
      )
    ]
  ]

  -- What the records do to the row of one id: the outcomes of its own, in order.
  abbrev pub row_after : String → List OutboxRecord → Option OutboxRecord → Option OutboxRecord
  row_after id [] row = row
  row_after id (r ∷ rs) none = row_after id rs none
  row_after id (r ∷ rs) (some row) =
      row_after id rs (some (if r.id == id then outcome (publish r now) r row else row))

  insert-IsPresent :
      (r : OutboxRecord) (row : OutboxRecord) (s : OutboxStore) (rs : List OutboxRecord)
      → All (IsPresent s) rs
      → All (IsPresent (insert r.id row s)) rs
  insert-IsPresent r row s [] h = tt
  insert-IsPresent r row s (x ∷ xs) h =
      (ground (arith, lookup-insert r.id x.id row s, h.0), insert-IsPresent r row s xs h.1)

  row_step :
      (id : String) (r row : OutboxRecord) (rs : List OutboxRecord) (s : OutboxStore)
      → lookup r.id s ≡ some row
      → row_after id rs (lookup id (insert r.id (outcome (publish r now) r row) s))
        ≡ row_after id (r ∷ rs) (lookup id s)
  row_step id r row rs s q = elim (Option-cases (lookup id s)) [
    | inl missing ↦
        ground (arith, lookup-insert r.id id (outcome (publish r now) r row) s, ==_iff r.id id)
    | inr (old, h) ↦
        ground (arith, lookup-insert r.id id (outcome (publish r now) r row) s, ==_iff r.id id)
  ]

  publish_all_settles :
      (id : String) (rs : List OutboxRecord) (report : OutboxPublishReport) (s : OutboxStore)
      → All (IsPresent s) rs
      → (report' : OutboxPublishReport) × (s' : OutboxStore) × (publish_all jitter policy publish
            now rs report s
          ≡ ok (report', s'))
        × Counts rs report report'
        × (lookup id s' ≡ row_after id rs (lookup id s))
  unfolding publish_all
  publish_all_settles id [] report s h =
      (report, s, refl, (omega arith, omega arith, omega arith, refl), refl)
  publish_all_settles id (r ∷ rs) report s h = elim (Option-cases (lookup r.id s)) [
    | inl missing ↦ absurd (ground (arith, h.0))
    | inr (row, q) ↦
        (let (report1, done, counts) = one_settles r row report s q in
          let (report2, s2, rest, counts2, rows) =
            publish_all_settles id rs report1 (insert r.id (outcome (publish r now) r row) s)
              (insert-IsPresent r (outcome (publish r now) r row) s rs h.1) in
          (
            report2,
            s2,
            ground (arith, done, rest),
            (
              omega (arith, counts.0, counts2.0),
              omega (arith, counts.1, counts2.1),
              omega (arith, counts.2, counts2.2),
              counts2.3 ∙ counts.3,
            ),
            rows ∙ row_step id r row rs s q,
          ))
  ]

  -- With a positive lock time, a round over records whose rows are there ends without an exception,
  -- whatever the sink raises. Its report counts the records that the sink took as published, those whose
  -- policy grants one attempt more as retried, the others as failed, and their number as the total. Every
  -- row has the outcomes of its own records, in order: PUBLISHED now without an error; or the sink's error
  -- with one attempt counted, PENDING until the time of the next attempt if there is one, else FAILED.
  pub publish_settles :
      (lock_seconds : ℕ) (id : String) (records : List OutboxRecord) (s : OutboxStore)
      → 0 < lock_seconds
      → All (IsPresent s) records
      → (s' : OutboxStore) × (publish_pending jitter policy publish now lock_seconds records s
          ≡ ok (
            record {
              total = length records;
              published = count (λ r. succeeds (publish r now)) records;
              retried = count (λ r. is_retried (publish r now) r) records;
              failed = count (λ r. gives_up (publish r now) r) records;
            },
            s',
          ))
        × (lookup id s' ≡ row_after id records (lookup id s))
  unfolding publish_pending
  publish_settles lock_seconds id records s p h =
      let (report, s', done, counts, rows) =
        publish_all_settles id records (record empty_report { total = length records }) s h in
      (s', ground (arith, done, counts.0, counts.1, counts.2, counts.3), rows)
