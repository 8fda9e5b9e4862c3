-- ===== src/Tasks/Relay.antt =====
-- app/modules/messaging/tasks/relay.py: `_drain`, the loop of the cleanup.
use ai_platform_template.Base.{
  ℕ, zero, suc, ◌+◌, ◌<◌, ◌≡◌, Bool, true, false, Option, none, some, arith, min, ltb, leb,
  Bool-cases, inl, inr, if◌then◌else◌,
}
use ai_platform_template.Base.Eq.{string_eq}
use ai_platform_template.Base.Result.{Exception, Result, ok, err}
use ai_platform_template.Dict.Unique.{IsUnique}
use ai_platform_template.Tasks.Memory.{TaskStore, delete_expired}
use ai_platform_template.Tasks.Memory.Expiry.{
  count_due, purge, purge_all, count_due-purge, purge_all-purge, purge-eq-purge_all, purge-IsUnique,
  delete_expired-purges,
}

-- `stop` is what the stop event shows in each round. `none` means that the fuel ran out.
module _ {S : Type 0} (stop : ℕ → Bool) (delete_batch : S → Result Exception ℕ × S)
    (batch_size : ℕ) where
  unfoldable pub drain : ℕ → ℕ → ℕ → S → Option (Result Exception ℕ × S)
  drain zero round total s = none
  drain (suc fuel) round total s = elim (stop round) [
    | true ↦ some (ok total, s)
    | false ↦
        (let (reply, s') = delete_batch s in
          elim reply [
            | err e ↦ some (err e, s')
            | ok deleted ↦
                (let next = drain fuel (round + 1) (total + deleted) s' in
                  if ltb deleted batch_size then some (ok (total + deleted), s') else next)
          ])
  ]

-- A cleanup of a store of different ids that is not stopped ends, with a positive batch size and
-- fuel beyond the number of expired tasks: it deletes exactly these, in batches, and reports their
-- number.
pub drain_purges :
    (before batch_size fuel round total : ℕ) (s : TaskStore)
    → 0 < batch_size
    → count_due before s < fuel
    → IsUnique s
    → drain (λ _. false) (delete_expired before batch_size) batch_size fuel round total s
      ≡ some (ok (total + count_due before s), purge_all before s)
unfolding drain
drain_purges before b zero round total s h f u = absurd (omega arith)
drain_purges before b (suc fuel) round total s h f u =
    elim (Bool-cases (leb b (count_due before s))) [
      | inl full ↦ ground (
        arith,
        delete_expired-purges before b s h u,
        purge_all-purge before b s,
        count_due-purge before b s,
        drain_purges before b fuel (round + 1) (total + min b (count_due before s))
            (purge before b s) h (ground (arith, count_due-purge before b s))
            (purge-IsUnique before b s u),
      )
      | inr short ↦
          ground (arith, delete_expired-purges before b s h u, purge-eq-purge_all before b s)
    ]
