-- ===== src/Tests/Tasks.antt =====
-- Runs of app/modules/messaging/tasks: one task of one owner.
use ai_platform_template.Base.{◌-◌, ◌≡◌, inl, refl, false, none, some, [], ◌∷◌, arith}
use ai_platform_template.Base.Eq.{string_eq}
use ai_platform_template.Base.Result.{ok}
use ai_platform_template.Dict.{lookup}
use ai_platform_template.Tasks.Models.{TaskRecord, queued, completed}
use ai_platform_template.Tasks.Memory.{
  TaskStore, lease_expired, mark_processing, claimable, claimed, reclaim_stale_processing,
  delete_expired, take,
}
use ai_platform_template.Tasks.Memory.Claims.{
  claiming, reclaiming, completing, claims_won, run, claim_exclusive, ended_stays,
}
use ai_platform_template.Tasks.Memory.Reclaim.{
  announced, expired_tasks, count_expired, reclaim_settles, count_status, is_queued, is_failed,
  renewable, exhausted,
}
use ai_platform_template.Tasks.Memory.Expiry.{count_due, purge_all}
use ai_platform_template.Tasks.Relay.{drain, drain_purges}

abbrev task : TaskRecord
task = record {
  id = "t1";
  type = "email";
  status = queued;
  payload = [];
  expires_at = 100;
  attempts = 0;
  result = none;
  error = none;
  created_at = none;
  updated_at = none;
  locked_until = none;
  metadata = [];
  principal_id = "u1";
  request_id = none;
}

abbrev store : TaskStore
store = ("t1", task) ∷ []

abbrev ended : TaskRecord
ended = record task { status = completed }

claim_exclusive_example :
    let s' = (mark_processing "t1" 30 10 store).1 in
    (claims_won "t1" (claiming "t1" 30 20 ∷ reclaiming 39 100 3 ∷ []) s' ≡ 0)
    × (lookup "t1" (run (claiming "t1" 30 20 ∷ reclaiming 39 100 3 ∷ []) s')
        ≡ some (claimed 30 10 task))
unfolding mark_processing claimable lookup
claim_exclusive_example =
    claim_exclusive "t1" 30 10 task (claiming "t1" 30 20 ∷ reclaiming 39 100 3 ∷ []) store refl refl
      (omega arith, (omega arith, tt))

ended_stays_example :
    (claims_won "t1" (claiming "t1" 30 20 ∷ completing "t2" [] 25 ∷ []) (("t1", ended) ∷ []) ≡ 0)
    × (lookup "t1" (run (claiming "t1" 30 20 ∷ completing "t2" [] 25 ∷ []) (("t1", ended) ∷ []))
        ≡ some ended)
unfolding lookup
ended_stays_example =
    ended_stays "t1" 50 ended (claiming "t1" 30 20 ∷ completing "t2" [] 25 ∷ [])
      (("t1", ended) ∷ []) refl (inl refl) (omega arith, (refl, tt))

reclaim_settles_example :
    let (reply, s') = reclaim_stale_processing 50 2 3 (("t1", claimed 30 10 task) ∷ []) in
    (reply ≡ ok (announced 3 (take 2 (expired_tasks 50 (("t1", claimed 30 10 task) ∷ [])))))
    × (count_expired 50 s' ≡ count_expired 50 (("t1", claimed 30 10 task) ∷ []) - 2)
    × (count_status is_queued s'
        ≡ renewable 3 (take 2 (expired_tasks 50 (("t1", claimed 30 10 task) ∷ []))))
    × (count_status is_failed s'
        ≡ exhausted 3 (take 2 (expired_tasks 50 (("t1", claimed 30 10 task) ∷ []))))
unfolding take expired_tasks lease_expired
reclaim_settles_example = reclaim_settles 50 2 3 (("t1", claimed 30 10 task) ∷ []) (omega arith)

drain_purges_example : drain (λ _. false) (delete_expired 100 5) 5 2 0 0 store ≡ some (ok 1, [])
unfolding lookup count_due purge_all
drain_purges_example = drain_purges 100 5 2 0 0 store (omega arith) (omega arith) (refl, tt)
