-- ===== src/Tasks/Redis/Refinement.antt =====
-- Calls of the Redis store and of the store in memory, app/modules/messaging/tasks/adapters.
use ai_platform_template.Base.{
  ℕ, ◌≡◌, refl, ap, ◌∙◌, String, Bool, true, none, some, List, [], ◌∷◌, arith,
}
use ai_platform_template.Base.Eq.{string_eq}
use ai_platform_template.Base.Json.{Json}
use ai_platform_template.Base.Result.{Exception, Result, ok, err}
use ai_platform_template.Dict.{Dict, lookup, insert}
use ai_platform_template.Tasks.Models.{TaskRecord, completed, failed}
use ai_platform_template.Tasks.Memory.{TaskStore}
use ai_platform_template.Tasks.Memory.{
  mark_processing as memory_mark_processing, mark_completed as memory_mark_completed,
  mark_failed as memory_mark_failed, create as memory_create,
}
use ai_platform_template.Tasks.Redis.{
  create, live, RedisTasks, mark_processing, mark_completed, mark_failed,
}
use ai_platform_template.Tasks.Memory.{stamped}
use ai_platform_template.Tasks.Redis.Atomic.{
  task_of, Agree, written-Agree, claim-Agree, update-Agree,
}

-- Calls of a store: a claim with its lease, the two ends of a task, and a new task, each at a time.
pub data Call : Type 0 where
  claiming : String → ℕ → ℕ → Call
  completing : String → Dict String Json → ℕ → Call
  failing : String → String → ℕ → Call
  creating : TaskRecord → ℕ → Call

abbrev ended : Result Exception (Unit {0}) → Result Exception Bool
ended (ok _) = ok true
ended (err e) = err e

unfoldable pub memory_call : Call → TaskStore → Result Exception Bool × TaskStore
unfolding memory_mark_processing memory_mark_completed memory_mark_failed memory_create
memory_call (claiming id lease now) s = memory_mark_processing id lease now s
memory_call (completing id result now) s =
    (ended (memory_mark_completed id result now s).0, (memory_mark_completed id result now s).1)
memory_call (failing id error now) s =
    (ended (memory_mark_failed id error now s).0, (memory_mark_failed id error now s).1)
memory_call (creating task now) s =
    (ended (memory_create task now s).0, (memory_create task now s).1)

unfoldable pub memory_replies : List Call → TaskStore → List (Result Exception Bool)
unfolding memory_call
memory_replies [] s = []
memory_replies (c ∷ cs) s = (memory_call c s).0 ∷ memory_replies cs (memory_call c s).1

-- `uuid4` gives a new task an id that the store does not hold.
abbrev pub IsNew : Call → TaskStore → Type 0
IsNew (creating task now) s = lookup task.id s ≡ none
IsNew _ s = Unit

abbrev pub AllNew : List Call → TaskStore → Type 0
AllNew [] s = Unit
AllNew (c ∷ cs) s = IsNew c s × AllNew cs (memory_call c s).1

ended-Agree :
    (x : Result Exception (Unit {0}) × TaskStore) (y : Result Exception (Unit {0}) × RedisTasks)
    → (x.0 ≡ y.0) × Agree x.1 y.1
    → (ended x.0 ≡ ended y.0) × Agree x.1 y.1
ended-Agree x y h = (ap ended h.0, h.1)

create-Agree :
    (task : TaskRecord) (now : ℕ) (s : TaskStore) (r : RedisTasks)
    → lookup task.id s ≡ none
    → Agree s r
    → (ended (memory_create task now s).0 ≡ ok true)
      × Agree (memory_create task now s).1 (create task now r)
create-Agree task now s r new a =
    let e : memory_create task now s ≡ (ok tt, insert task.id (stamped now task) s) =
      unfold memory_create in ground arith in
    let b : Agree (insert task.id (stamped now task) s) (create task now r) =
      unfold create in written-Agree task.id (stamped now task) _ s r refl a in
    (ap (λ p. ended p.0) e, λ id. ap (λ p. task_of (lookup id p.1)) e ∙ b id)

-- The key that a call names has not expired.
abbrev pub IsKept : Call → RedisTasks → Type 0
IsKept (claiming id lease now) r = live now id r ≡ lookup id r
IsKept (completing id result now) r = live now id r ≡ lookup id r
IsKept (failing id error now) r = live now id r ≡ lookup id r
IsKept (creating task now) r = Unit

module _ (seconds_left : ℕ → ℕ) where
  unfoldable pub redis_call : Call → RedisTasks → Result Exception Bool × RedisTasks
  unfolding mark_processing mark_completed mark_failed create
  redis_call (claiming id lease now) r = mark_processing seconds_left [] id lease now r
  redis_call (completing id result now) r = (
    ended (mark_completed seconds_left id result now r).0,
    (mark_completed seconds_left id result now r).1,
  )
  redis_call (failing id error now) r = (
    ended (mark_failed seconds_left id error now r).0,
    (mark_failed seconds_left id error now r).1,
  )
  redis_call (creating task now) r = (ok true, create task now r)

  unfoldable pub redis_replies : List Call → RedisTasks → List (Result Exception Bool)
  unfolding redis_call
  redis_replies [] r = []
  redis_replies (c ∷ cs) r = (redis_call c r).0 ∷ redis_replies cs (redis_call c r).1

  abbrev pub AllKept : List Call → RedisTasks → Type 0
  AllKept [] r = Unit
  AllKept (c ∷ cs) r = IsKept c r × AllKept cs (redis_call c r).1

  call-Agree :
      (c : Call) (s : TaskStore) (r : RedisTasks)
      → IsNew c s
      → IsKept c r
      → Agree s r
      → ((memory_call c s).0 ≡ (redis_call c r).0) × Agree (memory_call c s).1 (redis_call c r).1
  unfolding memory_call redis_call memory_mark_completed memory_mark_failed mark_completed
      mark_failed
  call-Agree (claiming id lease now) s r new k a = claim-Agree seconds_left s r a id lease now k
  call-Agree (completing id result now) s r new k a =
      ended-Agree _ _ (update-Agree seconds_left s r a id completed (some result) none now k)
  call-Agree (failing id error now) s r new k a =
      ended-Agree _ _ (update-Agree seconds_left s r a id failed none (some error) now k)
  call-Agree (creating task now) s r new k a = create-Agree task now s r new a

  replies-Agree :
      (cs : List Call) (s : TaskStore) (r : RedisTasks)
      → AllNew cs s
      → AllKept cs r
      → Agree s r
      → memory_replies cs s ≡ redis_replies cs r
  unfolding memory_replies redis_replies
  replies-Agree [] s r new k a = refl
  replies-Agree (c ∷ cs) s r new k a =
      let (e, b) = call-Agree c s r new.0 k.0 a in
      ap (λ x. x ∷ memory_replies cs (memory_call c s).1) e
      ∙ ap (λ xs. (redis_call c r).0 ∷ xs)
          (replies-Agree cs (memory_call c s).1 (redis_call c r).1 new.1 k.1 b)

  -- From empty stores, for any new tasks (whose ids are fresh), claims and ends of tasks, as long as none of
  -- these calls comes to a key that Redis has let expire: the Redis store gives the replies of the store in
  -- memory, true, false and exceptions alike.
  pub redis_replies_agree :
      (cs : List Call) → AllNew cs [] → AllKept cs [] → memory_replies cs [] ≡ redis_replies cs []
  redis_replies_agree cs new kept = replies-Agree cs [] [] new kept (λ id. unfold lookup in refl)
