-- ===== src/Tasks/Redis/Atomic.antt =====
-- The transition of app/modules/messaging/tasks/adapters/redis.py under the writes of other clients,
-- and the tasks of the Redis store beside those of the store in memory.
use ai_platform_template.Base.{
  ℕ, ◌+◌, ◌≡◌, refl, ap, ◌∙◌, sym, String, Bool, true, false, Option, none, some, List, [], ◌∷◌,
  ◌++◌, leb, arith, Bool-cases, Option-cases, ◌⊎◌, inl, inr,
}
use ai_platform_template.Base.Eq.{string_eq}
use ai_platform_template.Base.Json.{Json}
use ai_platform_template.Base.Result.{Exception, Result, ok, err, value_error, key_error}
use ai_platform_template.Dict.{Dict, lookup, insert}
use ai_platform_template.Dict.Laws.{lookup-insert}
use ai_platform_template.Tasks.Models.{TaskRecord, TaskStatus}
use ai_platform_template.Tasks.Memory.{TaskStore, claimed, settled_with, claimable, lease_expired}
use ai_platform_template.Tasks.Memory.{
  mark_processing as memory_mark_processing, update_status as memory_update_status,
}
use ai_platform_template.Tasks.Redis.{
  Entry, live, RedisTasks, Interference, written, stored, transition, claim, mark_processing,
  update_status,
}

-- What the other clients have written after some of their writes, and the time by then.
abbrev pub after : List Interference → RedisTasks → RedisTasks
after [] r = r
after ((_, write) ∷ writes) r = after writes (write r)

abbrev pub time_after : List Interference → ℕ → ℕ
time_after [] now = now
time_after ((ticks, _) ∷ writes) now = time_after writes (now + ticks)

-- However often other clients get in between, a transition takes effect as one step without
-- interference, at one moment among their writes: after the first ones and before the rest.
pub transition_atomic :
    (seconds_left : ℕ → ℕ) (writes : List Interference) (now : ℕ) (key : String)
    (mutate : TaskRecord → Bool × TaskRecord) (r : RedisTasks)
    → (before : List Interference) × (rest : List Interference) × (writes ≡ before ++ rest)
      × (transition seconds_left writes now key mutate r
          ≡ transition seconds_left [] (time_after before now) key mutate (after before r))
unfolding transition
transition_atomic seconds_left [] now key mutate r = ([], [], refl, refl)
transition_atomic seconds_left ((ticks, write) ∷ writes) now key mutate r =
    elim (Option-cases (live now key r)) [
      | inl missing ↦ ([], (ticks, write) ∷ writes, refl, ground arith)
      | inr (e, found) ↦ elim (Bool-cases (mutate e.task).0) [
        | inl saves ↦
            (let (before, rest, split, same) =
                transition_atomic seconds_left writes (now + ticks) key mutate (write r) in
              let again : transition seconds_left ((ticks, write) ∷ writes) now key mutate r
                  ≡ transition seconds_left writes (now + ticks) key mutate (write r) =
                ground arith in
              ((ticks, write) ∷ before, rest, ap (λ ws. (ticks, write) ∷ ws) split, again ∙ same))
        | inr leaves ↦ ([], (ticks, write) ∷ writes, refl, ground arith)
      ]
    ]

abbrev pub task_of : Option TaskRecord → Option TaskRecord
task_of none = none
task_of (some task) = some (stored task)

abbrev pub task_in : Option Entry → Option TaskRecord
task_in none = none
task_in (some e) = some e.task

-- The store in memory and the Redis store hold the same tasks, but for what the latter does not keep.
abbrev pub Agree : TaskStore → RedisTasks → Type 0
Agree s r = (id : String) → task_of (lookup id s) ≡ task_in (lookup id r)

claimable-stored : (task : TaskRecord) (now : ℕ) → claimable (stored task) now ≡ claimable task now
unfolding claimable stored lease_expired
claimable-stored task now = refl

-- The same write on both sides.
pub written-Agree :
    (id : String) (task : TaskRecord) (e : Entry) (s : TaskStore) (r : RedisTasks)
    → stored task ≡ e.task
    → Agree s r
    → Agree (insert id task s) (insert id e r)
written-Agree id task e s r h a =
    λ j. ground (arith, lookup-insert id j task s, lookup-insert id j e r, a j)

both-Agree :
    {A : Type 0} (x : Result Exception A × TaskStore) (y : Result Exception A × RedisTasks)
    (v : Result Exception A) (s : TaskStore) (r : RedisTasks)
    → x ≡ (v, s)
    → y ≡ (v, r)
    → Agree s r
    → (x.0 ≡ y.0) × Agree x.1 y.1
both-Agree x y v s r e f a =
    (ap (λ p. p.0) e ∙ sym (ap (λ p. p.0) f), λ id. ground (arith, e, f, a id))

module _ (seconds_left : ℕ → ℕ) (s : TaskStore) (r : RedisTasks) (a : Agree s r) where
  -- What both hold under an id.
  held :
      (id : String)
      → ((lookup id s ≡ none) × (lookup id r ≡ none))
        ⊎ ((task : TaskRecord) × (e : Entry) × (lookup id s ≡ some task)
            × (lookup id r ≡ some e)
            × (stored task ≡ e.task))
  held id = elim (Option-cases (lookup id s)) [
    | inl missing ↦ inl (missing, ground (arith, a id))
    | inr (task, found) ↦ elim (Option-cases (lookup id r)) [
      | inl missing ↦ absurd (ground (arith, a id))
      | inr (e, there) ↦ inr (task, e, found, there, ground (arith, a id))
    ]
  ]

  pub update-Agree :
      (id : String) (status : TaskStatus) (result : Option (Dict String Json))
      (error : Option String) (now : ℕ)
      → live now id r ≡ lookup id r
      → ((memory_update_status id status result error now s).0
          ≡ (update_status seconds_left id status result error now r).0)
        × Agree
            (memory_update_status id status result error now s).1
            (update_status seconds_left id status result error now r).1
  update-Agree id status result error now k = elim (held id) [
    | inl (missing, gone) ↦
        both-Agree (memory_update_status id status result error now s)
          (update_status seconds_left id status result error now r) (err key_error) s r
          (unfold memory_update_status in ground arith) (unfold update_status in ground arith) a
    | inr (task, e, found, there, same) ↦
        (let old = settled_with status result error now task in
          let new = written seconds_left now (settled_with status result error now e.task) e in
          both-Agree (memory_update_status id status result error now s)
            (update_status seconds_left id status result error now r) (ok tt) (insert id old s)
            (insert id new r) (unfold memory_update_status in ground arith)
            (unfold update_status in ground arith)
            (written-Agree id old new s r (unfold stored in ground (arith, same)) a))
  ]

  claim_held :
      (id : String) (lease now : ℕ)
      → live now id r ≡ lookup id r
      → leb lease 0 ≡ false
      → (task : TaskRecord) (e : Entry) → lookup id s ≡ some task
      → lookup id r ≡ some e
      → stored task ≡ e.task
      → ((memory_mark_processing id lease now s).0
          ≡ (mark_processing seconds_left [] id lease now r).0)
        × Agree
            (memory_mark_processing id lease now s).1
            (mark_processing seconds_left [] id lease now r).1
  claim_held id lease now k lasts task e found there same =
      let c : claimable e.task now ≡ claimable task now =
        ap (λ x. claimable x now) (sym same) ∙ claimable-stored task now in
      elim (Bool-cases (claimable task now)) [
        | inl free ↦
            (let new = written seconds_left now (claimed lease now e.task) e in
              both-Agree (memory_mark_processing id lease now s)
                (mark_processing seconds_left [] id lease now r) (ok true)
                (insert id (claimed lease now task) s) (insert id new r)
                (unfold memory_mark_processing in ground arith)
                (unfold mark_processing transition claim in ground (arith, c))
                (written-Agree id (claimed lease now task) new s r
                  (unfold stored in ground (arith, same)) a))
        | inr taken ↦
            both-Agree (memory_mark_processing id lease now s)
              (mark_processing seconds_left [] id lease now r) (ok false) s r
              (unfold memory_mark_processing in ground arith)
              (unfold mark_processing transition claim in ground (arith, c)) a
      ]

  pub claim-Agree :
      (id : String) (lease now : ℕ)
      → live now id r ≡ lookup id r
      → ((memory_mark_processing id lease now s).0
          ≡ (mark_processing seconds_left [] id lease now r).0)
        × Agree
            (memory_mark_processing id lease now s).1
            (mark_processing seconds_left [] id lease now r).1
  claim-Agree id lease now k = elim (Bool-cases (leb lease 0)) [
    | inl no_lease ↦
        both-Agree (memory_mark_processing id lease now s)
          (mark_processing seconds_left [] id lease now r) (err value_error) s r
          (unfold memory_mark_processing in ground arith) (unfold mark_processing in ground arith) a
    | inr lasts ↦ elim (held id) [
      | inl (missing, gone) ↦
          both-Agree (memory_mark_processing id lease now s)
            (mark_processing seconds_left [] id lease now r) (err key_error) s r
            (unfold memory_mark_processing in ground arith)
            (unfold mark_processing transition in ground arith) a
      | inr (task, e, found, there, same) ↦ claim_held id lease now k lasts task e found there same
    ]
  ]
