-- ===== src/Tests/Redis.antt =====
-- Runs of app/modules/messaging/tasks/adapters/redis.py: one task.
use ai_platform_template.Base.{ℕ, ◌+◌, ◌/◌, ◌≡◌, ◌++◌, refl, none, List, [], ◌∷◌}
use ai_platform_template.Dict.{lookup, insert}
use ai_platform_template.Tasks.Models.{TaskRecord, queued}
use ai_platform_template.Tasks.Redis.{live, Interference, transition, claim, create}
use ai_platform_template.Tasks.Redis.Atomic.{after, time_after, transition_atomic}
use ai_platform_template.Tasks.Redis.Refinement.{
  Call, redis_call, creating, claiming, failing, memory_replies, redis_replies, redis_replies_agree,
}

abbrev task : TaskRecord
task = record {
  id = "t1";
  type = "completion";
  status = queued;
  payload = [];
  expires_at = 90_000_000;
  attempts = 0;
  result = none;
  error = none;
  created_at = none;
  updated_at = none;
  locked_until = none;
  metadata = [];
  principal_id = "u1";
  request_id = none;
}

-- What is left to a key in seconds, rounded to the nearest.
abbrev seconds_left : ℕ → ℕ
seconds_left ticks = (ticks + 500_000) / 1_000_000

abbrev calls : List Call
calls = creating task 1 ∷ claiming "t1" 30 2 ∷ claiming "t1" 30 9 ∷ failing "t1" "no" 10 ∷ []

-- A claim, another while its lease runs, and an end.
redis_replies_agree_example : memory_replies calls [] ≡ redis_replies seconds_left calls []
unfolding lookup live redis_call insert
redis_replies_agree_example =
    redis_replies_agree seconds_left calls (refl, (tt, (tt, (tt, tt))))
      (tt, (refl, (refl, (refl, tt))))

-- Another worker claims the task first.
abbrev other : Interference
other = (1, λ r. (transition seconds_left [] 4 "t1" (claim 30 4) r).1)

transition_atomic_example :
    (before : List Interference) × (rest : List Interference) × (other ∷ [] ≡ before ++ rest)
    × (transition seconds_left (other ∷ []) 5 "t1" (claim 30 5) (create task 1 [])
        ≡ transition seconds_left []
            (time_after before 5)
            "t1"
            (claim 30 5)
            (after before (create task 1 [])))
transition_atomic_example =
    transition_atomic seconds_left (other ∷ []) 5 "t1" (claim 30 5) (create task 1 [])
