-- ===== src/Http/InFlight.antt =====
-- app/core/middleware.py: InFlightTracker and InFlightTrackerMiddleware, over any interleaving of
-- requests that come in and end.
use ai_platform_template.Base.{
  ℕ, suc, ◌+◌, ◌-◌, ◌≡◌, refl, String, Bool, true, false, ◌||◌, List, [], ◌∷◌, nat_beq, length,
  arith, if◌then◌else◌,
}
use ai_platform_template.Base.Eq.{◌==◌, string_eq}

-- `idle` is whether the event `_idle` is set.
pub record InFlightTracker : Type 0 where
  pub count : ℕ
  pub idle : Bool

abbrev pub new_tracker : InFlightTracker
new_tracker = record { count = 0; idle = true }

unfoldable pub acquire : InFlightTracker → InFlightTracker
acquire t = record { count = t.count + 1; idle = false }

-- Python's `max(0, self._count - 1)` is subtraction that stops at 0.
unfoldable pub release : InFlightTracker → InFlightTracker
release t = record { count = t.count - 1; idle = if nat_beq (t.count - 1) 0 then true else t.idle }

-- A request that comes in, HTTP or not, and one that ends, however it ends.
pub data Event : Type 0 where
  enters : Bool → String → Event
  ends : String → Event

-- The HTTP requests inside the middleware, and its tracker.
pub record Pool : Type 0 where
  pub running : List String
  pub tracker : InFlightTracker

abbrev pub empty_pool : Pool
empty_pool = record { running = []; tracker = new_tracker }

abbrev holds : String → List String → Bool
holds id [] = false
holds id (j ∷ js) = j == id || holds id js

abbrev without : String → List String → List String
without id [] = []
without id (j ∷ js) = if j == id then js else j ∷ without id js

-- `__call__` up to the application, and its `finally` clause
unfoldable pub step : Event → Pool → Pool
unfolding acquire release
step (enters false id) p = p
step (enters true id) p = record { running = id ∷ p.running; tracker = acquire p.tracker }
step (ends id) p =
    if holds id p.running
    then record { running = without id p.running; tracker = release p.tracker }
    else p

unfoldable pub steps : List Event → Pool → Pool
unfolding step
steps [] p = p
steps (e ∷ es) p = steps es (step e p)

-- The wait on the event, for what happens until the timeout.
unfoldable pub wait_event : List Event → Pool → Bool
unfolding step
wait_event [] p = p.tracker.idle
wait_event (e ∷ es) p = let rest = wait_event es (step e p) in p.tracker.idle || rest

-- `wait_idle`
unfoldable pub wait_idle : List Event → Pool → Bool
unfolding wait_event
wait_idle es p = if nat_beq p.tracker.count 0 then true else wait_event es p

abbrev nothing : List String → Bool
nothing [] = true
nothing (_ ∷ _) = false

-- Whether no request runs at some point of the events.
abbrev pub comes_to_rest : List Event → Pool → Bool
comes_to_rest [] p = nothing p.running
comes_to_rest (e ∷ es) p = nothing p.running || comes_to_rest es (step e p)

abbrev pub IsCounted : Pool → Type 0
IsCounted p = (p.tracker.count ≡ length p.running) × (p.tracker.idle ≡ nothing p.running)

length-without :
    (id : String) (js : List String) → holds id js ≡ true → length js ≡ suc (length (without id js))
length-without id [] h = ground arith
length-without id (j ∷ js) h = ground (arith, length-without id js)

counted_nothing : (js : List String) → nothing js ≡ nat_beq (length js) 0
counted_nothing [] = refl
counted_nothing (j ∷ js) = ground arith

step-IsCounted : (e : Event) (p : Pool) → IsCounted p → IsCounted (step e p)
unfolding step acquire release
step-IsCounted (enters false id) p c = c
step-IsCounted (enters true id) p c = (ground arith, refl)
step-IsCounted (ends id) p c = (
  ground (arith, length-without id p.running),
  ground (
    arith,
    length-without id p.running,
    counted_nothing p.running,
    counted_nothing (without id p.running),
  ),
)

steps-IsCounted : (es : List Event) (p : Pool) → IsCounted p → IsCounted (steps es p)
unfolding steps
steps-IsCounted [] p c = c
steps-IsCounted (e ∷ es) p c = steps-IsCounted es (step e p) (step-IsCounted e p c)

wait_event_lem : (es : List Event) (p : Pool) → IsCounted p → wait_event es p ≡ comes_to_rest es p
unfolding wait_event
wait_event_lem [] p c = c.1
wait_event_lem (e ∷ es) p c = ground (arith, wait_event_lem es (step e p) (step-IsCounted e p c))

rests_now : (es : List Event) (p : Pool) → nothing p.running ≡ true → comes_to_rest es p ≡ true
rests_now [] p h = h
rests_now (e ∷ es) p h = ground arith

-- From the start, after any requests have come in and ended in any order, however each ended, the
-- count is the number of HTTP requests that still run; and a wait that follows gives True exactly when no
-- request runs at some point of what happens until its timeout.
pub wait_idle_exact :
    (before during : List Event)
    → ((steps before empty_pool).tracker.count ≡ length (steps before empty_pool).running)
      × (wait_idle during (steps before empty_pool)
          ≡ comes_to_rest during (steps before empty_pool))
unfolding wait_idle
wait_idle_exact before during =
    let c = steps-IsCounted before empty_pool (refl, refl) in
    (
      c.0,
      ground (
        arith,
        wait_event_lem during (steps before empty_pool) c,
        rests_now during (steps before empty_pool),
        counted_nothing (steps before empty_pool).running,
      ),
    )
