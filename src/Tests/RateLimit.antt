-- ===== src/Tests/RateLimit.antt =====
-- Runs of app/modules/platform/rate_limit: two requests a minute.
use ai_platform_template.Base.{
  ℕ, ◌+◌, ◌-◌, ◌*◌, ◌/◌, ◌≤◌, ◌≡◌, ◌&&◌, refl, true, false, not, leb, ltb, if◌then◌else◌, none, [],
  ◌∷◌, arith, is_none, or_else,
}
use ai_platform_template.Base.Eq.{string_eq}
use ai_platform_template.Dict.{lookup}
use ai_platform_template.RateLimit.{
  Floats, InMemoryRateLimiter, second, check, count_at, window_index, evict_if_needed,
  weight_previous,
}
use ai_platform_template.RateLimit.Eviction.{answers, eviction_transparent}
use ai_platform_template.RateLimit.Limit.{IsWithin, sliding, check_decides}

abbrev limiter : InMemoryRateLimiter
limiter = record { limit = 2; window_seconds = 60; eviction_threshold = 10; counts = [] }

-- Fractions in place of floats.
abbrev pub fractions : Floats
fractions = record {
  Value = ℕ × ℕ;
  of = λ n. (n, 1);
  sub = λ x y. (x.0 * y.1 - y.0 * x.1, x.1 * y.1);
  div = λ x y. (x.0 * y.1, x.1 * y.0);
  mul = λ x y. (x.0 * y.0, x.1 * y.1);
  larger = λ x y. if leb (y.0 * x.1) (x.0 * y.1) then x else y;
  floor = λ x. x.0 / x.1;
}

first_check :
    (check fractions "u1" (5 * second) limiter).0
    ≡ record { allowed = true; remaining = 1; retry_after_seconds = none }
unfolding check evict_if_needed weight_previous lookup
first_check = refl

limiter-IsWithin : IsWithin limiter
unfolding lookup
limiter-IsWithin = record { below = λ b. omega arith }

-- Four requests in the first minute.
abbrev busy : InMemoryRateLimiter
busy = record limiter { limit = 9; counts = (("u1", 1), 4) ∷ [] }

check_decides_example :
    let (result, l') = check fractions "u1" (65 * second) busy in
    ((ltb (sliding fractions "u1" (65 * second) busy + 1) 9 && not result.allowed) ≡ false)
    × ((result.allowed && ltb 9 (sliding fractions "u1" (65 * second) busy)) ≡ false)
    × (is_none result.retry_after_seconds ≡ result.allowed)
    × (1 ≤ or_else result.retry_after_seconds 1)
    × (result.remaining
        ≤ (if result.allowed then 9 - sliding fractions "u1" (65 * second) busy else 0))
    × ((if result.allowed then 9 - (sliding fractions "u1" (65 * second) busy + 2) else 0)
        ≤ result.remaining)
    × (count_at l' "u1" (window_index busy (65 * second)) ≡ (
        if result.allowed && true
        then count_at busy "u1" (window_index busy (65 * second)) + 1
        else count_at busy "u1" (window_index busy (65 * second))))
    × (count_at l' "u1" (window_index busy (65 * second) - 1)
        ≡ count_at busy "u1" (window_index busy (65 * second) - 1))
check_decides_example =
    check_decides fractions "u1" "u1" (65 * second) busy
      (unfold lookup in (omega arith, omega arith))

abbrev roomy : InMemoryRateLimiter
roomy = record limiter { eviction_threshold = 1000 }

eviction_transparent_example :
    answers fractions (("u1", 5 * second) ∷ ("u1", 70 * second) ∷ []) limiter
    ≡ answers fractions (("u1", 5 * second) ∷ ("u1", 70 * second) ∷ []) roomy
eviction_transparent_example =
    eviction_transparent fractions (("u1", 5 * second) ∷ ("u1", 70 * second) ∷ []) 0 limiter roomy
      (omega arith) (omega arith, (omega arith, tt))
      (record { limit = refl; window = refl; counts = λ b q. refl })
