-- ===== src/RateLimit.antt =====
-- app/modules/platform/rate_limit/service.py: InMemoryRateLimiter. A time is a number of ticks, of
-- which `second` make a second; the arithmetic of floats is an argument.
pub mod Eviction
pub mod Limit
use ai_platform_template.Base.{
  ℕ, ◌+◌, ◌-◌, ◌*◌, ◌/◌, ◌%◌, max, String, Bool, true, false, not, ◌||◌, Option, none, some, [],
  leb, ltb, length, or_else, if◌then◌else◌,
}
use ai_platform_template.Base.Eq.{◌==◌, string_eq, nat_eq, pair_eq}
use ai_platform_template.Base.Result.{Exception, value_error, Result, ok, err}
use ai_platform_template.Dict.{Dict, lookup, insert, keep}

abbrev pub second : ℕ
second = 1_000_000

pub record RateLimitResult : Type 0 where
  pub allowed : Bool
  pub remaining : ℕ
  pub retry_after_seconds : Option ℕ

-- (key, window_index); the index of the window before the first one is -1, so indices are shifted by
-- one here.
abbrev pub Bucket : Type 0
Bucket = String × ℕ

pub record InMemoryRateLimiter : Type 0 where
  pub limit : ℕ
  pub window_seconds : ℕ
  pub eviction_threshold : ℕ
  pub counts : Dict Bucket ℕ

-- `__init__`
unfoldable pub build : ℕ → ℕ → ℕ → Result Exception InMemoryRateLimiter
build limit window_seconds eviction_threshold =
    if leb limit 0 || (leb window_seconds 0 || leb eviction_threshold 0)
    then err value_error
    else ok (record {
      limit = limit;
      window_seconds = window_seconds;
      eviction_threshold = eviction_threshold;
      counts = [];
    })

-- The width of a window in ticks.
abbrev pub width : InMemoryRateLimiter → ℕ
width l = l.window_seconds * second

-- The shifted index of the window that holds `now`; the previous window's is one less.
abbrev pub window_index : InMemoryRateLimiter → ℕ → ℕ
window_index l now = now / width l + 1

abbrev pub elapsed : InMemoryRateLimiter → ℕ → ℕ
elapsed l now = now % width l

abbrev pub count_at : InMemoryRateLimiter → String → ℕ → ℕ
count_at l key index = or_else (lookup (key, index) l.counts) 0

-- The arithmetic of Python's floats, with `int` of what is not negative.
pub record Floats : Type 1 where
  pub Value : Type 0
  pub of : ℕ → Value
  pub sub : Value → Value → Value
  pub div : Value → Value → Value
  pub mul : Value → Value → Value
  pub larger : Value → Value → Value
  pub floor : Value → ℕ

-- A bucket with `index < current - 1` is stale.
unfoldable pub evict_if_needed : ℕ → InMemoryRateLimiter → InMemoryRateLimiter
unfolding keep
evict_if_needed current l =
    if ltb (length l.counts) l.eviction_threshold
    then l
    else record l { counts = keep (λ bucket _. not (ltb (bucket.1 + 1) current)) l.counts }

module _ (floats : Floats) where
  -- `int(previous * max(1.0 - elapsed / window, 0.0))`
  abbrev pub weight_at : ℕ → ℕ → ℕ → ℕ
  weight_at previous passed window = floats.floor (
      floats.mul (floats.of previous) (
        floats.larger (floats.sub (floats.of 1) (floats.div (floats.of passed) (floats.of window)))
          (floats.of 0)))

  -- `int(previous * previous_weight)`
  unfoldable pub weight_previous : InMemoryRateLimiter → ℕ → ℕ → ℕ
  weight_previous l now previous = floats.floor (
      floats.mul (floats.of previous) (
        floats.larger
          (floats.sub (floats.of 1) (floats.div (floats.of (elapsed l now)) (floats.of (width l))))
          (floats.of 0)))

  abbrev check_on : String → ℕ → ℕ → ℕ → InMemoryRateLimiter → RateLimitResult × InMemoryRateLimiter
  check_on key now current previous l =
      if leb l.limit (current + weight_previous l now previous)
      then (
        record {
          allowed = false;
          remaining = 0;
          retry_after_seconds = some (max ((width l - elapsed l now) / second) 1);
        },
        l,
      )
      else (
        record {
          allowed = true;
          remaining = max (l.limit - (current + 1 + weight_previous l now previous)) 0;
          retry_after_seconds = none;
        },
        record l { counts = insert (key, window_index l now) (current + 1) l.counts },
      )

  abbrev check_evicted : String → ℕ → InMemoryRateLimiter → RateLimitResult × InMemoryRateLimiter
  check_evicted key now l =
      check_on key now (count_at l key (window_index l now))
        (count_at l key (window_index l now - 1)) l

  unfoldable pub check : String → ℕ → InMemoryRateLimiter → RateLimitResult × InMemoryRateLimiter
  unfolding evict_if_needed weight_previous
  check key now l = check_evicted key now (evict_if_needed (window_index l now) l)
