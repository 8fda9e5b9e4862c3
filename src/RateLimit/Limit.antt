-- ===== src/RateLimit/Limit.antt =====
-- What the limiter admits.
use ai_platform_template.Base.{
  ℕ, ◌+◌, ◌-◌, ◌*◌, ◌/◌, ◌≤◌, ◌≡◌, String, Bool, false, not, arith, ltb, if◌then◌else◌, is_none,
  or_else, ◌&&◌,
}
use ai_platform_template.Base.Eq.{◌==◌, ==_iff, string_eq, nat_eq, pair_eq}
use ai_platform_template.Dict.Laws.{lookup-insert, lookup-keep_keys}
use ai_platform_template.RateLimit.{
  Floats, weight_at, width, elapsed, InMemoryRateLimiter, Bucket, window_index, count_at,
  weight_previous, evict_if_needed, check, check_evicted,
}

-- Eviction keeps the buckets of the current and the previous window, and never raises a count.
pub count-evict :
    (current : ℕ) (l : InMemoryRateLimiter) (key : String) (index : ℕ)
    → (current ≤ index + 1 → count_at (evict_if_needed current l) key index ≡ count_at l key index)
      × (count_at (evict_if_needed current l) key index ≤ count_at l key index)
unfolding evict_if_needed
count-evict current l key index =
    ground
      (arith, lookup-keep_keys (λ (b : Bucket). not (ltb (b.1 + 1) current)) (key, index) l.counts)

pub settings-evict :
    (current : ℕ) (l : InMemoryRateLimiter)
    → ((evict_if_needed current l).limit ≡ l.limit)
      × ((evict_if_needed current l).window_seconds ≡ l.window_seconds)
unfolding evict_if_needed
settings-evict current l = ground arith

-- The bucket of the request itself.
abbrev pub own_bucket : String → ℕ → InMemoryRateLimiter → Bucket
own_bucket key now l = (key, window_index l now)

abbrev pub count_of : InMemoryRateLimiter → Bucket → ℕ
count_of l b = count_at l b.0 b.1

abbrev pub evicted : ℕ → InMemoryRateLimiter → InMemoryRateLimiter
evicted now l = evict_if_needed (window_index l now) l

pub index-evict :
    (now : ℕ) (l : InMemoryRateLimiter) → window_index (evicted now l) now ≡ window_index l now
index-evict now l = rw ((settings-evict (window_index l now) l).1)

-- No bucket of a limiter counts more than the limit.
pub record IsWithin (l : InMemoryRateLimiter) : Type 0 where
  pub below : (b : Bucket) → count_of l b ≤ l.limit

module _ (floats : Floats) where
  -- The weighted number of requests that the limiter sees at `now`, this one not counted.
  abbrev pub weighted : String → ℕ → InMemoryRateLimiter → ℕ
  weighted key now l =
      count_at l key (window_index l now)
      + weight_previous floats l now (count_at l key (window_index l now - 1))

  pub weighted-evict :
      (key : String) (now : ℕ) (l : InMemoryRateLimiter)
      → weighted key now (evict_if_needed (window_index l now) l) ≡ weighted key now l
  unfolding weight_previous
  weighted-evict key now l = rw ((settings-evict (window_index l now) l).1) (
      ground (
        arith,
        (count-evict (window_index l now) l key (window_index l now)).0 (omega arith),
        (count-evict (window_index l now) l key (window_index l now - 1)).0 (omega arith),
      ))

  -- Whether a check admits.
  abbrev pub admitted : String → ℕ → InMemoryRateLimiter → Bool
  admitted key now l = ltb (weighted key now l) l.limit

  check_evicted_decides :
      (key other : String) (now : ℕ) (l : InMemoryRateLimiter)
      → let (result, l') = check_evicted floats key now l in
        (result.allowed ≡ admitted key now l)
        × (is_none result.retry_after_seconds ≡ admitted key now l)
        × (1 ≤ or_else result.retry_after_seconds 1)
        × (result.remaining
            ≡ (if admitted key now l then l.limit - (weighted key now l + 1) else 0))
        × (count_at l' other (window_index l now) ≡ (
            if admitted key now l && key == other
            then count_at l other (window_index l now) + 1
            else count_at l other (window_index l now)))
        × (count_at l' other (window_index l now - 1) ≡ count_at l other (window_index l now - 1))
  check_evicted_decides key other now l = (
    ground arith,
    ground arith,
    ground arith,
    ground arith,
    ground (
      arith,
      lookup-insert (own_bucket key now l) (other, window_index l now)
          (count_of l (own_bucket key now l) + 1) l.counts,
      ==_iff (own_bucket key now l) (other, window_index l now),
      ==_iff key other,
    ),
    ground (
      arith,
      lookup-insert (own_bucket key now l) (other, window_index l now - 1)
          (count_of l (own_bucket key now l) + 1) l.counts,
      ==_iff (own_bucket key now l) (other, window_index l now - 1),
    ),
  )

  check_admits :
      (key other : String) (now : ℕ) (l : InMemoryRateLimiter)
      → let (result, l') = check floats key now l in
        (result.allowed ≡ admitted key now l)
        × (is_none result.retry_after_seconds ≡ admitted key now l)
        × (1 ≤ or_else result.retry_after_seconds 1)
        × (result.remaining
            ≡ (if admitted key now l then l.limit - (weighted key now l + 1) else 0))
        × (count_at l' other (window_index l now) ≡ (
            if admitted key now l && key == other
            then count_at l other (window_index l now) + 1
            else count_at l other (window_index l now)))
        × (count_at l' other (window_index l now - 1) ≡ count_at l other (window_index l now - 1))
  unfolding check
  check_admits key other now l =
      let d = check_evicted_decides key other now (evicted now l) in
      let s = settings-evict (window_index l now) l in
      let w = weighted-evict key now l in
      let i = index-evict now l in
      let here = (count-evict (window_index l now) l other (window_index l now)).0 (omega arith) in
      let before =
        (count-evict (window_index l now) l other (window_index l now - 1)).0 (omega arith) in
      (
        ground (arith, d.0, s.0, w),
        ground (arith, d.1, s.0, w),
        d.2,
        ground (arith, d.3, s.0, w),
        ground (arith, d.4, i, w, s.0, here),
        ground (arith, d.5, i, before),
      )

  -- The float product rounded down is within one of the exact share, which holds for counts and windows far
  -- below 2 ^ 53.
  abbrev pub IsClose : ℕ → ℕ → ℕ → Type 0
  IsClose previous passed window =
      (weight_at floats previous passed window ≤ previous * (window - passed) / window + 1)
      × (previous * (window - passed) / window ≤ weight_at floats previous passed window + 1)

  -- The requests of the window of `now`, with the share of those of the window before in the part of a
  -- window that is left.
  abbrev pub sliding : String → ℕ → InMemoryRateLimiter → ℕ
  sliding key now l =
      count_at l key (window_index l now)
      + count_at l key (window_index l now - 1) * (width l - elapsed l now) / width l

  -- If the float weight of the previous window is within one of its exact share: a check is not refused
  -- when the sliding count is less than the limit by more than one, and not admitted when it is more than
  -- the limit. An admission reports no wait, and what the sliding count and the request leave of the limit,
  -- by one more or less; a refusal reports 0 and a wait of a second or more. An admission counts the request
  -- in the window of `now` under its own key and under no other, a refusal nowhere; the counts of the
  -- previous window stay, eviction or not.
  pub check_decides :
      (key other : String) (now : ℕ) (l : InMemoryRateLimiter)
      → IsClose (count_at l key (window_index l now - 1)) (elapsed l now) (width l)
      → let (result, l') = check floats key now l in
        ((ltb (sliding key now l + 1) l.limit && not result.allowed) ≡ false)
        × ((result.allowed && ltb l.limit (sliding key now l)) ≡ false)
        × (is_none result.retry_after_seconds ≡ result.allowed)
        × (1 ≤ or_else result.retry_after_seconds 1)
        × (result.remaining ≤ (if result.allowed then l.limit - sliding key now l else 0))
        × ((if result.allowed then l.limit - (sliding key now l + 2) else 0) ≤ result.remaining)
        × (count_at l' other (window_index l now) ≡ (
            if result.allowed && key == other
            then count_at l other (window_index l now) + 1
            else count_at l other (window_index l now)))
        × (count_at l' other (window_index l now - 1) ≡ count_at l other (window_index l now - 1))
  unfolding weight_previous
  check_decides key other now l h =
      let d = check_admits key other now l in
      (
        ground (arith, d.0, h),
        ground (arith, d.0, h),
        ground (arith, d.0, d.1),
        d.2,
        ground (arith, d.0, d.3, h),
        ground (arith, d.0, d.3, h),
        ground (arith, d.0, d.4),
        d.5,
      )

  check_evicted-IsWithin :
      (key : String) (now : ℕ) (l : InMemoryRateLimiter)
      → IsWithin l
      → IsWithin (check_evicted floats key now l).1
  check_evicted-IsWithin key now l w = record {
    below = λ b. ground (
      arith,
      w.below b,
      lookup-insert (own_bucket key now l) b (count_of l (own_bucket key now l) + 1) l.counts,
    );
  }

  -- The limit of one window: if no bucket counts more than the limit, none does after a check.
  pub check-IsWithin :
      (key : String) (now : ℕ) (l : InMemoryRateLimiter)
      → IsWithin l
      → IsWithin (check floats key now l).1
  unfolding check
  check-IsWithin key now l w = check_evicted-IsWithin key now (evicted now l) (record {
    below = λ b. ground (
      arith,
      (count-evict (window_index l now) l b.0 b.1).1,
      settings-evict (window_index l now) l,
      w.below b,
    );
  })
