-- ===== src/RateLimit/Eviction.antt =====
-- Evicting stale buckets never changes an answer: the eviction threshold is a matter of memory alone.
use native.Mathlib.Nat.{le-div_iff_mul-le, div-mul-le_self, le_trans}
use ai_platform_template.Base.{
  ℕ, ◌+◌, ◌-◌, ◌*◌, ◌/◌, ◌%◌, ◌≤◌, ◌<◌, ◌≡◌, refl, sym, ap, ◌∙◌, String, true, false, ◌&&◌, some,
  none, max, leb, List, [], ◌∷◌, arith, if◌then◌else◌,
}
use mathlib.Core.Path.{ap₂, subst}
use ai_platform_template.Base.Eq.{◌==◌, ==_iff, string_eq, nat_eq, pair_eq}
use ai_platform_template.Dict.Laws.{lookup-insert}
use ai_platform_template.RateLimit.{
  Floats, weight_at, InMemoryRateLimiter, RateLimitResult, Bucket, window_index, count_at, width,
  weight_previous, check, check_evicted, second,
}
use ai_platform_template.RateLimit.Limit.{
  count_of, own_bucket, admitted, evicted, count-evict, settings-evict, weighted-evict, index-evict,
}

-- The clock does not run backwards from `t` on.
abbrev pub IsMonotone : ℕ → List (String × ℕ) → Type 0
IsMonotone t [] = Unit
IsMonotone t ((_, now) ∷ cs) = (t ≤ now) × IsMonotone now cs

-- Two limiters agree from `t` on: the same settings but for the eviction, and the same counts in the
-- windows that still matter.
pub record Agree (t : ℕ) (l m : InMemoryRateLimiter) : Type 0 where
  pub limit : l.limit ≡ m.limit
  pub window : l.window_seconds ≡ m.window_seconds
  pub counts : (b : Bucket) → window_index l t ≤ b.1 + 1 → count_of l b ≡ count_of m b

div_mono : (a b w : ℕ) → 0 < w → a ≤ b → a / w ≤ b / w
div_mono a b w p h = (le-div_iff_mul-le p).1 (le_trans (div-mul-le_self a w) h)

-- The windows that matter at `now` mattered before.
still_live :
    (t now : ℕ) (l : InMemoryRateLimiter) (index : ℕ)
    → t ≤ now
    → 0 < l.window_seconds
    → window_index l now ≤ index + 1
    → window_index l t ≤ index + 1
still_live t now l index h p q =
    le_trans (ground (arith, div_mono t now (width l) (ground arith) h)) q

module _ (floats : Floats) where
  -- The answers to a row of checks.
  unfoldable pub answers : List (String × ℕ) → InMemoryRateLimiter → List RateLimitResult
  answers [] l = []
  answers ((key, now) ∷ cs) l = let (result, l') = check floats key now l in result ∷ answers cs l'

  -- The answer as a function of the settings and the two counts.
  abbrev answer_from : ℕ → ℕ → ℕ → ℕ → ℕ → RateLimitResult
  answer_from limit window_seconds now current previous =
      let share =
        weight_at floats previous (now % (window_seconds * second)) (window_seconds * second) in
      if leb limit (current + share)
      then record {
        allowed = false;
        remaining = 0;
        retry_after_seconds =
            some (max ((window_seconds * second - now % (window_seconds * second)) / second) 1);
      }
      else record {
        allowed = true;
        remaining = max (limit - (current + 1 + share)) 0;
        retry_after_seconds = none;
      }

  answer_evicted :
      (key : String) (now : ℕ) (l : InMemoryRateLimiter)
      → (check_evicted floats key now l).0
        ≡ answer_from l.limit l.window_seconds now
            (count_at l key (window_index l now))
            (count_at l key (window_index l now - 1))
  unfolding weight_previous
  answer_evicted key now l = ground arith

  answer_check :
      (key : String) (now : ℕ) (l : InMemoryRateLimiter)
      → (check floats key now l).0
        ≡ answer_from l.limit l.window_seconds now
            (count_at l key (window_index l now))
            (count_at l key (window_index l now - 1))
  unfolding check
  answer_check key now l =
      let s = settings-evict (window_index l now) l in
      let here = (count-evict (window_index l now) l key (window_index l now)).0 (omega arith) in
      let before =
        (count-evict (window_index l now) l key (window_index l now - 1)).0 (omega arith) in
      ground (arith, answer_evicted key now (evicted now l), s, here, before, index-evict now l)

  count_evicted :
      (key : String) (now : ℕ) (l : InMemoryRateLimiter) (b : Bucket)
      → count_of (check_evicted floats key now l).1 b ≡ (
          if admitted floats key now l && own_bucket key now l == b
          then count_of l b + 1
          else count_of l b)
  count_evicted key now l b = ground (
    arith,
    lookup-insert (own_bucket key now l) b (count_of l (own_bucket key now l) + 1) l.counts,
    ==_iff (own_bucket key now l) b,
  )

  count_check :
      (key : String) (now : ℕ) (l : InMemoryRateLimiter) (b : Bucket)
      → window_index l now ≤ b.1 + 1
      → count_of (check floats key now l).1 b ≡ (
          if admitted floats key now l && own_bucket key now l == b
          then count_of l b + 1
          else count_of l b)
  unfolding check
  count_check key now l b h = ground (
    arith,
    count_evicted key now (evicted now l) b,
    (settings-evict (window_index l now) l).0,
    weighted-evict floats key now l,
    index-evict now l,
    (count-evict (window_index l now) l b.0 b.1).0 h,
  )

  settings_check :
      (key : String) (now : ℕ) (l : InMemoryRateLimiter)
      → ((check floats key now l).1.limit ≡ l.limit)
        × ((check floats key now l).1.window_seconds ≡ l.window_seconds)
  unfolding check
  settings_check key now l = ground (arith, settings-evict (window_index l now) l)

  module _ (key : String) (t now : ℕ) (l m : InMemoryRateLimiter) (h : t ≤ now)
      (p : 0 < l.window_seconds) (a : Agree t l m) where
    same_index : window_index l now ≡ window_index m now
    same_index = ap (λ w. now / (w * second) + 1) a.window

    same_here : count_at l key (window_index l now) ≡ count_at m key (window_index m now)
    same_here =
        a.counts (key, window_index l now)
          (still_live t now l (window_index l now) h p (omega arith))
        ∙ ap (count_at m key) same_index

    same_before : count_at l key (window_index l now - 1) ≡ count_at m key (window_index m now - 1)
    same_before =
        a.counts (key, window_index l now - 1)
          (still_live t now l (window_index l now - 1) h p (omega arith))
        ∙ ap (λ i. count_at m key (i - 1)) same_index

    same_answer : (check floats key now l).0 ≡ (check floats key now m).0
    same_answer =
        answer_check key now l
        ∙ ap₂
            (λ limit w.
              answer_from limit w now (count_at l key (window_index l now))
                (count_at l key (window_index l now - 1)))
            a.limit a.window
        ∙ ap₂ (answer_from m.limit m.window_seconds now) same_here same_before
        ∙ sym (answer_check key now m)

    same_admitted : admitted floats key now l ≡ admitted floats key now m
    unfolding weight_previous
    same_admitted = ground (arith, a.limit, a.window, same_here, same_before)

    same_count :
        (b : Bucket)
        → window_index (check floats key now l).1 now ≤ b.1 + 1
        → count_of (check floats key now l).1 b ≡ count_of (check floats key now m).1 b
    same_count b q =
        count_check key now l b live
        ∙ ap₂ (λ hit n. if hit then n + 1 else n)
            (ap₂ (λ x i. x && (key, i) == b) same_admitted same_index)
            (a.counts b (still_live t now l b.1 h p live))
        ∙ sym (count_check key now m b (subst (λ i. i ≤ b.1 + 1) same_index live))
      where
        live : window_index l now ≤ b.1 + 1
        live = subst (λ w. now / (w * second) + 1 ≤ b.1 + 1) (settings_check key now l).1 q

    check-Agree : Agree now (check floats key now l).1 (check floats key now m).1
    check-Agree = record {
      limit = (settings_check key now l).0 ∙ a.limit ∙ sym (settings_check key now m).0;
      window = (settings_check key now l).1 ∙ a.window ∙ sym (settings_check key now m).1;
      counts = same_count;
    }

  -- Two limiters with the same limit and positive window width that agree on the counts that still
  -- matter answer every later row of checks alike, if the clock does not run backwards: eviction
  -- thresholds never show.
  pub eviction_transparent :
      (cs : List (String × ℕ)) (t : ℕ) (l m : InMemoryRateLimiter)
      → 0 < l.window_seconds
      → IsMonotone t cs
      → Agree t l m
      → answers cs l ≡ answers cs m
  unfolding answers
  eviction_transparent [] t l m p h a = refl
  eviction_transparent ((key, now) ∷ cs) t l m p h a =
      ap₂ (λ r rs. r ∷ rs) (same_answer key t now l m h.0 p a)
        (eviction_transparent cs now (check floats key now l).1 (check floats key now m).1
          (ground (arith, settings_check key now l)) h.1 (check-Agree key t now l m h.0 p a))
