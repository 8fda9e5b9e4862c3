-- ===== src/Quota/Service/Window.antt =====
-- The fixed windows of the quota service.
use ai_platform_template.Base.{ℕ, ◌+◌, ◌*◌, ◌/◌, ◌≤◌, ◌<◌, ◌≡◌, String, arith}
use native.Mathlib.Nat.{add-mul, div-mul-le_self, lt-div-mul-add}
use ai_platform_template.Quota.Service.{second, resolve_fixed_window, retry_after}

-- A window from second `start`, as long as `length` seconds, that holds the second of `now`.
bounds :
    (now start length : ℕ)
    → start ≤ now / second
    → now / second < start + length
    → let reset_at = (start + length) * second in
      (now < reset_at)
      × (reset_at ≤ now + length * second)
      × (1 ≤ retry_after reset_at now)
      × (reset_at ≤ now + retry_after reset_at now * second)
unfolding retry_after
bounds now start length h l = ground arith

next_start : (index length : ℕ) → (index + 1) * length ≡ index * length + length
next_start index length = omega (arith, add-mul index 1 length)

-- The window of a time, for a positive width, holds the time: it ends after it, no later than one
-- width on, and whoever waits as many seconds as the refusal asks for, at least one, is in a later
-- window.
pub window_holds :
    (str : ℕ → String) (now window_seconds : ℕ)
    → 0 < window_seconds
    → let w = resolve_fixed_window str now window_seconds in
      (now < w.reset_at)
      × (w.reset_at ≤ now + window_seconds * second)
      × (1 ≤ retry_after w.reset_at now)
      × (w.reset_at ≤ now + retry_after w.reset_at now * second)
unfolding resolve_fixed_window retry_after
window_holds str now window_seconds p =
    rw (next_start (now / second / window_seconds) window_seconds) (
      bounds now (now / second / window_seconds * window_seconds) window_seconds
        (div-mul-le_self (now / second) window_seconds)
        (ground (arith, lt-div-mul-add {a = now / second} p)))
