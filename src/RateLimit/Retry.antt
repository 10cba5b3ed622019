-- ===== src/RateLimit/Retry.antt =====
-- What a client is told that is refused.
use native.Mathlib.Nat.{lt-div-mul-add, div-lt_iff_lt-mul}
use cryptiq.Shared.{
  ℕ, ◌+◌, ◌-◌, ◌*◌, ◌/◌, ◌<◌, ◌≤◌, String, ◌≡◌, Bool, true, false, some, arith, ◌||◌, string_eq,
  pair_eq, Option-cases, inl, inr,
}
use cryptiq.Shared.Dict.{lookup, IsDict}
use cryptiq.RateLimit.{Key, Window, RateLimiter, seconds_left, check}
use cryptiq.RateLimit.Counting.{counted, window_start}
use cryptiq.RateLimit.Decision.{decision, check-decision, is_over, wait_for}

-- Rounding up to whole units.
ceil_covers : (x t : ℕ) → 0 < t → x ≤ (x + (t - 1)) / t * t
ceil_covers x t pos = omega (arith, lt-div-mul-add {a = x + (t - 1)} {b = t} pos)

-- The end of the window that a request at `now` counts in, in ticks.
abbrev pub window_end : RateLimiter → ℕ → Key → ℕ
window_end l now key = window_start l now key + l.window * l.ticks

ceil_le : (x t n : ℕ) → 0 < t → x ≤ n * t → (x + (t - 1)) / t ≤ n
ceil_le x t n pos h =
    omega (arith, (div-lt_iff_lt-mul {x = x + (t - 1)} {y = n + 1} pos).1 (omega arith))

-- The clock has not gone back: no window starts after `now`.
pub record IsPast (now : ℕ) (l : RateLimiter) : Type 0 where
  pub started : (key : Key) (win : Window) → lookup key l.windows ≡ some win → win.start ≤ now

module _ (l : RateLimiter) (now : ℕ) (ticking : 0 < l.ticks) where
  wait_for_covers :
      (key : Key) (limit : ℕ)
      → is_over l now key limit ≡ true
      → window_end l now key ≤ now + wait_for l now key limit * l.ticks
  unfolding wait_for seconds_left counted
  wait_for_covers key limit over =
      ground (arith, ceil_covers (window_end l now key - now) l.ticks ticking)

  window_start_past : (key : Key) → IsPast now l → window_start l now key ≤ now
  unfolding window_start
  window_start_past key past = elim (Option-cases (lookup key l.windows)) [
    | inl e ↦ rw (e, window_start) (omega arith)
    | inr (win, e) ↦ ground (arith, past.started key win e)
  ]

  wait_for_le : (key : Key) (limit : ℕ) → IsPast now l → wait_for l now key limit ≤ l.window
  unfolding wait_for seconds_left counted
  wait_for_le key limit past = ground (
    arith,
    window_start_past key past,
    ceil_le (window_end l now key - now) l.ticks l.window ticking,
  )

  covers_mono :
      (key : Key) (w s : ℕ)
      → w ≤ s
      → window_end l now key ≤ now + w * l.ticks
      → window_end l now key ≤ now + s * l.ticks
  covers_mono key w s h c = grind arith

  -- A refused client waits at least a second and at most a window, and after that wait each window
  -- whose limit the request passed has ended.
  pub decision_refused :
      (ip bucket : String) (n d s : ℕ)
      → IsPast now l
      → 0 < l.window
      → decision l now ip bucket n d ≡ (false, s)
      → (1 ≤ s)
        × (s ≤ l.window)
        × (is_over l now (ip, bucket) n ≡ true → window_end l now (ip, bucket) ≤ now + s * l.ticks)
        × (is_over l now (ip, "default") d ≡ true
            → window_end l now (ip, "default") ≤ now + s * l.ticks)
        × (is_over l now (ip, bucket) n || is_over l now (ip, "default") d ≡ true)
  unfolding decision
  decision_refused ip bucket n d s past pos h = (
    ground arith,
    ground (arith, wait_for_le (ip, bucket) n past, wait_for_le (ip, "default") d past),
    λ o.
        covers_mono (ip, bucket) (wait_for l now (ip, bucket) n) s (ground arith)
          (wait_for_covers (ip, bucket) n o),
    λ o.
        covers_mono (ip, "default") (wait_for l now (ip, "default") d) s (ground arith)
          (wait_for_covers (ip, "default") d o),
    ground arith,
  )

-- What `check` tells a client that it refuses, in whatever order it looks at the buckets: to wait
-- for at least a second and at most the window, and long enough for each window whose limit the
-- request passed to end. The buckets have limits, the window is positive and the clock has not
-- gone back.
pub check_refused :
    (l : RateLimiter) (now : ℕ) (default_first : Bool) (ip bucket : String) (n d s : ℕ)
    → 0 < l.ticks
    → 0 < l.window
    → IsDict l.windows
    → IsPast now l
    → lookup bucket l.limits ≡ some n
    → lookup "default" l.limits ≡ some d
    → (check default_first now ip bucket l).1 ≡ some (false, s)
    → (1 ≤ s)
      × (s ≤ l.window)
      × (is_over l now (ip, bucket) n ≡ true → window_end l now (ip, bucket) ≤ now + s * l.ticks)
      × (is_over l now (ip, "default") d ≡ true
          → window_end l now (ip, "default") ≤ now + s * l.ticks)
      × (is_over l now (ip, bucket) n || is_over l now (ip, "default") d ≡ true)
check_refused l now default_first ip bucket n d s ticking pos h past en ed refused =
    decision_refused l now ticking ip bucket n d s past pos
      (cc (check-decision l now ip default_first bucket n d h en ed))
