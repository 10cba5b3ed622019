-- ===== src/RateLimit/Counting.antt =====
-- What one round of the loop in `RateLimiter.check` does to the counters.
use cryptiq.Shared.{
  ℕ, ◌+◌, ◌≤◌, String, ◌≡◌, refl, none, some, arith, false, ltb, max, ◌*◌, ◌<◌, ◌==◌, string_eq,
  pair_eq, if◌then◌else◌, Bool-cases, Option-cases, inl, inr, beq_refl,
}
use cryptiq.Shared.Dict.{
  lookup, put, length, IsDict, lookup-put, put-IsDict, lookup-move_to_end, move_to_end-IsDict,
  length-put, length-move_to_end,
}
use cryptiq.RateLimit.{Key, Window, RateLimiter, Verdict, is_expired, current, seconds_left, hit}

-- The requests that a key's present window has counted.
unfoldable pub used : RateLimiter → ℕ → Key → ℕ
used l now key = elim (lookup key l.windows) [
  | none ↦ 0
  | some win ↦ if is_expired l now win then 0 else win.count
]

-- The start of the window in which a request at `now` counts.
unfoldable pub window_start : RateLimiter → ℕ → Key → ℕ
window_start l now key = elim (lookup key l.windows) [
  | none ↦ now
  | some win ↦ if is_expired l now win then now else win.start
]

-- The window of a key after a request has been counted in it.
unfoldable pub counted : RateLimiter → ℕ → Key → Window
counted l now key = record { start = window_start l now key; count = used l now key + 1 }

-- The limiter after a request has been counted under a key.
unfoldable pub after_hit : RateLimiter → ℕ → Key → RateLimiter
after_hit l now key = record l { windows = put key (counted l now key) (current l now key).1 }

-- The verdict after a bucket with a limit is looked at.
unfoldable pub judge : RateLimiter → ℕ → Key → ℕ → Verdict → Verdict
judge l now key limit v =
    if ltb limit (used l now key + 1)
    then record {
      allowed = false;
      retry_after = max v.retry_after (seconds_left l now (counted l now key));
    }
    else v

module _ (l : RateLimiter) (now : ℕ) (key : Key) where
  count-current : (current l now key).0.count ≡ used l now key
  unfolding current used
  count-current = ground arith

  start-current : (current l now key).0.start ≡ window_start l now key
  unfolding current window_start
  start-current = ground arith

  current-IsDict : IsDict l.windows → IsDict (current l now key).1
  unfolding current
  current-IsDict h = elim (Option-cases (lookup key l.windows)) [
    | inl new ↦ rw (new, current) (put-IsDict key _ l.windows h)
    | inr (win, there) ↦
        rw (there, current)
          (elim (Bool-cases (is_expired l now win)) [
            | inl old ↦ rw old (put-IsDict key _ l.windows h)
            | inr young ↦ rw young (move_to_end-IsDict key win l.windows h)
          ])
  ]

  lookup-current :
      (j : Key)
      → IsDict l.windows
      → (key == j) ≡ false
      → lookup j (current l now key).1 ≡ lookup j l.windows
  unfolding current
  lookup-current j h other = ground (
    arith,
    lookup-put key j (record { start = now; count = 0 }) l.windows,
    lookup-move_to_end key j (current l now key).0 l.windows h,
  )

  pub hit-after_hit :
      (ip name : String) (v : Verdict)
      → key ≡ (ip, name)
      → hit now ip name (l, v) ≡ (
        after_hit l now key,
        elim (lookup name l.limits) [ none ↦ none | some limit ↦ some (judge l now key limit v) ],
      )
  unfolding hit after_hit counted judge
  hit-after_hit ip name v e = ground (arith, count-current, start-current)

  pub after_hit-IsDict : IsDict l.windows → IsDict (after_hit l now key).windows
  unfolding after_hit
  after_hit-IsDict h = put-IsDict key _ _ (current-IsDict h)

  pub lookup-after_hit :
      (j : Key)
      → IsDict l.windows
      → lookup j (after_hit l now key).windows
        ≡ (if key == j then some (counted l now key) else lookup j l.windows)
  unfolding after_hit
  lookup-after_hit j h =
      ground (arith, lookup-put key j (counted l now key) (current l now key).1, lookup-current j h)

  -- At most one key is added, and none is lost.
  pub length-after_hit :
      (length l.windows ≤ length (after_hit l now key).windows)
      × (length (after_hit l now key).windows ≤ length l.windows + 1)
  unfolding after_hit current
  length-after_hit = elim (Option-cases (lookup key l.windows)) [
    | inl new ↦ ground (
      arith,
      length-put key (counted l now key) (current l now key).1,
      length-put key (record { start = now; count = 0 }) l.windows,
      lookup-put key key (record { start = now; count = 0 }) l.windows,
      beq_refl key,
    )
    | inr (win, there) ↦ ground (
      arith,
      length-put key (counted l now key) (current l now key).1,
      length-put key (record { start = now; count = 0 }) l.windows,
      length-move_to_end key win l.windows win there,
    )
  ]

  pub used-after_hit_self :
      IsDict l.windows
      → 0 < l.window * l.ticks
      → used (after_hit l now key) now key ≡ used l now key + 1
  unfolding used is_expired after_hit counted window_start
  used-after_hit_self h pos = ground (arith, lookup-after_hit key h, beq_refl key)

  pub used-after_hit_ne :
      (j : Key)
      → IsDict l.windows
      → (key == j) ≡ false
      → used (after_hit l now key) now j ≡ used l now j
  unfolding used is_expired after_hit
  used-after_hit_ne j h other = ground (arith, lookup-after_hit j h)

  pub judge-after_hit_ne :
      (j : Key) (limit : ℕ) (v : Verdict)
      → IsDict l.windows
      → (key == j) ≡ false
      → judge (after_hit l now key) now j limit v ≡ judge l now j limit v
  unfolding judge used window_start counted is_expired after_hit seconds_left
  judge-after_hit_ne j limit v h other = ground (arith, lookup-after_hit j h)

  pub limits-after_hit : (after_hit l now key).limits ≡ l.limits
  unfolding after_hit
  limits-after_hit = refl
