-- ===== src/RateLimit.antt =====
-- The rate limiter, cryptiq/app/rate_limit.py: the request classes, the counters and the
-- middleware. The counters' proofs are in the modules below.
pub mod Counting
pub mod Decision
pub mod Bounds
pub mod Retry
pub mod Eviction
pub mod Limit
pub mod Middleware
pub mod Client
pub mod Service
mod Tests
use cryptiq.Shared.{
  ℕ, ◌+◌, ◌-◌, ◌*◌, ◌/◌, max, String, Bool, true, false, Option, none, some, List, [], ◌∷◌, ◌==◌,
  string_eq, pair_eq, ltb, leb, if◌then◌else◌,
}
use cryptiq.Shared.Dict.{lookup, put, move_to_end, length}

-- A key of the counters: a client's address and a bucket.
abbrev pub Key : Type 0
Key = String × String

-- `_Window`; a time is a number of clock ticks.
pub record Window : Type 0 where
  pub start : ℕ
  pub count : ℕ

abbrev pub Windows : Type 0
Windows = List (Key × Window)

-- `ticks` is the number of ticks of the clock in a second.
pub record RateLimiter : Type 0 where
  pub ticks : ℕ
  pub window : ℕ
  pub limits : List (String × ℕ)
  pub max_clients : ℕ
  pub windows : Windows

-- `RateLimiter.__init__`
unfoldable pub init : ℕ → ℕ → ℕ → ℕ → ℕ → ℕ → RateLimiter
init ticks window_seconds default_max write_max expensive_max max_tracked_clients = record {
  ticks = ticks;
  window = max 1 window_seconds;
  limits =
      ("default", max 1 default_max)
      ∷ ("write", max 1 write_max)
      ∷ ("expensive", max 1 expensive_max)
      ∷ [];
  max_clients = max 1 max_tracked_clients;
  windows = [];
}

-- `now - win.start >= self._window`
unfoldable pub is_expired : RateLimiter → ℕ → Window → Bool
is_expired l now win = leb (win.start + l.window * l.ticks) now

-- The window that a request is counted in, before it is counted, with the counters: a new window at
-- the old place, or the present one moved to the end.
unfoldable pub current : RateLimiter → ℕ → Key → Window × Windows
current l now key =
    let fresh : Window = record { start = now; count = 0 } in
    elim (lookup key l.windows) [
      | none ↦ (fresh, put key fresh l.windows)
      | some win ↦
          if is_expired l now win
          then (fresh, put key fresh l.windows)
          else (win, move_to_end key win l.windows)
    ]

-- `math.ceil(self._window - (now - win.start))`
unfoldable pub seconds_left : RateLimiter → ℕ → Window → ℕ
seconds_left l now win = (win.start + l.window * l.ticks - now + (l.ticks - 1)) / l.ticks

-- The outcome so far of the loop in `check`: `allowed` and `retry_after`.
pub record Verdict : Type 0 where
  pub allowed : Bool
  pub retry_after : ℕ

-- One round of the loop: the request counts in one bucket. `none` is the `KeyError` of a bucket
-- that has no limit, raised after the request is counted.
unfoldable pub hit : ℕ → String → String → RateLimiter × Verdict → RateLimiter × Option Verdict
hit now ip name (l, v) =
    let (win, windows) = current l now (ip, name) in
    let counted : Window = record win { count = win.count + 1 } in
    let l' : RateLimiter = record l { windows = put (ip, name) counted windows } in
    elim (lookup name l.limits) [
      | none ↦ (l', none)
      | some limit ↦ (
        l',
        some (
            if ltb limit counted.count
            then record {
              allowed = false;
              retry_after = max v.retry_after (seconds_left l now counted);
            }
            else v),
      )
    ]

-- `while len(self._windows) > self._max_clients: self._windows.popitem(last=False)`
unfoldable pub evict : ℕ → Windows → Windows
evict cap [] = []
evict cap (w ∷ ws) = let rest = evict cap ws in if ltb cap (length (w ∷ ws)) then rest else w ∷ ws

-- `for name in {bucket, "default"}`, from a name on.
unfoldable pub hit_all :
    ℕ → String → List String → RateLimiter × Verdict → RateLimiter × Option Verdict
hit_all now ip [] (l, v) = (l, some v)
hit_all now ip (name ∷ names) (l, v) =
    let rest = λ (l' : RateLimiter) (v' : Verdict). hit_all now ip names (l', v') in
    let (l', o) = hit now ip name (l, v) in elim o [ none ↦ (l', none) | some v' ↦ rest l' v' ]

-- The names in the set `{bucket, "default"}`, in the order in which it is gone through, which
-- Python leaves open.
unfoldable pub bucket_names : Bool → String → List String
bucket_names default_first bucket =
    if bucket == "default"
    then "default" ∷ []
    else if default_first
    then "default" ∷ bucket ∷ []
    else bucket ∷ "default" ∷ []

-- `allowed, max(retry_after, 1) if not allowed else 0`
unfoldable pub answer : Verdict → Bool × ℕ
answer v = if v.allowed then (true, 0) else (false, max v.retry_after 1)

-- `RateLimiter.check`
unfoldable pub check : Bool → ℕ → String → String → RateLimiter → RateLimiter × Option (Bool × ℕ)
check default_first now ip bucket l =
    let (l', o) =
      hit_all now ip (bucket_names default_first bucket)
        (l, record { allowed = true; retry_after = 0 }) in
    elim o [
      | none ↦ (l', none)
      | some v ↦ (record l' { windows = evict l'.max_clients l'.windows }, some (answer v))
    ]
