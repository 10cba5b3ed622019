-- ===== src/RateLimit/Limit.antt =====
-- Within one window no client gets more than the limit, whoever else calls in between.
use cryptiq.Shared.{
  ℕ, ◌+◌, ◌*◌, ◌<◌, ◌≤◌, max, String, ◌≡◌, refl, Bool, true, false, Option, none, some, List, [],
  ◌∷◌, arith, ◌&&◌, ◌==◌, string_eq, pair_eq, if◌then◌else◌, Bool-cases, inl, inr, ◌∙◌, ap,
}
use cryptiq.Shared.Dict.{lookup, IsDict, length}
use cryptiq.RateLimit.{Key, Window, RateLimiter, is_expired, check, bucket_names}
use cryptiq.RateLimit.Counting.{
  used, counted, window_start, after_hit, lookup-after_hit, length-after_hit, after_hit-IsDict,
}
use cryptiq.RateLimit.Bounds.{evict_fits, Keeps, check-IsValid}
use cryptiq.RateLimit.Decision.{decision, check-decision, is_over, hit_all_two, hit_all_one}

-- The limiter after the loop of a request in a bucket that has a limit, before the eviction.
unfoldable pub after_hits : Bool → RateLimiter → ℕ → String → String → RateLimiter
after_hits default_first l now ip bucket =
    if bucket == "default"
    then after_hit l now (ip, "default")
    else if default_first
    then after_hit (after_hit l now (ip, "default")) now (ip, bucket)
    else after_hit (after_hit l now (ip, bucket)) now (ip, "default")

-- A request that counts in a window of its own key, or leaves another key's window alone.
present-after_hit :
    (l : RateLimiter) (now : ℕ) (key j : Key) (win : Window)
    → IsDict l.windows
    → lookup j l.windows ≡ some win
    → is_expired l now win ≡ false
    → lookup j (after_hit l now key).windows
      ≡ some (record win { count = if key == j then win.count + 1 else win.count })
unfolding counted used window_start
present-after_hit l now key j win h there young = elim (Bool-cases (key == j)) [
  | inl same ↦
      rw (lookup-after_hit l now key j h, same)
        (let e : key ≡ j = (pair_eq.beq_iff key j).0 same in rw e (ground arith))
  | inr other ↦ ground (arith, lookup-after_hit l now key j h)
]

expired-after_hit :
    (l : RateLimiter) (now : ℕ) (key : Key) (win : Window) (c : ℕ)
    → is_expired (after_hit l now key) now (record win { count = c }) ≡ is_expired l now win
unfolding is_expired after_hit
expired-after_hit l now key win c = refl

module _ (l : RateLimiter) (now : ℕ) (caller bucket : String) (n d : ℕ) (default_first : Bool) where
  check_fits :
      IsDict l.windows
      → lookup bucket l.limits ≡ some n
      → lookup "default" l.limits ≡ some d
      → length (after_hits default_first l now caller bucket).windows ≤ l.max_clients
      → (check default_first now caller bucket l).0 ≡ after_hits default_first l now caller bucket
  unfolding check bucket_names after_hits after_hit
  check_fits h en ed fits = elim (Bool-cases (bucket == "default")) [
    | inl same ↦ ground (
      arith,
      string_eq.beq_iff bucket "default",
      hit_all_one l now caller "default" d,
      evict_fits l.max_clients (after_hit l now (caller, "default")).windows,
    )
    | inr other ↦ ground (
      arith,
      string_eq.beq_iff bucket "default",
      string_eq.beq_iff "default" bucket,
      hit_all_two l now caller bucket "default" n d h,
      hit_all_two l now caller "default" bucket d n h,
      evict_fits l.max_clients (after_hits default_first l now caller bucket).windows,
    )
  ]

  length-after_hits :
      length (after_hits default_first l now caller bucket).windows ≤ length l.windows + 2
  unfolding after_hits
  length-after_hits = ground (
    arith,
    length-after_hit l now (caller, "default"),
    length-after_hit l now (caller, bucket),
    length-after_hit (after_hit l now (caller, "default")) now (caller, bucket),
    length-after_hit (after_hit l now (caller, bucket)) now (caller, "default"),
  )

  -- The window of the bucket `default` that is present for `ip`.
  lookup-after_hits :
      (ip : String) (win : Window)
      → IsDict l.windows
      → lookup (ip, "default") l.windows ≡ some win
      → is_expired l now win ≡ false
      → lookup (ip, "default") (after_hits default_first l now caller bucket).windows
        ≡ some (record win { count = if caller == ip then win.count + 1 else win.count })
  unfolding after_hits
  lookup-after_hits ip win h there young =
      let own : Key = (caller, bucket) in
      let all : Key = (caller, "default") in
      let j : Key = (ip, "default") in
      let win' : Window = record win {
        count = if caller == ip then win.count + 1 else win.count;
      } in
      elim (Bool-cases (bucket == "default")) [
        | inl same ↦ ground (arith, present-after_hit l now all j win h)
        | inr other ↦ ground (
          arith,
          present-after_hit l now all j win h,
          present-after_hit l now own j win h,
          present-after_hit (after_hit l now all) now own j win' (after_hit-IsDict l now all h),
          present-after_hit (after_hit l now own) now all j win (after_hit-IsDict l now own h),
          expired-after_hit l now all win win'.count,
          expired-after_hit l now own win win.count,
        )
      ]

abbrev pub is_let_through : Option (Bool × ℕ) → Bool
is_let_through none = false
is_let_through (some a) = a.0

pub record Request : Type 0 where
  pub default_first : Bool
  pub now : ℕ
  pub ip : String
  pub bucket : String

-- How many requests of one client are let through.
unfoldable pub accepted : String → List Request → RateLimiter → ℕ
accepted ip [] l = 0
accepted ip (r ∷ rs) l =
    let (l', a) = check r.default_first r.now r.ip r.bucket l in
    (if r.ip == ip && is_let_through a then 1 else 0) + accepted ip rs l'

-- A request before a time, in a bucket that has a limit.
pub record IsTimely (limits : List (String × ℕ)) (end : ℕ) (r : Request) : Type 0 where
  pub before : r.now < end
  pub limit : ℕ
  pub known : lookup r.bucket limits ≡ some limit

abbrev pub AllTimely : List (String × ℕ) → ℕ → List Request → Type 0
AllTimely limits end [] = Unit
AllTimely limits end (r ∷ rs) = IsTimely limits end r × AllTimely limits end rs

-- The window of `ip`, and what else the induction carries from one request to the next.
record IsCounting (ip : String) (limits : List (String × ℕ)) (end : ℕ) (win : Window)
    (l : RateLimiter) : Type 0 where
  distinct : IsDict l.windows
  configured : l.limits ≡ limits
  lasts : win.start + l.window * l.ticks ≡ end
  there : lookup (ip, "default") l.windows ≡ some win

abbrev counted_once : String → Request → Window → Window
counted_once ip r win = record win { count = if r.ip == ip then win.count + 1 else win.count }

-- A request of `ip` that is let through is within the limit.
step_counts :
    (ip : String) (r : Request) (limits : List (String × ℕ)) (end : ℕ) (l : RateLimiter)
    (win : Window) (d : ℕ)
    → IsCounting ip limits end win l
    → lookup "default" limits ≡ some d
    → IsTimely limits end r
    → (r.ip == ip && is_let_through (check r.default_first r.now r.ip r.bucket l).1) ≡ true
    → win.count + 1 ≤ d
unfolding decision is_over used is_expired
step_counts ip r limits end l win d c ed t through =
    let e : r.ip ≡ ip = (string_eq.beq_iff r.ip ip).0 (ground arith) in
    ground (
      arith,
      check-decision l r.now r.ip r.default_first r.bucket t.limit d c.distinct
          (ap (lookup r.bucket) c.configured ∙ t.known) (ap (lookup "default") c.configured ∙ ed),
      ap (λ (a : String). lookup {K = Key} (a, "default") l.windows) e,
      t.before,
      c.lasts,
      c.there,
    )

step-IsCounting :
    (ip : String) (r : Request) (limits : List (String × ℕ)) (end : ℕ) (win : Window)
    (l : RateLimiter) (d : ℕ)
    → lookup "default" limits ≡ some d
    → IsTimely limits end r
    → IsCounting ip limits end win l
    → length l.windows + 2 ≤ l.max_clients
    → IsCounting ip limits end
        (counted_once ip r win)
        (check r.default_first r.now r.ip r.bucket l).0
      × (length (check r.default_first r.now r.ip r.bucket l).0.windows ≤ length l.windows + 2)
      × ((check r.default_first r.now r.ip r.bucket l).0.max_clients ≡ l.max_clients)
unfolding is_expired
step-IsCounting ip r limits end win l d ed t c fits =
    let k : Keeps l (check r.default_first r.now r.ip r.bucket l).0 =
      (check-IsValid r.now r.ip r.default_first r.bucket l).0 in
    let grows = length-after_hits l r.now r.ip r.bucket 0 0 r.default_first in
    let e : (check r.default_first r.now r.ip r.bucket l).0
        ≡ after_hits r.default_first l r.now r.ip r.bucket =
      check_fits l r.now r.ip r.bucket t.limit d r.default_first c.distinct
        (ap (lookup r.bucket) c.configured ∙ t.known) (ap (lookup "default") c.configured ∙ ed)
        (omega arith) in
    (
      record {
        distinct = k.distinct c.distinct;
        configured = k.limits ∙ c.configured;
        lasts = rw (k.window, k.ticks) c.lasts;
        there = rw e (
            lookup-after_hits l r.now r.ip r.bucket 0 0 r.default_first ip win c.distinct c.there
              (ground (arith, c.lasts, t.before)));
      },
      rw e grows,
      k.max_clients,
    )

accepted_from :
    (ip : String) (rs : List Request) (limits : List (String × ℕ)) (end : ℕ) (win : Window)
    (l : RateLimiter) (d : ℕ)
    → lookup "default" limits ≡ some d
    → AllTimely limits end rs
    → IsCounting ip limits end win l
    → length l.windows + 2 * length rs ≤ l.max_clients
    → accepted ip rs l + win.count ≤ max d win.count
unfolding accepted
accepted_from ip [] limits end win l d ed t c fits = omega arith
accepted_from ip (r ∷ rs) limits end win l d ed (t, ts) c fits =
    let (c', grows, cap) = step-IsCounting ip r limits end win l d ed t c (omega arith) in
    let ih =
      accepted_from ip rs limits end (counted_once ip r win)
        (check r.default_first r.now r.ip r.bucket l).0 d ed ts c' (omega arith) in
    ground (arith, ih, step_counts ip r limits end l win d c ed t)

-- While the window that is present for a client lasts, and as long as the requests cannot fill the table,
-- each bringing at most two keys, the requests of all clients together let at most `d` of that client's
-- through, counting those of the window so far; if more are counted already, none is let through.
pub accepted_le :
    (ip : String) (rs : List Request) (l : RateLimiter) (win : Window) (d : ℕ)
    → IsDict l.windows
    → lookup "default" l.limits ≡ some d
    → AllTimely l.limits (win.start + l.window * l.ticks) rs
    → lookup (ip, "default") l.windows ≡ some win
    → length l.windows + 2 * length rs ≤ l.max_clients
    → accepted ip rs l + win.count ≤ max d win.count
accepted_le ip rs l win d h ed t there fits =
    accepted_from ip rs l.limits (win.start + l.window * l.ticks) win l d ed t
      (record { distinct = h; configured = refl; lasts = refl; there = there }) fits
