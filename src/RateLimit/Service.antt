-- ===== src/RateLimit/Service.antt =====
-- A limiter from its construction on, under any sequence of requests.
use cryptiq.Shared.{
  ℕ, max, ◌≤◌, String, Bool, some, List, [], ◌∷◌, ◌||◌, not, ◌==◌, string_eq, ◌≡◌, ◌≢◌, refl, arith,
  inl, inr, Bool-cases, pair_eq, ◌∙◌,
}
use cryptiq.Shared.Dict.{lookup, IsDict, length}
use cryptiq.RateLimit.{RateLimiter, init, check}
use cryptiq.RateLimit.Bounds.{IsValid, check-IsValid}
use cryptiq.RateLimit.Decision.{check-decision}
use cryptiq.RateLimit.Client.{bucket_for-cases}
use cryptiq.RateLimit.Middleware.{
  Scope, Outcome, client_ip, is_exempt, bucket_for, text_or, outcome_of, call,
}

-- What `init` makes of the limits: each bucket that a request can be in has one.
pub record IsReady (cap : ℕ) (l : RateLimiter) : Type 0 where
  pub valid : IsValid l
  pub capped : l.max_clients ≡ cap
  pub for_default : (n : ℕ) × (lookup "default" l.limits ≡ some n)
  pub for_write : (n : ℕ) × (lookup "write" l.limits ≡ some n)
  pub for_expensive : (n : ℕ) × (lookup "expensive" l.limits ≡ some n)

pub init-IsReady : (ticks w a b c m : ℕ) → IsReady (max 1 m) (init ticks w a b c m)
unfolding init lookup
init-IsReady ticks w a b c m = record {
  valid = record { distinct = tt; bounded = omega arith };
  capped = refl;
  for_default = (max 1 a, refl);
  for_write = (max 1 b, refl);
  for_expensive = (max 1 c, refl);
}

limit_of_bucket :
    {cap : ℕ} (l : RateLimiter) (method path : String)
    → IsReady cap l
    → (n : ℕ) × (lookup (bucket_for method path) l.limits ≡ some n)
limit_of_bucket l method path r = elim (bucket_for-cases method path) [
  | inl e ↦ rw e r.for_expensive
  | inr (inl e) ↦ rw e r.for_write
  | inr (inr e) ↦ rw e r.for_default
]

check-IsReady :
    {cap : ℕ} (order : Bool) (now : ℕ) (ip method path : String) (l : RateLimiter)
    → IsReady cap l
    → IsReady cap (check order now ip (bucket_for method path) l).0
      × (outcome_of (check order now ip (bucket_for method path) l).1 ≢ Outcome.raised)
unfolding outcome_of
check-IsReady order now ip method path l r =
    let (n, en) = limit_of_bucket l method path r in
    let (d, ed) = r.for_default in
    let e = check-decision l now ip order (bucket_for method path) n d r.valid.distinct en ed in
    let (k, b) = check-IsValid now ip order (bucket_for method path) l in
    (
      record {
        valid = record {
          distinct = k.distinct r.valid.distinct;
          bounded = rw k.max_clients (b (λ f. cc e));
        };
        capped = k.max_clients ∙ r.capped;
        for_default = rw k.limits r.for_default;
        for_write = rw k.limits r.for_write;
        for_expensive = rw k.limits r.for_expensive;
      },
      rw e (ground arith),
    )

pub call-IsReady :
    {cap : ℕ} (trust order : Bool) (now : ℕ) (scope : Scope) (l : RateLimiter)
    → IsReady cap l
    → IsReady cap (call trust order now scope l).0
      × ((call trust order now scope l).1 ≢ Outcome.raised)
unfolding call
call-IsReady trust order now scope l r = elim (Bool-cases (not (scope.kind == "http"))) [
  | inl e ↦ rw (e) (r, cc)
  | inr e ↦
      elim (Bool-cases
        (text_or scope.method "GET" == "OPTIONS" || is_exempt (text_or scope.path ""))) [
          | inl f ↦ rw (e, f) (r, cc)
          | inr f ↦
              rw (e, f)
                (check-IsReady order now (client_ip trust scope) (text_or scope.method "GET")
                  (text_or scope.path "") l r)
        ]
]

-- A request with the time and the order of the set that it meets.
pub record Arrival : Type 0 where
  pub order : Bool
  pub now : ℕ
  pub scope : Scope

unfoldable pub serve : Bool → List Arrival → RateLimiter → RateLimiter × List Outcome
serve trust [] l = (l, [])
serve trust (a ∷ as') l =
    let (l', o) = call trust a.order a.now a.scope l in
    let (l'', os) = serve trust as' l' in (l'', o ∷ os)

abbrev pub NoneRaised : List Outcome → Type 0
NoneRaised [] = Unit
NoneRaised (o ∷ os) = (o ≢ Outcome.raised) × NoneRaised os

serve-IsReady :
    {cap : ℕ} (trust : Bool) (as' : List Arrival) (l : RateLimiter)
    → IsReady cap l
    → IsReady cap (serve trust as' l).0 × NoneRaised (serve trust as' l).1
unfolding serve
serve-IsReady trust [] l r = (r, tt)
serve-IsReady trust (a ∷ as') l r =
    let (r', ok) = call-IsReady trust a.order a.now a.scope l r in
    let (r'', oks) = serve-IsReady trust as' (call trust a.order a.now a.scope l).0 r' in
    (r'', (ok, oks))

-- From its construction on, whatever the requests, their times and the orders of the set, no request
-- ends in an error, no key is tracked twice, and at most `max_tracked_clients` keys (one, if that is
-- zero) are tracked.
pub serve_from_init :
    (trust : Bool) (arrivals : List Arrival) (ticks w a b c m : ℕ)
    → IsDict (serve trust arrivals (init ticks w a b c m)).0.windows
      × (length (serve trust arrivals (init ticks w a b c m)).0.windows ≤ max 1 m)
      × NoneRaised (serve trust arrivals (init ticks w a b c m)).1
serve_from_init trust arrivals ticks w a b c m =
    let (r, oks) =
      serve-IsReady trust arrivals (init ticks w a b c m) (init-IsReady ticks w a b c m) in
    (r.valid.distinct, rw (← r.capped) r.valid.bounded, oks)
