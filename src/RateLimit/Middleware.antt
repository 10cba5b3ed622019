-- ===== src/RateLimit/Middleware.antt =====
-- The middleware of cryptiq/app/rate_limit.py: who a client is, which bucket a request is in, and
-- what becomes of the request.
use text.Mathlib.Text.{starts_with}
use cryptiq.Shared.{
  ℕ, max, String, Bool, Option, none, some, List, [], ◌∷◌, ◌||◌, not, ◌==◌, string_eq,
  if◌then◌else◌, contains,
}
use cryptiq.Shared.Text.{strip, ends_with}
use cryptiq.Shared.Parts.{split}
use cryptiq.RateLimit.{RateLimiter, check}

-- The part of an ASGI scope that is read. A header's value is decoded as latin-1.
pub record Scope : Type 0 where
  pub kind : String
  pub method : Option String
  pub path : Option String
  pub headers : List (String × String)
  pub client : Option String

-- The last of the parts that are not blank.
unfoldable pub last_part : List String → Option String
last_part [] = none
last_part (p ∷ ps) = elim (last_part ps) [
  | none ↦ if strip p == "" then none else some (strip p)
  | some q ↦ some q
]

-- The loop over the headers in `_client_ip`.
unfoldable pub forwarded_for : List (String × String) → Option String
unfolding last_part
forwarded_for [] = none
forwarded_for ((name, value) ∷ headers) =
    if name == "x-forwarded-for"
    then elim (last_part (split b',' value)) [ none ↦ forwarded_for headers | some ip ↦ some ip ]
    else forwarded_for headers

unfoldable pub peer : Option String → String
peer none = "unknown"
peer (some host) = host

-- `_client_ip`
unfoldable pub client_ip : Bool → Scope → String
unfolding forwarded_for peer
client_ip trust scope =
    if trust
    then elim (forwarded_for scope.headers) [ none ↦ peer scope.client | some ip ↦ ip ]
    else peer scope.client

-- `_is_exempt`
unfoldable pub is_exempt : String → Bool
is_exempt path =
    starts_with path "/health" || starts_with path "/healthz" || starts_with path "/api/v1/health"

-- `_bucket_for`
unfoldable pub bucket_for : String → String → String
bucket_for method path =
    if contains ("/api/v1/scans" ∷ "/api/v1/inspections" ∷ []) path
      || (ends_with path "/explanation" || ends_with path "/migration-assessment")
    then "expensive"
    else if contains ("POST" ∷ "PUT" ∷ "PATCH" ∷ "DELETE" ∷ []) method
    then "write"
    else "default"

-- The request goes on to the application, is answered 429 with a `retry-after`, or ends in an error.
pub data Outcome : Type 0 where
  forwarded : Outcome
  rejected : ℕ → Outcome
  raised : Outcome

abbrev pub text_or : Option String → String → String
text_or none d = d
text_or (some s) d = s

unfoldable pub outcome_of : Option (Bool × ℕ) → Outcome
outcome_of none = Outcome.raised
outcome_of (some (allowed, retry_after)) =
    if allowed then Outcome.forwarded else Outcome.rejected (max 1 retry_after)

-- `RateLimitMiddleware.__call__`; `order` is the order of the set in `check`.
unfoldable pub call : Bool → Bool → ℕ → Scope → RateLimiter → RateLimiter × Outcome
call trust order now scope l =
    let method = text_or scope.method "GET" in
    let path = text_or scope.path "" in
    if not (scope.kind == "http")
    then (l, Outcome.forwarded)
    else if method == "OPTIONS" || is_exempt path
    then (l, Outcome.forwarded)
    else let (l', answer) = check order now (client_ip trust scope) (bucket_for method path) l in
      (l', outcome_of answer)
