-- ===== src/RateLimit/Tests.antt =====
-- Runs of the limiter, and its theorems at concrete inputs.
use cryptiq.Shared.{
  ◌≤◌, ◌+◌, ◌*◌, true, false, none, some, List, [], ◌∷◌, ◌||◌, string_eq, contains, ◌≡◌, refl,
  arith, pair_eq,
}
use cryptiq.Shared.Each.{Each}
use cryptiq.Shared.Text.{strip, has_char}
use cryptiq.Shared.Parts.{split}
use cryptiq.Shared.Dict.{lookup, put, remove, move_to_end, IsDict, length}
use cryptiq.RateLimit.{
  RateLimiter, Window, Key, init, check, is_expired, current, seconds_left, hit, hit_all, evict,
  bucket_names, answer,
}
use cryptiq.RateLimit.Counting.{used, counted, window_start}
use cryptiq.RateLimit.Decision.{decision, check-decision, is_over, wait_for}
use cryptiq.RateLimit.Retry.{IsPast, window_end, check_refused}
use cryptiq.RateLimit.Eviction.{IsCrowded, check_forgets}
use cryptiq.RateLimit.Limit.{Request, accepted, accepted_le}
use cryptiq.RateLimit.Client.{client_ip_rightmost}
use cryptiq.RateLimit.Service.{serve, NoneRaised, serve_from_init}
use cryptiq.RateLimit.Middleware.{
  Scope, Outcome, client_ip, is_exempt, bucket_for, outcome_of, call,
}

program : Unit {0}
unfolding contains init check is_expired current seconds_left hit hit_all evict bucket_names answer
    lookup put remove move_to_end client_ip is_exempt bucket_for outcome_of call split strip used
    counted window_start decision is_over wait_for has_char serve accepted
program = tt

-- A table with room for two keys, with a client's window of 60 seconds that began at 0.
abbrev key_a : Key
key_a = ("10.0.0.1", "default")

abbrev two_used : Window
two_used = record { start = 0; count = 2 }

abbrev limiter : RateLimiter
limiter = record {
  ticks = 10;
  window = 60;
  limits = ("default", 2) ∷ ("write", 5) ∷ ("expensive", 1) ∷ [];
  max_clients = 2;
  windows = (key_a, two_used) ∷ (("10.0.0.2", "default"), record { start = 5; count = 1 }) ∷ [];
}

abbrev roomy : RateLimiter
roomy = record limiter { max_clients = 20 }

limiter-IsDict : IsDict limiter.windows
unfolding program
limiter-IsDict = (refl, (refl, tt))

-- The third request is refused, with 39 of the 60 seconds left.
third : (check true 215 "10.0.0.1" "default" limiter).1 ≡ some (false, 39)
unfolding program
third = refl

check-decision_example :
    (check true 215 "10.0.0.1" "write" limiter).1
    ≡ some (decision limiter 215 "10.0.0.1" "write" 5 2)
unfolding lookup
check-decision_example =
    check-decision limiter 215 "10.0.0.1" true "write" 5 2 limiter-IsDict refl refl

limiter-IsPast : IsPast 215 limiter
unfolding lookup
limiter-IsPast = record { started = λ key win there. ground arith }

check_refused_example :
    (1 ≤ 39)
    × (39 ≤ limiter.window)
    × (is_over limiter 215 ("10.0.0.1", "default") 2 ≡ true
        → window_end limiter 215 ("10.0.0.1", "default") ≤ 215 + 39 * limiter.ticks)
    × (is_over limiter 215 ("10.0.0.1", "default") 2 ≡ true
        → window_end limiter 215 ("10.0.0.1", "default") ≤ 215 + 39 * limiter.ticks)
    × (is_over limiter 215 ("10.0.0.1", "default") 2
          || is_over limiter 215 ("10.0.0.1", "default") 2
        ≡ true)
unfolding lookup
check_refused_example =
    check_refused limiter 215 true "10.0.0.1" "default" 2 2 39 (omega arith) (omega arith)
      limiter-IsDict limiter-IsPast refl refl third

-- At 600 the first window has run out; the client's request in `expensive` drops its own key.
crowded :
    IsCrowded limiter 600 "10.0.0.1" "expensive" two_used
      ((("10.0.0.2", "default"), record { start = 5; count = 1 }) ∷ [])
unfolding program
crowded = record {
  first = refl;
  distinct = limiter-IsDict;
  old = refl;
  full = refl;
  own = refl;
  new = refl;
}

check_forgets_example :
    lookup {K = Key}
      ("10.0.0.1", "default")
      (check false 600 "10.0.0.1" "expensive" limiter).0.windows
    ≡ none
unfolding lookup
check_forgets_example =
    check_forgets limiter 600 "10.0.0.1" "expensive" two_used
      ((("10.0.0.2", "default"), record { start = 5; count = 1 }) ∷ []) crowded false 1 2 refl refl

abbrev requests : List Request
requests =
    record { default_first = true; now = 10; ip = "10.0.0.2"; bucket = "default" }
    ∷ record { default_first = false; now = 20; ip = "10.0.0.2"; bucket = "write" }
    ∷ record { default_first = false; now = 20; ip = "10.0.0.1"; bucket = "write" }
    ∷ []

run : accepted "10.0.0.2" requests roomy ≡ 1
unfolding program
run = refl

accepted_le_example : accepted "10.0.0.2" requests roomy + 1 ≤ 2
unfolding lookup
accepted_le_example =
    accepted_le "10.0.0.2" requests roomy (record { start = 5; count = 1 }) 2 limiter-IsDict refl
      (
        record { before = omega arith; limit = 2; known = refl },
        (
          record { before = omega arith; limit = 5; known = refl },
          (record { before = omega arith; limit = 5; known = refl }, tt),
        ),
      )
      refl (omega arith)

abbrev scope : Scope
scope = record {
  kind = "http";
  method = some "POST";
  path = some "/api/v1/scans";
  headers = ("host", "cryptiq") ∷ ("x-forwarded-for", "1.2.3.4, 9.9.9.9") ∷ [];
  client = some "127.0.0.1";
}

client_ip_rightmost_example : client_ip true scope ≡ strip " 9.9.9.9"
unfolding strip has_char Each
client_ip_rightmost_example =
    client_ip_rightmost "http" (some "POST") (some "/api/v1/scans") (some "127.0.0.1")
      "1.2.3.4, 9.9.9.9" (("host", "cryptiq") ∷ []) [] "1.2.3.4" " 9.9.9.9" (refl, tt) refl refl
      refl

called : (call true true 0 scope (init 1 60 120 30 10 1)).1 ≡ Outcome.forwarded
unfolding program
called = refl

serve_from_init_example :
    IsDict
      (serve true
        (record { order = true; now = 3; scope = scope } ∷ [])
        (init 1 60 120 30 10 1)).0.windows
    × (length
          (serve true
            (record { order = true; now = 3; scope = scope } ∷ [])
            (init 1 60 120 30 10 1)).0.windows
        ≤ 1)
    × NoneRaised
        (serve true
          (record { order = true; now = 3; scope = scope } ∷ [])
          (init 1 60 120 30 10 1)).1
serve_from_init_example =
    serve_from_init true (record { order = true; now = 3; scope = scope } ∷ []) 1 60 120 30 10 1
