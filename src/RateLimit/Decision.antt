-- ===== src/RateLimit/Decision.antt =====
-- What `RateLimiter.check` answers.
use cryptiq.Shared.{
  ℕ, ◌+◌, max, String, ◌≡◌, refl, Bool, true, false, some, [], ◌∷◌, arith, ◌||◌, ◌==◌, string_eq,
  pair_eq, ltb, if◌then◌else◌, Bool-cases, inl, inr,
}
use cryptiq.Shared.Dict.{lookup, IsDict}
use cryptiq.RateLimit.{
  Key, RateLimiter, Verdict, seconds_left, hit_all, bucket_names, answer, check,
}
use cryptiq.RateLimit.Counting.{
  used, counted, after_hit, judge, hit-after_hit, judge-after_hit_ne, limits-after_hit,
}

-- A request at `now` passes the limit of a bucket.
unfoldable pub is_over : RateLimiter → ℕ → Key → ℕ → Bool
is_over l now key limit = ltb limit (used l now key + 1)

-- The seconds that a bucket asks a client to wait.
unfoldable pub wait_for : RateLimiter → ℕ → Key → ℕ → ℕ
wait_for l now key limit =
    if is_over l now key limit then seconds_left l now (counted l now key) else 0

-- The answer to a request in a bucket with limit `n`, where the bucket `default` has limit `d`.
unfoldable pub decision : RateLimiter → ℕ → String → String → ℕ → ℕ → Bool × ℕ
decision l now ip bucket n d =
    let own : Key = (ip, bucket) in
    let all : Key = (ip, "default") in
    if is_over l now own n || is_over l now all d
    then (false, max 1 (max (wait_for l now own n) (wait_for l now all d)))
    else (true, 0)

abbrev pub allowed_so_far : Verdict
allowed_so_far = record { allowed = true; retry_after = 0 }

key_ne : (ip a b : String) → (a == b) ≡ false → ◌==◌ {A = Key} (ip, a) (ip, b) ≡ false
key_ne ip a b h = ground arith

module _ (l : RateLimiter) (now : ℕ) (ip : String) where
  pub hit_all_one :
      (a : String) (m : ℕ)
      → lookup a l.limits ≡ some m
      → hit_all now ip (a ∷ []) (l, allowed_so_far)
        ≡ (after_hit l now (ip, a), some (judge l now (ip, a) m allowed_so_far))
  unfolding hit_all
  hit_all_one a m e = ground (arith, hit-after_hit l now (ip, a) ip a allowed_so_far refl)

  pub hit_all_two :
      (a b : String) (m n : ℕ)
      → IsDict l.windows
      → (a == b) ≡ false
      → lookup a l.limits ≡ some m
      → lookup b l.limits ≡ some n
      → hit_all now ip (a ∷ b ∷ []) (l, allowed_so_far) ≡ (
        after_hit (after_hit l now (ip, a)) now (ip, b),
        some (judge l now (ip, b) n (judge l now (ip, a) m allowed_so_far)),
      )
  unfolding hit_all
  hit_all_two a b m n h other e f = ground (
    arith,
    hit-after_hit l now (ip, a) ip a allowed_so_far refl,
    hit-after_hit (after_hit l now (ip, a)) now (ip, b) ip b (judge l now (ip, a) m allowed_so_far)
        refl,
    limits-after_hit l now (ip, a),
    judge-after_hit_ne l now (ip, a) (ip, b) n (judge l now (ip, a) m allowed_so_far) h
        (key_ne ip a b other),
  )

  -- Whatever the order of the set, the answer is that of the counts before the request.
  pub check-decision :
      (default_first : Bool) (bucket : String) (n d : ℕ)
      → IsDict l.windows
      → lookup bucket l.limits ≡ some n
      → lookup "default" l.limits ≡ some d
      → (check default_first now ip bucket l).1 ≡ some (decision l now ip bucket n d)
  unfolding check bucket_names answer decision is_over wait_for judge
  check-decision default_first bucket n d h en ed = elim (Bool-cases (bucket == "default")) [
    | inl same ↦ ground (arith, string_eq.beq_iff bucket "default", hit_all_one "default" d)
    | inr other ↦ ground (
      arith,
      string_eq.beq_iff bucket "default",
      string_eq.beq_iff "default" bucket,
      hit_all_two bucket "default" n d h,
      hit_all_two "default" bucket d n h,
    )
  ]
