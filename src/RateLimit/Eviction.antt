-- ===== src/RateLimit/Eviction.antt =====
-- Which key the eviction drops.
use cryptiq.Shared.{
  ℕ, String, ◌≡◌, refl, Bool, true, false, none, some, List, [], ◌∷◌, ◌++◌, arith, ◌==◌, string_eq,
  pair_eq, ◌∙◌, ap, subst, Eq, beq_refl,
}
use cryptiq.Shared.Dict.{lookup, IsDict, length, put, lookup-append, length-append}
use cryptiq.RateLimit.{Key, Window, Windows, RateLimiter, is_expired, check, bucket_names, current}
use cryptiq.RateLimit.Counting.{used, counted, window_start, after_hit, lookup-after_hit}
use cryptiq.RateLimit.Bounds.{evict_first}
use cryptiq.RateLimit.Decision.{hit_all_two}

module _ {ℓ κ} {K : Type ℓ} {V : Type κ} ⦃e : Eq K⦄ where
  put_absent : (k : K) (v : V) (d : List (K × V)) → lookup k d ≡ none → put k v d ≡ d ++ (k, v) ∷ []
  unfolding lookup put
  put_absent k v [] h = refl
  put_absent k v ((j, w) ∷ d) h = ground (arith, put_absent k v d)

  put_last :
      (k : K) (v w : V) (d : List (K × V))
      → lookup k d ≡ none
      → put k w (d ++ (k, v) ∷ []) ≡ d ++ (k, w) ∷ []
  unfolding lookup put
  put_last k v w [] h = ground (arith, beq_refl k)
  put_last k v w ((j, x) ∷ d) h = ground (arith, put_last k v w d)

module _ (l : RateLimiter) (now : ℕ) where
  after_hit_new :
      (key : Key)
      → lookup key l.windows ≡ none
      → (after_hit l now key).windows ≡ l.windows ++ (key, record { start = now; count = 1 }) ∷ []
  unfolding after_hit counted current used window_start
  after_hit_new key new = ground (
    arith,
    put_absent key (record { start = now; count = 0 }) l.windows,
    put_last key (record { start = now; count = 0 }) (record { start = now; count = 1 }) l.windows,
  )

  after_hit_expired :
      (key : Key) (win : Window) (rest : Windows)
      → l.windows ≡ (key, win) ∷ rest
      → is_expired l now win ≡ true
      → (after_hit l now key).windows ≡ (key, record { start = now; count = 1 }) ∷ rest
  unfolding after_hit counted current used window_start put lookup
  after_hit_expired key win rest e old = ground (arith, beq_refl key)

-- A full table whose first key is a client's `default` bucket with a window that has run out, and a
-- request of that client in another bucket, which is not in the table.
pub record IsCrowded (l : RateLimiter) (now : ℕ) (ip bucket : String) (win : Window)
    (rest : Windows) : Type 0 where
  pub first : l.windows ≡ ((ip, "default"), win) ∷ rest
  pub distinct : IsDict l.windows
  pub old : is_expired l now win ≡ true
  pub full : length l.windows ≡ l.max_clients
  pub own : (bucket == "default") ≡ false
  pub new : lookup {K = Key} (ip, bucket) l.windows ≡ none

module _ (l : RateLimiter) (now : ℕ) (ip bucket : String) (win : Window) (rest : Windows)
    (c : IsCrowded l now ip bucket win rest) where
  once : Window
  once = record { start = now; count = 1 }

  default_then_own :
      (after_hit (after_hit l now (ip, "default")) now (ip, bucket)).windows
      ≡ ((ip, "default"), once) ∷ rest ++ ((ip, bucket), once) ∷ []
  unfolding once
  default_then_own = ground (
    arith,
    after_hit_expired l now (ip, "default") win rest c.first c.old,
    after_hit_new (after_hit l now (ip, "default")) now (ip, bucket),
    lookup-after_hit l now (ip, "default") (ip, bucket) c.distinct,
    string_eq.beq_iff bucket "default",
    string_eq.beq_iff "default" bucket,
    c.own,
    c.new,
  )

  own_then_default :
      (after_hit (after_hit l now (ip, bucket)) now (ip, "default")).windows
      ≡ ((ip, "default"), once) ∷ rest ++ ((ip, bucket), once) ∷ []
  unfolding once is_expired
  own_then_default =
      after_hit_expired (after_hit l now (ip, bucket)) now (ip, "default") win
        (rest ++ ((ip, bucket), once) ∷ [])
        (after_hit_new l now (ip, bucket) c.new
          ∙ ap (λ (ws : Windows). ws ++ ((ip, bucket), once) ∷ []) c.first)
        (unfold after_hit in c.old)

  tracked :
      (default_first : Bool) (n d : ℕ)
      → lookup bucket l.limits ≡ some n
      → lookup "default" l.limits ≡ some d
      → (check default_first now ip bucket l).0.windows
        ≡ rest ++ ((ip, bucket), record { start = now; count = 1 }) ∷ []
  unfolding check bucket_names once after_hit
  tracked default_first n d en ed = ground (
    arith,
    c.own,
    c.first,
    c.full,
    string_eq.beq_iff bucket "default",
    string_eq.beq_iff "default" bucket,
    hit_all_two l now ip bucket "default" n d c.distinct,
    hit_all_two l now ip "default" bucket d n c.distinct,
    default_then_own,
    own_then_default,
    length-append rest (((ip, bucket), once) ∷ []),
    evict_first l.max_clients ((ip, "default"), once) (rest ++ ((ip, bucket), once) ∷ []),
  )

  rest_free : lookup {K = Key} (ip, "default") rest ≡ none
  rest_free = (subst (λ (ws : Windows). IsDict ws) c.first c.distinct).0

  -- In such a table, whatever the order of the set, the key of the bucket `default` that the request
  -- was just counted under is the one that is evicted, and the count is lost: its window was renewed
  -- at the key's old place.
  pub check_forgets :
      (default_first : Bool) (n d : ℕ)
      → lookup bucket l.limits ≡ some n
      → lookup "default" l.limits ≡ some d
      → lookup (ip, "default") (check default_first now ip bucket l).0.windows ≡ none
  check_forgets default_first n d en ed = rw (tracked default_first n d en ed) (
      unfold lookup in
      ground (
        arith,
        lookup-append {K = Key} (ip, "default") rest
            (((ip, bucket), record { start = now; count = 1 }) ∷ []),
        rest_free,
        c.own,
      ))
