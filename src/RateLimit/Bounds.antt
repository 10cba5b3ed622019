-- ===== src/RateLimit/Bounds.antt =====
-- The counters stay within `max_clients`, and what a refused client is told.
use cryptiq.Shared.{
  ℕ, ◌≤◌, String, ◌≡◌, ◌≢◌, refl, Bool, none, List, [], ◌∷◌, arith, string_eq, pair_eq,
  Option-cases, inl, inr, ◌∙◌,
}
use cryptiq.Shared.Dict.{lookup, IsDict, length}
use cryptiq.RateLimit.{
  Key, Window, Windows, RateLimiter, Verdict, hit, hit_all, bucket_names, check, evict,
}
use cryptiq.RateLimit.Counting.{after_hit, hit-after_hit, after_hit-IsDict}
use cryptiq.RateLimit.Decision.{allowed_so_far}

length-evict-le : (cap : ℕ) (ws : Windows) → length (evict cap ws) ≤ cap
unfolding evict
length-evict-le cap [] = omega arith
length-evict-le cap (w ∷ ws) = ground (arith, length-evict-le cap ws)

-- What is left after the eviction was there before it.
pub lookup-evict :
    (cap : ℕ) (ws : Windows) (k : Key) → lookup k ws ≡ none → lookup k (evict cap ws) ≡ none
unfolding evict lookup
lookup-evict cap [] k h = refl
lookup-evict cap ((j, w) ∷ ws) k h = ground (arith, lookup-evict cap ws k)

evict-IsDict : (cap : ℕ) (ws : Windows) → IsDict ws → IsDict (evict cap ws)
unfolding evict
evict-IsDict cap [] h = tt
evict-IsDict cap ((j, w) ∷ ws) h =
    ground (arith, evict-IsDict cap ws h.1, lookup-evict cap ws j h.0)

pub evict_fits : (cap : ℕ) (ws : Windows) → length ws ≤ cap → evict cap ws ≡ ws
unfolding evict
evict_fits cap [] h = refl
evict_fits cap (w ∷ ws) h = ground arith

pub evict_first :
    (cap : ℕ) (w : Key × Window) (ws : Windows) → length ws ≡ cap → evict cap (w ∷ ws) ≡ ws
unfolding evict
evict_first cap w ws h = ground (arith, evict_fits cap ws)

-- The counters as the limiter keeps them between two requests.
pub record IsValid (l : RateLimiter) : Type 0 where
  pub distinct : IsDict l.windows
  pub bounded : length l.windows ≤ l.max_clients

-- What a request never changes, and that it stores no key twice.
pub record Keeps (l l' : RateLimiter) : Type 0 where
  pub ticks : l'.ticks ≡ l.ticks
  pub window : l'.window ≡ l.window
  pub limits : l'.limits ≡ l.limits
  pub max_clients : l'.max_clients ≡ l.max_clients
  pub distinct : IsDict l.windows → IsDict l'.windows

Keeps-refl : (l : RateLimiter) → Keeps l l
Keeps-refl l = record {
  ticks = refl;
  window = refl;
  limits = refl;
  max_clients = refl;
  distinct = λ h. h;
}

Keeps-trans : {l l' l'' : RateLimiter} → Keeps l l' → Keeps l' l'' → Keeps l l''
Keeps-trans a b = record {
  ticks = b.ticks ∙ a.ticks;
  window = b.window ∙ a.window;
  limits = b.limits ∙ a.limits;
  max_clients = b.max_clients ∙ a.max_clients;
  distinct = λ h. b.distinct (a.distinct h);
}

evict-Keeps : (l : RateLimiter) → Keeps l (record l { windows = evict l.max_clients l.windows })
evict-Keeps l = record {
  ticks = refl;
  window = refl;
  limits = refl;
  max_clients = refl;
  distinct = evict-IsDict l.max_clients l.windows;
}

module _ (now : ℕ) (ip : String) where
  hit-Keeps : (name : String) (l : RateLimiter) (v : Verdict) → Keeps l (hit now ip name (l, v)).0
  unfolding after_hit
  hit-Keeps name l v = rw (hit-after_hit l now (ip, name) ip name v refl) (record {
    ticks = refl;
    window = refl;
    limits = refl;
    max_clients = refl;
    distinct = after_hit-IsDict l now (ip, name);
  })

  hit_all-Keeps :
      (names : List String) (l : RateLimiter) (v : Verdict)
      → Keeps l (hit_all now ip names (l, v)).0
  unfolding hit_all
  hit_all-Keeps [] l v = Keeps-refl l
  hit_all-Keeps (name ∷ names) l v = elim (Option-cases (hit now ip name (l, v)).1) [
    | inl e ↦ rw (e, hit_all) (hit-Keeps name l v)
    | inr (v', e) ↦
        rw (e, hit_all)
          (Keeps-trans (hit-Keeps name l v) (hit_all-Keeps names (hit now ip name (l, v)).0 v'))
  ]

  -- Every request leaves the configuration alone and no key twice, also where its bucket has no
  -- limit, which is a `KeyError`. Unless it is one, at most `max_clients` keys are tracked after it.
  pub check-IsValid :
      (default_first : Bool) (bucket : String) (l : RateLimiter)
      → Keeps l (check default_first now ip bucket l).0
        × ((check default_first now ip bucket l).1 ≢ none
            → length (check default_first now ip bucket l).0.windows ≤ l.max_clients)
  unfolding check
  check-IsValid default_first bucket l =
      let outcome = hit_all now ip (bucket_names default_first bucket) (l, allowed_so_far) in
      let k : Keeps l outcome.0 =
        hit_all-Keeps (bucket_names default_first bucket) l allowed_so_far in
      elim (Option-cases
        (hit_all now ip (bucket_names default_first bucket) (l, allowed_so_far)).1) [
          | inl e ↦ rw (e, check) (k, λ raised. absurd (raised refl))
          | inr (v, e) ↦
              rw (e, check)
                (
                  Keeps-trans k (evict-Keeps outcome.0),
                  λ _. omega (
                    arith,
                    length-evict-le outcome.0.max_clients outcome.0.windows,
                    k.max_clients,
                  ),
                )
        ]
