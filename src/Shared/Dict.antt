-- ===== src/Shared/Dict.antt =====
-- Python's `dict` and `OrderedDict`: the entries in the order of their insertion.
use Prim.Native.Nat.{ℕ, suc, ◌+◌}
use mathlib.Core.Path.{◌≡◌, refl}
use mathlib.Core.Bool.{false}
use mathlib.Core.Option.{Option, none, some}
use mathlib.Core.List.{List, [], ◌∷◌, ◌++◌}
use native.Mathlib.Omega.{arith}
use cryptiq.Shared.Tests.{Eq, ◌==◌, if◌then◌else◌}

module _ {ℓ} {A : Type ℓ} where
  abbrev pub length : List A → ℕ
  length [] = 0
  length (x ∷ xs) = suc (length xs)

  pub length-append : (xs ys : List A) → length (xs ++ ys) ≡ length xs + length ys
  length-append [] ys = omega arith
  length-append (x ∷ xs) ys = omega (arith, length-append xs ys)

module _ {ℓ κ} {K : Type ℓ} {V : Type κ} ⦃e : Eq K⦄ where
  -- `d.get(k)`
  unfoldable pub lookup : K → List (K × V) → Option V
  lookup k [] = none
  lookup k ((j, v) ∷ d) = if j == k then some v else lookup k d

  -- `d[k] = v`: a key that is there keeps its place.
  unfoldable pub put : K → V → List (K × V) → List (K × V)
  put k v [] = (k, v) ∷ []
  put k v ((j, w) ∷ d) = if j == k then (j, v) ∷ d else (j, w) ∷ put k v d

  unfoldable pub remove : K → List (K × V) → List (K × V)
  remove k [] = []
  remove k ((j, w) ∷ d) = if j == k then d else (j, w) ∷ remove k d

  -- `d.setdefault(k, v)`
  unfoldable pub set_default : K → V → List (K × V) → List (K × V)
  set_default k v [] = (k, v) ∷ []
  set_default k v ((j, w) ∷ d) = if j == k then (j, w) ∷ d else (j, w) ∷ set_default k v d

  -- `d.move_to_end(k)`, at the value that the key has.
  unfoldable pub move_to_end : K → V → List (K × V) → List (K × V)
  move_to_end k v d = remove k d ++ (k, v) ∷ []

  -- No key stands twice.
  abbrev pub IsDict : List (K × V) → Type κ
  IsDict [] = Unit
  IsDict ((j, w) ∷ d) = (lookup j d ≡ none) × IsDict d

  pub lookup-put :
      (k j : K) (v : V) (d : List (K × V))
      → lookup j (put k v d) ≡ (if k == j then some v else lookup j d)
  unfolding lookup put
  lookup-put k j v [] = refl
  lookup-put k j v ((i, w) ∷ d) =
      ground (arith, e.beq_iff k j, e.beq_iff i k, e.beq_iff i j, lookup-put k j v d)

  pub put-put : (k : K) (v w : V) (d : List (K × V)) → put k v (put k w d) ≡ put k v d
  unfolding put
  put-put k v w [] = ground (arith, e.beq_iff k k)
  put-put k v w ((i, x) ∷ d) = ground (arith, put-put k v w d)

  pub lookup-set_default :
      (k j : K) (v : V) (d : List (K × V))
      → lookup j (set_default k v d)
        ≡ (if k == j then elim (lookup k d) [ none ↦ some v | some w ↦ some w ] else lookup j d)
  unfolding lookup set_default
  lookup-set_default k j v [] = ground arith
  lookup-set_default k j v ((i, w) ∷ d) =
      ground (arith, e.beq_iff k j, e.beq_iff i k, e.beq_iff i j, lookup-set_default k j v d)

  pub lookup-append :
      (j : K) (d d' : List (K × V))
      → lookup j (d ++ d') ≡ elim (lookup j d) [ none ↦ lookup j d' | some w ↦ some w ]
  unfolding lookup
  lookup-append j [] d' = refl
  lookup-append j ((i, w) ∷ d) d' = ground (arith, lookup-append j d d')

  pub lookup-remove_ne :
      (k j : K) (d : List (K × V)) → (k == j) ≡ false → lookup j (remove k d) ≡ lookup j d
  unfolding lookup remove
  lookup-remove_ne k j [] h = refl
  lookup-remove_ne k j ((i, w) ∷ d) h =
      ground (arith, e.beq_iff k j, e.beq_iff i k, e.beq_iff i j, lookup-remove_ne k j d h)

  pub lookup-remove_self : (k : K) (d : List (K × V)) → IsDict d → lookup k (remove k d) ≡ none
  unfolding lookup remove
  lookup-remove_self k [] h = refl
  lookup-remove_self k ((i, w) ∷ d) h = ground (arith, e.beq_iff i k, lookup-remove_self k d h.1)

  pub put-IsDict : (k : K) (v : V) (d : List (K × V)) → IsDict d → IsDict (put k v d)
  unfolding lookup put
  put-IsDict k v [] h = (refl, tt)
  put-IsDict k v ((i, w) ∷ d) h =
      ground (arith, e.beq_iff k i, e.beq_iff i k, lookup-put k i v d, put-IsDict k v d h.1)

  pub set_default-IsDict :
      (k : K) (v : V) (d : List (K × V)) → IsDict d → IsDict (set_default k v d)
  unfolding lookup set_default
  set_default-IsDict k v [] h = (refl, tt)
  set_default-IsDict k v ((i, w) ∷ d) h = ground (
    arith,
    e.beq_iff k i,
    e.beq_iff i k,
    lookup-set_default k i v d,
    set_default-IsDict k v d h.1,
  )

  pub remove-IsDict : (k : K) (d : List (K × V)) → IsDict d → IsDict (remove k d)
  unfolding lookup remove
  remove-IsDict k [] h = tt
  remove-IsDict k ((i, w) ∷ d) h =
      ground (arith, e.beq_iff k i, e.beq_iff i k, lookup-remove_ne k i d, remove-IsDict k d h.1)

  pub snoc-IsDict :
      (k : K) (v : V) (d : List (K × V)) → IsDict d → lookup k d ≡ none → IsDict (d ++ (k, v) ∷ [])
  unfolding lookup
  snoc-IsDict k v [] h f = (refl, tt)
  snoc-IsDict k v ((i, w) ∷ d) h f =
      ground (
        arith,
        e.beq_iff k i,
        e.beq_iff i k,
        lookup-append i d ((k, v) ∷ []),
        snoc-IsDict k v d h.1,
      )

  pub move_to_end-IsDict :
      (k : K) (v : V) (d : List (K × V)) → IsDict d → IsDict (move_to_end k v d)
  unfolding move_to_end
  move_to_end-IsDict k v d h =
      snoc-IsDict k v (remove k d) (remove-IsDict k d h) (lookup-remove_self k d h)

  pub lookup-move_to_end :
      (k j : K) (v : V) (d : List (K × V))
      → IsDict d
      → lookup j (move_to_end k v d) ≡ (if k == j then some v else lookup j d)
  unfolding move_to_end lookup
  lookup-move_to_end k j v d h = ground (
    arith,
    lookup-append j (remove k d) ((k, v) ∷ []),
    e.beq_iff k j,
    lookup-remove_ne k j d,
    lookup-remove_self k d h,
  )

  pub length-put :
      (k : K) (v : V) (d : List (K × V))
      → length (put k v d) ≡ elim (lookup k d) [ none ↦ suc (length d) | some w ↦ length d ]
  unfolding lookup put
  length-put k v [] = refl
  length-put k v ((i, w) ∷ d) = ground (arith, length-put k v d)

  pub length-remove :
      (k : K) (d : List (K × V)) (w : V) → lookup k d ≡ some w → length (remove k d) + 1 ≡ length d
  unfolding lookup remove
  length-remove k [] w h = cc
  length-remove k ((i, x) ∷ d) w h = ground (arith, length-remove k d w)

  pub length-move_to_end :
      (k : K) (v : V) (d : List (K × V)) (w : V)
      → lookup k d ≡ some w
      → length (move_to_end k v d) ≡ length d
  unfolding move_to_end
  length-move_to_end k v d w h =
      omega (arith, length-remove k d w h, length-append (remove k d) ((k, v) ∷ []))
