-- ===== src/Shared/Each.antt =====
-- What holds of each element of a list, and of one.
use mathlib.Core.Logic.{◌⊎◌, inl, inr}
use mathlib.Core.List.{List, [], ◌∷◌, ◌++◌}
use cryptiq.Shared.Tests.{Bool-cases}
use cryptiq.Shared.Sort.{sort_by, insert_by, is_gt, Ordering}

module _ {ℓ} {A : Type ℓ} where
  unfoldable pub Each : List A → (A → Type 0) → Type 0
  Each [] P = Unit
  Each (x ∷ xs) P = P x × Each xs P

  unfoldable pub Has : List A → (A → Type 0) → Type 0
  Has [] P = ⊥
  Has (x ∷ xs) P = P x ⊎ Has xs P

  pub Each-weaken : (xs : List A) (P Q : A → Type 0) → ((x : A) → P x → Q x) → Each xs P → Each xs Q
  unfolding Each
  Each-weaken [] P Q f h = tt
  Each-weaken (x ∷ xs) P Q f (h, k) = (f x h, Each-weaken xs P Q f k)

  pub Each-append : (xs ys : List A) (P : A → Type 0) → Each xs P → Each ys P → Each (xs ++ ys) P
  unfolding Each
  Each-append [] ys P h k = k
  Each-append (x ∷ xs) ys P (h, i) k = (h, Each-append xs ys P i k)

  Each-insert_by :
      (cmp : A → A → Ordering) (x : A) (xs : List A) (P : A → Type 0)
      → P x
      → Each xs P
      → Each (insert_by cmp x xs) P
  unfolding Each insert_by
  Each-insert_by cmp x [] P h k = (h, tt)
  Each-insert_by cmp x (y ∷ ys) P h (i, k) = elim (Bool-cases (is_gt (cmp x y))) [
    | inl e ↦ rw e (i, Each-insert_by cmp x ys P h k)
    | inr e ↦ rw e (h, (i, k))
  ]

  pub Each-sort_by :
      (cmp : A → A → Ordering) (xs : List A) (P : A → Type 0) → Each xs P → Each (sort_by cmp xs) P
  unfolding Each sort_by
  Each-sort_by cmp [] P h = tt
  Each-sort_by cmp (x ∷ xs) P (h, k) =
      Each-insert_by cmp x (sort_by cmp xs) P h (Each-sort_by cmp xs P k)

  pub Has-left : (xs ys : List A) (P : A → Type 0) → Has xs P → Has (xs ++ ys) P
  unfolding Has
  Has-left [] ys P h = absurd h
  Has-left (x ∷ xs) ys P (inl h) = inl h
  Has-left (x ∷ xs) ys P (inr h) = inr (Has-left xs ys P h)

  pub Has-right : (xs ys : List A) (P : A → Type 0) → Has ys P → Has (xs ++ ys) P
  unfolding Has
  Has-right [] ys P h = h
  Has-right (x ∷ xs) ys P h = inr (Has-right xs ys P h)

  Has-insert_by :
      (cmp : A → A → Ordering) (x : A) (xs : List A) (P : A → Type 0)
      → P x ⊎ Has xs P
      → Has (insert_by cmp x xs) P
  unfolding Has insert_by
  Has-insert_by cmp x [] P h = h
  Has-insert_by cmp x (y ∷ ys) P h = elim (Bool-cases (is_gt (cmp x y))) [
    | inr e ↦ rw e h
    | inl e ↦ rw e (elim h [
      | inl a ↦ inr (Has-insert_by cmp x ys P (inl a))
      | inr (inl b) ↦ inl b
      | inr (inr c) ↦ inr (Has-insert_by cmp x ys P (inr c))
    ])
  ]

  pub Has-sort_by :
      (cmp : A → A → Ordering) (xs : List A) (P : A → Type 0) → Has xs P → Has (sort_by cmp xs) P
  unfolding Has sort_by
  Has-sort_by cmp [] P h = absurd h
  Has-sort_by cmp (x ∷ xs) P (inl h) = Has-insert_by cmp x (sort_by cmp xs) P (inl h)
  Has-sort_by cmp (x ∷ xs) P (inr h) =
      Has-insert_by cmp x (sort_by cmp xs) P (inr (Has-sort_by cmp xs P h))
