-- ===== src/Shared/Sort.antt =====
-- Python's stable `sorted`, by a comparison of keys.
use Prim.Native.Nat.{compare}
use Prim.Native.String.{compare as compare_text}
use mathlib.Core.Bool.{Bool, true, false}
use mathlib.Core.Logic.{inl, inr}
use mathlib.Core.List.{List, [], ◌∷◌, Perm}
use mathlib.Core.List.Perm
use cryptiq.Shared.Tests.{if◌then◌else◌, Bool-cases}
pub use Prim.Native.Nat.{ℕ, Ordering}
pub use Prim.Native.String.{String}

abbrev pub nat_cmp : ℕ → ℕ → Ordering
nat_cmp a b = compare a b

abbrev pub text_cmp : String → String → Ordering
text_cmp s t = compare_text s t

-- The next parts of two tuples count where the first are equal.
abbrev pub then_cmp : Ordering → Ordering → Ordering
then_cmp Ordering.lt o = Ordering.lt
then_cmp Ordering.gt o = Ordering.gt
then_cmp Ordering.eq o = o

abbrev pub is_gt : Ordering → Bool
is_gt Ordering.gt = true
is_gt Ordering.lt = false
is_gt Ordering.eq = false

module _ {ℓ} {A : Type ℓ} (cmp : A → A → Ordering) where
  -- An element in front of those that are not below it.
  unfoldable pub insert_by : A → List A → List A
  insert_by a [] = a ∷ []
  insert_by a (b ∷ bs) = if is_gt (cmp a b) then b ∷ insert_by a bs else a ∷ b ∷ bs

  unfoldable pub sort_by : List A → List A
  unfolding insert_by
  sort_by [] = []
  sort_by (a ∷ xs) = insert_by a (sort_by xs)

  insert_by-perm : (a : A) (bs : List A) → Perm (insert_by a bs) (a ∷ bs)
  unfolding insert_by
  insert_by-perm a [] = Perm.refl (a ∷ [])
  insert_by-perm a (b ∷ bs) = elim (Bool-cases (is_gt (cmp a b))) [
    | inl e ↦ rw e (Perm.trans (Perm.cons b (insert_by-perm a bs)) (Perm.swap a b bs))
    | inr e ↦ rw e (Perm.refl (a ∷ b ∷ bs))
  ]

  pub sort_by-perm : (xs : List A) → Perm (sort_by xs) xs
  unfolding sort_by
  sort_by-perm [] = Perm.refl []
  sort_by-perm (a ∷ xs) = Perm.trans (insert_by-perm a (sort_by xs)) (Perm.cons a (sort_by-perm xs))
