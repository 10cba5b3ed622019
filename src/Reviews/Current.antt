-- ===== src/Reviews/Current.antt =====
-- Which review item a disposition is recorded on: `_current_or_new` of cryptiq/app/services/reviews.py.
use cryptiq.Shared.{
  ℕ, ltb, ◌≤◌, String, true, false, none, some, List, [], ◌∷◌, ◌==◌, ◌≡◌, ◌⊎◌, inl, inr, refl,
  subst, arith, string_eq, Bool-cases, Option-cases,
}
use cryptiq.Shared.Each.{Each, Has, Each-weaken}
use cryptiq.Reviews.{ReviewStatus, ReviewItem, Tables, newest, current_or_new}

-- Of the finding's items, the row is none that was made after the item.
unfoldable pub IsNoNewer : String → ReviewItem → String × ReviewItem → Type 0
IsNoNewer finding item row =
    ((row.1.finding_id == finding) ≡ false) ⊎ (row.1.created_at ≤ item.created_at)

-- The item is the newest of the finding's, or a new one where the finding has none.
unfoldable pub IsCurrent : String → ℕ → String → Tables → String × ReviewItem → Type 0
IsCurrent fresh now finding tables current =
    (Has tables.items (λ (row : String × ReviewItem). row ≡ current)
      × ((current.1.finding_id ≡ finding) × Each tables.items (IsNoNewer finding current.1)))
    ⊎ (Each tables.items (λ row. (row.1.finding_id == finding) ≡ false)
        × (current ≡ (
          fresh,
          record {
            finding_id = finding;
            status = ReviewStatus.open_status;
            assigned_to = none;
            note = none;
            created_at = now;
          },
        )))

newest-none :
    (finding : String) (items : List (String × ReviewItem))
    → newest finding items ≡ none
    → Each items (λ row. (row.1.finding_id == finding) ≡ false)
unfolding newest Each
newest-none finding [] h = tt
newest-none finding ((id, item) ∷ items) h = elim (Bool-cases (item.finding_id == finding)) [
  | inl e ↦ elim (Option-cases (newest finding items)) [
    | inl r ↦ absurd (ground (arith, e, r, h))
    | inr (other, r) ↦ absurd (ground (arith, e, r, h))
  ]
  | inr e ↦ (e, newest-none finding items (ground (arith, e, h)))
]

IsFound : String → List (String × ReviewItem) → String × ReviewItem → Type 0
IsFound finding items found =
    Has items (λ (row : String × ReviewItem). row ≡ found)
    × ((found.1.finding_id ≡ finding) × Each items (IsNoNewer finding found.1))

-- An item in front that is not the newest.
IsFound-later :
    (finding id : String) (item : ReviewItem) (items : List (String × ReviewItem))
    (found : String × ReviewItem)
    → IsNoNewer finding found.1 (id, item)
    → IsFound finding items found
    → IsFound finding ((id, item) ∷ items) found
unfolding IsFound Has Each
IsFound-later finding id item items found h (there, (same, each)) = (inr there, (same, (h, each)))

-- An item in front that is.
IsFound-first :
    (finding id : String) (item : ReviewItem) (items : List (String × ReviewItem))
    (found : String × ReviewItem)
    → (item.finding_id == finding) ≡ true
    → some (id, item) ≡ some found
    → Each items (IsNoNewer finding item)
    → IsFound finding ((id, item) ∷ items) found
unfolding IsFound Has Each IsNoNewer
IsFound-first finding id item items found e h each =
    let same : (id, item) ≡ found = row-injective h in
    subst (IsFound finding ((id, item) ∷ items)) same
      (inl refl, ((string_eq.beq_iff item.finding_id finding).0 e, (inr (omega arith), each)))
  where
    row-injective : {x y : String × ReviewItem} → some x ≡ some y → x ≡ y
    row-injective p = cc

newest-IsFound :
    (finding : String) (items : List (String × ReviewItem)) (found : String × ReviewItem)
    → newest finding items ≡ some found
    → IsFound finding items found
unfolding newest IsNoNewer IsFound
newest-IsFound finding [] found h = cc
newest-IsFound finding ((id, item) ∷ items) found h =
    elim (Bool-cases (item.finding_id == finding)) [
      | inr e ↦
          IsFound-later finding id item items found (inl e)
            (newest-IsFound finding items found (ground (arith, e, h)))
      | inl e ↦ elim (Option-cases (newest finding items)) [
        | inl r ↦ IsFound-first finding id item items found e (ground (arith, e, r, h)) (
            Each-weaken items (λ row. (row.1.finding_id == finding) ≡ false)
              (IsNoNewer finding item) (λ row n. inl n) (newest-none finding items r))
        | inr (other, r) ↦
            let (there, (same, each)) = newest-IsFound finding items other r in
            elim (Bool-cases (ltb item.created_at other.1.created_at)) [
              | inl l ↦
                  subst (IsFound finding ((id, item) ∷ items))
                    (row-injective (ground (arith, e, r, l, h)))
                    (IsFound-later finding id item items other (inr (ground (arith, l)))
                      (there, (same, each)))
              | inr l ↦ IsFound-first finding id item items found e (ground (arith, e, r, l, h)) (
                  Each-weaken items (IsNoNewer finding other.1) (IsNoNewer finding item)
                    (λ row n. elim n [ inl m ↦ inl m | inr m ↦ inr (ground (arith, l, m)) ]) each)
            ]
      ]
    ]
  where
    row-injective : {x y : String × ReviewItem} → some x ≡ some y → x ≡ y
    row-injective p = cc

pub current_or_new-IsCurrent :
    (fresh : String) (now : ℕ) (finding : String) (tables : Tables)
    → IsCurrent fresh now finding tables (current_or_new fresh now finding tables)
unfolding current_or_new IsCurrent IsFound
current_or_new-IsCurrent fresh now finding tables =
    elim (Option-cases (newest finding tables.items)) [
      | inl e ↦ rw (e, current_or_new) (inr (newest-none finding tables.items e, refl))
      | inr (found, e) ↦ rw (e, current_or_new) (inl (newest-IsFound finding tables.items found e))
    ]
