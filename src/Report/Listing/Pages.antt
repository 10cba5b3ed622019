-- ===== src/Report/Listing/Pages.antt =====
-- The pages of a list are the list: `list_findings_page` and `list_review_queue_page` of
-- cryptiq/app/services/scans.py.
use mathlib.Core.List.{Perm}
use cryptiq.Shared.{
  ℕ, zero, suc, ◌+◌, ◌-◌, ◌*◌, ◌≤◌, max, min, String, Bool, List, [], ◌∷◌, ◌++◌, ◌≡◌, refl, sym, ap,
  ◌∙◌, arith,
}
use cryptiq.Shared.Dict.{length}
use cryptiq.Shared.Sort.{Ordering, sort_by, sort_by-perm, insert_by}
use cryptiq.Reviews.{Answer, answered, raised}
use cryptiq.Report.Listing.{
  ◌>>=◌, Rows, Finding, Filters, finding_order, clamp_page, limit, offset, page_of,
}
use cryptiq.Report.Listing.Queries.{findings_statement, list_findings_page}

module _ {ℓ} {A : Type ℓ} where
  limit-nil : (n : ℕ) → limit {A = A} n [] ≡ []
  unfolding limit
  limit-nil zero = refl
  limit-nil (suc n) = refl

  limit-offset :
      (m n : ℕ) (rows : List A) → limit m rows ++ limit n (offset m rows) ≡ limit (m + n) rows
  unfolding limit offset
  limit-offset zero n rows = let same : 0 + n ≡ n = omega arith in rw same refl
  limit-offset (suc m) n [] = limit-nil n ∙ sym (limit-nil (suc m + n))
  limit-offset (suc m) n (row ∷ rows) =
      let same : suc m + n ≡ suc (m + n) = omega arith in
      rw same (ap (λ rest. row ∷ rest) (limit-offset m n rows))

  limit_all : (n : ℕ) (rows : List A) → length rows ≤ n → limit n rows ≡ rows
  unfolding limit
  limit_all zero [] h = refl
  limit_all zero (row ∷ rows) h = absurd (omega arith)
  limit_all (suc n) [] h = refl
  limit_all (suc n) (row ∷ rows) h = ap (λ rest. row ∷ rest) (limit_all n rows (omega arith))

  length-limit : (n : ℕ) (rows : List A) → length (limit n rows) ≤ n
  unfolding limit
  length-limit zero rows = omega arith
  length-limit (suc n) [] = omega arith
  length-limit (suc n) (row ∷ rows) = let rest = length-limit n rows in omega arith

  module _ (order : A → A → Ordering) where
    length-insert_by : (a : A) (rows : List A) → length (insert_by order a rows) ≡ suc (length rows)
    unfolding insert_by
    length-insert_by a [] = refl
    length-insert_by a (row ∷ rows) = ground (arith, length-insert_by a rows)

    length-sort_by : (rows : List A) → length (sort_by order rows) ≡ length rows
    unfolding sort_by
    length-sort_by [] = refl
    length-sort_by (row ∷ rows) =
        length-insert_by row (sort_by order rows) ∙ ap suc (length-sort_by rows)

-- The first pages, one after the other.
unfoldable pub pages_of : {A : Type 0} → (ℕ → Answer (List A × ℕ)) → ℕ → Answer (List A)
pages_of page zero = answered []
pages_of page (suc k) = do
  before ← pages_of page k
  last ← page (suc k)
  answered (before ++ last.0)

pages_of-limit :
    {A : Type 0} (order : A → A → Ordering) (size : ℕ) (statement : List A)
    (page : ℕ → Answer (List A × ℕ))
    → ((k : ℕ) → page (suc k) ≡ answered (page_of order (suc k, size) statement, length statement))
    → (k : ℕ) → pages_of page k ≡ answered (limit (k * size) (sort_by order statement))
unfolding pages_of page_of limit
pages_of-limit order size statement page h zero =
    let none_yet : 0 * size ≡ 0 = omega arith in rw none_yet refl
pages_of-limit order size statement page h (suc k) =
    let next : suc k * size ≡ k * size + size = grind arith in
    let before : suc k - 1 ≡ k = omega arith in
    rw (pages_of-limit order size statement page h k, h k, before, next)
      (ap answered (limit-offset (k * size) size (sort_by order statement)))

-- What the pages have in common: their size, once clamped.
abbrev pub size_of : ℕ → ℕ
size_of page_size = (clamp_page 1 page_size).1

clamp_page-suc : (k page_size : ℕ) → clamp_page (suc k) page_size ≡ (suc k, size_of page_size)
unfolding clamp_page
clamp_page-suc k page_size =
    let same : max (suc k) 1 ≡ suc k = omega arith in ap (λ page. (page, size_of page_size)) same

list_findings_page-suc :
    (like : String → String → Bool) (rows : Rows) (scan_id : String) (filters : Filters)
    (page_size : ℕ) (statement : List Finding)
    → findings_statement like rows scan_id filters ≡ answered statement
    → (k : ℕ)
    → list_findings_page like rows scan_id filters (suc k) page_size
      ≡ answered (page_of finding_order (suc k, size_of page_size) statement, length statement)
unfolding list_findings_page
list_findings_page-suc like rows scan_id filters page_size statement h k = rw h (
    ap (λ c. answered (page_of finding_order c statement, length statement))
      (clamp_page-suc k page_size))

abbrev pub rows_of : {A : Type 0} → Answer (List A × ℕ) → List A
rows_of (answered (rows, total)) = rows
rows_of (raised error) = []

abbrev pub total_of : {A : Type 0} → Answer (List A × ℕ) → ℕ
total_of (answered (rows, total)) = total
total_of (raised error) = 0

page_of-bound :
    {A : Type 0} (order : A → A → Ordering) (page page_size : ℕ) (statement : List A)
    → length (page_of order (clamp_page page page_size) statement) ≤ 200
unfolding page_of clamp_page
page_of-bound order page page_size statement =
    let size = min (max page_size 1) 200 in
    let bound = length-limit size (offset ((max page 1 - 1) * size) (sort_by order statement)) in
    omega arith

-- If the scan is there and the filters are valid, the pages of any size, as many as hold the total, are
-- one after the other the filtered findings in the order of the list, each as often as the filter
-- lets it through; every page tells the number of the filtered findings, and has at most 200 of them.
pub list_findings_page-pages :
    (like : String → String → Bool) (rows : Rows) (scan_id : String) (filters : Filters)
    (page_size : ℕ) (statement : List Finding) (k page : ℕ)
    → findings_statement like rows scan_id filters ≡ answered statement
    → length statement ≤ k * size_of page_size
    → (pages_of (λ n. list_findings_page like rows scan_id filters n page_size) k
        ≡ answered (sort_by finding_order statement))
      × (Perm (sort_by finding_order statement) statement
          × ((total_of (list_findings_page like rows scan_id filters page page_size)
                ≡ length statement)
              × (length (rows_of (list_findings_page like rows scan_id filters page page_size))
                  ≤ 200)))
unfolding list_findings_page
list_findings_page-pages like rows scan_id filters page_size statement k page h enough =
    let sorted = sort_by finding_order statement in
    let counted = length-sort_by finding_order statement in
    let whole =
      pages_of-limit finding_order (size_of page_size) statement
        (λ n. list_findings_page like rows scan_id filters n page_size)
        (list_findings_page-suc like rows scan_id filters page_size statement h) k
      ∙ ap answered (limit_all (k * size_of page_size) sorted (omega arith)) in
    (
      whole,
      (
        sort_by-perm finding_order statement,
        (rw h refl, rw h (page_of-bound finding_order page page_size statement)),
      ),
    )
