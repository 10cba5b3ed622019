-- ===== src/Report/Listing/Queries.antt =====
-- The queries over scans, findings and reviews: `list_findings_page` and the others of
-- cryptiq/app/services/scans.py.
use cryptiq.Shared.{
  ℕ, suc, String, Bool, true, ◌&&◌, Option, none, some, List, [], ◌∷◌, ◌++◌, map, ◌==◌, string_eq,
  if◌then◌else◌, contains,
}
use cryptiq.Shared.Dict.{lookup, put, length}
use cryptiq.Shared.Sort.{Ordering, sort_by, nat_cmp, text_cmp, then_cmp}
use cryptiq.Reviews.{ReviewItem, Answer, answered, raised, not_found}
use cryptiq.Jobs.{Scan}
use cryptiq.Report.Persistence.{FindingRow}
use cryptiq.Report.Listing.{
  ◌>>=◌, Rows, Finding, get_scan, priority_value, review_status_value, review_status_values,
  parse_enum, Filters, finding_filters, finding_order, where_holds, clamp_page, page_of,
}

-- `list_scans`, the newest first
unfoldable pub newer_scan : String × Scan → String × Scan → Ordering
newer_scan (id, scan) (id', scan') =
    then_cmp (nat_cmp scan'.created_at scan.created_at) (text_cmp id' id)

unfoldable pub list_scans : Rows → Option String → List (String × Scan)
unfolding newer_scan
list_scans rows none = sort_by newer_scan rows.scans
list_scans rows (some repository_id) =
    sort_by newer_scan
      (where_holds (λ (scan : String × Scan). scan.1.repository_id == repository_id) rows.scans)

-- The loop of `latest_scan_by_repository`: what is there already stays.
unfoldable pub latest_from :
    List (String × (String × Scan)) → List (String × Scan) → List (String × (String × Scan))
latest_from latest [] = latest
latest_from latest ((id, scan) ∷ scans) = elim (lookup scan.repository_id latest) [
  | none ↦ latest_from (put scan.repository_id (id, scan) latest) scans
  | some _ ↦ latest_from latest scans
]

unfoldable pub latest_scan_by_repository : Rows → List (String × (String × Scan))
unfolding latest_from newer_scan
latest_scan_by_repository rows = latest_from [] (sort_by newer_scan rows.scans)

-- `list_findings`
unfoldable pub list_findings : Rows → String → Answer (List Finding)
unfolding get_scan finding_order where_holds
list_findings rows scan_id = do
  scan ← get_scan rows scan_id
  answered (
      sort_by finding_order
        (where_holds (λ (finding : Finding). finding.1.scan_id == scan_id) rows.findings))

-- The reviews of a finding that have the status.
unfoldable pub reviews_with :
    String → String → List (String × ReviewItem) → List (String × ReviewItem)
unfolding where_holds
reviews_with finding_id status reviews =
    where_holds
      (λ (review : String × ReviewItem).
        review.1.finding_id == finding_id && (review_status_value review.1.status == status))
      reviews

-- The join with the review items: a finding once for each of its reviews that has the status.
unfoldable pub join_reviews : String → List (String × ReviewItem) → List Finding → List Finding
unfolding reviews_with
join_reviews status reviews [] = []
join_reviews status reviews (finding ∷ findings) =
    map (λ review. finding) (reviews_with finding.0 status reviews)
    ++ join_reviews status reviews findings

unfoldable pub with_status :
    Option String → List (String × ReviewItem) → List Finding → Answer (List Finding)
unfolding join_reviews parse_enum
with_status none reviews findings = answered findings
with_status (some raw) reviews findings =
    if raw == ""
    then answered findings
    else parse_enum review_status_values raw >>= λ status.
        answered (join_reviews status reviews findings)

-- The statement of `list_findings_page`, before its order and its page.
unfoldable pub findings_statement :
    (String → String → Bool) → Rows → String → Filters → Answer (List Finding)
unfolding get_scan finding_filters where_holds with_status
findings_statement like rows scan_id filters = do
  scan ← get_scan rows scan_id
  condition ← finding_filters like filters
  with_status filters.review_status rows.reviews (
      where_holds (λ (finding : Finding). (finding.1.scan_id == scan_id) && condition finding)
        rows.findings)

-- `list_findings_page`
unfoldable pub list_findings_page :
    (String → String → Bool) → Rows → String → Filters → ℕ → ℕ → Answer (List Finding × ℕ)
unfolding findings_statement page_of clamp_page finding_order
list_findings_page like rows scan_id filters page page_size = do
  statement ← findings_statement like rows scan_id filters
  answered (page_of finding_order (clamp_page page page_size) statement, length statement)

abbrev pub Queued : Type 0
Queued = (String × ReviewItem) × Finding

-- The findings that a review item is joined with.
unfoldable pub findings_of : String × ReviewItem → List Finding → List Queued
findings_of review [] = []
findings_of review (finding ∷ findings) =
    let rest = findings_of review findings in
    if review.1.finding_id == finding.0 then (review, finding) ∷ rest else rest

unfoldable pub join_findings : List (String × ReviewItem) → List Finding → List Queued
unfolding findings_of
join_findings [] findings = []
join_findings (review ∷ reviews) findings =
    findings_of review findings ++ join_findings reviews findings

unfoldable pub queue_order : Queued → Queued → Ordering
unfolding finding_order
queue_order (review, finding) (review', finding') = finding_order finding finding'

-- The condition on the status in `list_review_queue_page`.
unfoldable pub has_status : Option String → Answer (ReviewItem → Bool)
unfolding parse_enum
has_status none = answered (λ _. true)
has_status (some raw) =
    if raw == ""
    then answered (λ _. true)
    else parse_enum review_status_values raw >>= λ status.
        answered (λ review. review_status_value review.status == status)

unfoldable pub queue_statement : (String → String → Bool) → Rows → Filters → Answer (List Queued)
unfolding finding_filters where_holds join_findings has_status
queue_statement like rows filters = do
  condition ← finding_filters like (record filters { confidence = none })
  status ← has_status filters.review_status
  answered (
      where_holds (λ (queued : Queued). condition queued.1 && status queued.0.1)
        (join_findings rows.reviews rows.findings))

-- `list_review_queue_page`
unfoldable pub list_review_queue_page :
    (String → String → Bool) → Rows → Filters → ℕ → ℕ → Answer (List Queued × ℕ)
unfolding queue_statement page_of clamp_page queue_order
list_review_queue_page like rows filters page page_size = do
  statement ← queue_statement like rows filters
  answered (page_of queue_order (clamp_page page page_size) statement, length statement)

-- `get_finding`
unfoldable pub get_finding : Rows → String → Answer FindingRow
get_finding rows finding_id = elim (lookup finding_id rows.findings) [
  | none ↦ raised not_found
  | some row ↦ answered row
]

-- `list_review_queue`
unfoldable pub list_review_queue : Rows → List Queued
unfolding join_findings queue_order
list_review_queue rows = sort_by queue_order (join_findings rows.reviews rows.findings)

abbrev pub Severities : Type 0
Severities = List (String × List (String × ℕ))

abbrev pub count_of : String → List (String × ℕ) → ℕ
count_of band counts = elim (lookup band counts) [ none ↦ 0 | some n ↦ n ]

abbrev pub bands_of : String → Severities → List (String × ℕ)
bands_of scan_id severities = elim (lookup scan_id severities) [ none ↦ [] | some bands ↦ bands ]

-- One row more in its group.
unfoldable pub count_finding : String → String → Severities → Severities
count_finding scan_id band severities =
    let bands = bands_of scan_id severities in
    put scan_id (put band (suc (count_of band bands)) bands) severities

unfoldable pub count_findings : List String → List Finding → Severities → Severities
unfolding count_finding
count_findings scan_ids [] severities = severities
count_findings scan_ids ((id, row) ∷ findings) severities = count_findings scan_ids findings (
    if contains scan_ids row.scan_id
    then count_finding row.scan_id (priority_value row.finding.priority.level) severities
    else severities)

-- `severity_by_scan`; the order of the groups is not part of what the query promises.
unfoldable pub severity_by_scan : Rows → List String → Severities
unfolding count_findings
severity_by_scan rows scan_ids = count_findings scan_ids rows.findings []
