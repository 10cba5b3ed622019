-- ===== src/Report/Listing.antt =====
-- What the lists of scans and findings share: their tables, their filters, their order and their pages,
-- of cryptiq/app/services/scans.py. The rows of the findings stand with their identifiers. The LIKE of the
-- database is an argument; a page or a size below zero stands here as zero, and is clamped alike.
pub mod Queries
pub mod Pages
use cryptiq.Shared.{
  ℕ, zero, suc, ◌-◌, ◌*◌, max, min, String, Bool, true, false, ◌&&◌, Option, none, some, List, [],
  ◌∷◌, ◌++◌, map, ◌==◌, string_eq, if◌then◌else◌, contains,
}
use cryptiq.Shared.Text.{strip, upper, lower, replace_char}
use cryptiq.Shared.Parts.{format}
use cryptiq.Shared.Dict.{lookup, put, length}
use cryptiq.Shared.Sort.{Ordering, sort_by, nat_cmp, text_cmp, then_cmp}
use cryptiq.Triage.Role.{role_value}
use cryptiq.Triage.Priority.{ReviewPriority, critical, high, medium, low, informational}
use cryptiq.Reviews.{
  ReviewStatus, open_status, in_review, resolved, accepted_risk, false_positive, reviewed,
  ReviewItem, Answer, answered, raised, validation_error, not_found,
}
use cryptiq.Jobs.{Scan}
use cryptiq.Report.Persistence.{
  FindingRow, Confidence, high_confidence, medium_confidence, low_confidence,
}

infixl 5 ◌>>=◌
abbrev pub ◌>>=◌ : {A B : Type 0} → Answer A → (A → Answer B) → Answer B
answered a >>= f = f a
raised error >>= f = raised error

-- The tables that the queries read.
pub record Rows : Type 0 where
  pub scans : List (String × Scan)
  pub findings : List (String × FindingRow)
  pub reviews : List (String × ReviewItem)

abbrev pub Finding : Type 0
Finding = String × FindingRow

-- `get_scan`
unfoldable pub get_scan : Rows → String → Answer Scan
get_scan rows scan_id = elim (lookup scan_id rows.scans) [
  | none ↦ raised not_found
  | some scan ↦ answered scan
]

-- The values of the enumerations.
abbrev pub priority_value : ReviewPriority → String
priority_value critical = "CRITICAL"
priority_value high = "HIGH"
priority_value medium = "MEDIUM"
priority_value low = "LOW"
priority_value informational = "INFORMATIONAL"

abbrev pub stored_confidence_value : Confidence → String
stored_confidence_value high_confidence = "HIGH"
stored_confidence_value medium_confidence = "MEDIUM"
stored_confidence_value low_confidence = "LOW"

abbrev pub review_status_value : ReviewStatus → String
review_status_value open_status = "OPEN"
review_status_value in_review = "IN_REVIEW"
review_status_value resolved = "RESOLVED"
review_status_value accepted_risk = "ACCEPTED_RISK"
review_status_value false_positive = "FALSE_POSITIVE"
review_status_value reviewed = "REVIEWED"

abbrev pub priority_values : List String
priority_values = "CRITICAL" ∷ "HIGH" ∷ "MEDIUM" ∷ "LOW" ∷ "INFORMATIONAL" ∷ []

abbrev pub role_values : List String
role_values =
    "DIGITAL_SIGNATURE" ∷ "KEY_ESTABLISHMENT" ∷ "SYMMETRIC_ENCRYPTION" ∷ "HASH" ∷ "PROTOCOL"
    ∷ "UNKNOWN" ∷ []

abbrev pub confidence_values : List String
confidence_values = "HIGH" ∷ "MEDIUM" ∷ "LOW" ∷ []

abbrev pub review_status_values : List String
review_status_values =
    "OPEN" ∷ "IN_REVIEW" ∷ "RESOLVED" ∷ "ACCEPTED_RISK" ∷ "FALSE_POSITIVE" ∷ "REVIEWED" ∷ []

-- `_parse_enum`, of the values of the enumeration: the value.
unfoldable pub parse_enum : List String → String → Answer String
parse_enum values raw =
    let token = replace_char 32 "_" (replace_char 45 "_" (upper (strip raw))) in
    if contains values token then answered token else raised validation_error

abbrev pub Condition : Type 0
Condition = Finding → Bool

-- `if text: conditions.append(column == _parse_enum(...))`
unfoldable pub is_value : (FindingRow → String) → List String → Option String → Answer Condition
unfolding parse_enum
is_value column values none = answered (λ _. true)
is_value column values (some raw) =
    if raw == ""
    then answered (λ _. true)
    else parse_enum values raw >>= λ token. answered (λ finding. column finding.1 == token)

unfoldable pub is_like : (String → String → Bool) → Option String → Condition
is_like like none finding = true
is_like like (some raw) (id, row) =
    if strip raw == ""
    then true
    else like (lower row.finding.found.algorithm) (format ("%" ∷ lower (strip raw) ∷ "%" ∷ []))

pub record Filters : Type 0 where
  pub priority : Option String
  pub algorithm : Option String
  pub role : Option String
  pub confidence : Option String
  pub review_status : Option String

-- `_finding_filters`
unfoldable pub finding_filters : (String → String → Bool) → Filters → Answer Condition
unfolding is_value is_like
finding_filters like filters = do
  priority ←
      is_value (λ row. priority_value row.finding.priority.level) priority_values filters.priority
  role ← is_value (λ row. role_value row.finding.role.role) role_values filters.role
  confidence ←
      is_value (λ row. stored_confidence_value row.confidence) confidence_values filters.confidence
  answered (λ finding.
      priority finding
      && (role finding && (confidence finding && is_like like filters.algorithm finding)))

-- `_FINDING_ORDER`
unfoldable pub finding_order : Finding → Finding → Ordering
finding_order (id, row) (id', row') =
    then_cmp (nat_cmp row'.finding.priority.score row.finding.priority.score) (
      then_cmp (text_cmp row.finding.found.file_path row'.finding.found.file_path) (
        then_cmp
          (nat_cmp row.finding.found.location.start_line row'.finding.found.location.start_line)
          (text_cmp id id')))

unfoldable pub where_holds {ℓ} : {A : Type ℓ} → (A → Bool) → List A → List A
where_holds test [] = []
where_holds test (a ∷ rows) = let rest = where_holds test rows in if test a then a ∷ rest else rest

abbrev pub max_page_size : ℕ
max_page_size = 200

-- `_clamp_page`
unfoldable pub clamp_page : ℕ → ℕ → ℕ × ℕ
clamp_page page page_size = (max page 1, min (max page_size 1) max_page_size)

unfoldable pub limit {ℓ} : {A : Type ℓ} → ℕ → List A → List A
limit zero rows = []
limit (suc n) [] = []
limit (suc n) (row ∷ rows) = row ∷ limit n rows

unfoldable pub offset {ℓ} : {A : Type ℓ} → ℕ → List A → List A
offset zero rows = rows
offset (suc n) [] = []
offset (suc n) (row ∷ rows) = offset n rows

-- `.offset(...).limit(...)` of an ordered statement
unfoldable pub page_of {ℓ} : {A : Type ℓ} → (A → A → Ordering) → ℕ × ℕ → List A → List A
unfolding limit offset
page_of order (page, size) rows = limit size (offset ((page - 1) * size) (sort_by order rows))
