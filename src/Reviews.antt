-- ===== src/Reviews.antt =====
-- The dispositions of the findings: cryptiq/app/services/reviews.py, over the rows of the review items
-- (cryptiq/app/db/models/review_item.py). The logging and the timestamps of the updates are left out.
pub mod Current
pub mod Workflow
mod Tests
use cryptiq.Shared.{
  ℕ, ltb, String, Bool, true, false, not, Option, none, some, List, [], ◌∷◌, ◌==◌, ◌&&◌, Eq,
  enum_eq, pair_eq, string_eq, if◌then◌else◌, contains,
}
use cryptiq.Shared.Text.{strip, upper}
use cryptiq.Shared.Dict.{lookup, put}

pub data ReviewStatus : Type 0 where
  open_status in_review resolved accepted_risk false_positive reviewed : ReviewStatus

unfoldable pub ReviewStatus-discrete : Discrete ReviewStatus
ReviewStatus-discrete = hlevel

instance abbrev pub review_status_eq : Eq ReviewStatus
review_status_eq = enum_eq ReviewStatus-discrete

pub data Error : Type 0 where
  validation_error not_found invalid_transition : Error

pub data Answer (A : Type 0) : Type 0 where
  answered : A → Answer A
  raised : Error → Answer A

pub record ReviewItem : Type 0 where
  pub finding_id : String
  pub status : ReviewStatus
  pub assigned_to : Option String
  pub note : Option String
  pub created_at : ℕ

-- The findings' identifiers, and the review items by theirs.
pub record Tables : Type 0 where
  pub findings : List String
  pub items : List (String × ReviewItem)

-- `ReviewStatus(token)`
unfoldable pub status_of : String → Option ReviewStatus
status_of token =
    if token == "OPEN"
    then some open_status
    else if token == "IN_REVIEW"
    then some in_review
    else if token == "RESOLVED"
    then some resolved
    else if token == "ACCEPTED_RISK"
    then some accepted_risk
    else if token == "FALSE_POSITIVE"
    then some false_positive
    else if token == "REVIEWED"
    then some reviewed
    else none

-- `_ALIASES.get(status, status)`
unfoldable pub unaliased : ReviewStatus → ReviewStatus
unaliased reviewed = resolved
unaliased status = status

abbrev pub closed : List ReviewStatus
closed = resolved ∷ accepted_risk ∷ false_positive ∷ []

abbrev pub open_states : List ReviewStatus
open_states = open_status ∷ in_review ∷ []

-- `(current, target) in LEGAL_REVIEW_TRANSITIONS`
unfoldable pub is_legal : ReviewStatus → ReviewStatus → Bool
is_legal current target =
    let any = if contains open_states target then true else contains closed target in
    if contains open_states current then any else contains closed current && any

-- `parse_status`
unfoldable pub parse_status : String → Answer ReviewStatus
parse_status raw = elim (status_of (upper (strip raw))) [
  | none ↦ raised validation_error
  | some status ↦ answered (unaliased status)
]

-- `_check_transition`: whether it lets the change pass.
unfoldable pub check_transition : ReviewStatus → ReviewStatus → Bool
check_transition current target =
    let from = unaliased current in if from == target then true else is_legal from target

-- `max(items, key=created_at)`, of the items of a finding: the first of those that are newest.
unfoldable pub newest : String → List (String × ReviewItem) → Option (String × ReviewItem)
newest finding [] = none
newest finding ((id, item) ∷ items) =
    let rest = newest finding items in
    if item.finding_id == finding
    then elim rest [
      | none ↦ some (id, item)
      | some other ↦ if ltb item.created_at other.1.created_at then some other else some (id, item)
    ]
    else rest

abbrev pub new_item : String → ℕ → ReviewItem
new_item finding now = record {
  finding_id = finding;
  status = open_status;
  assigned_to = none;
  note = none;
  created_at = now;
}

-- `_current_or_new`, with the identifier and the time that a new row gets.
unfoldable pub current_or_new : String → ℕ → String → Tables → String × ReviewItem
current_or_new fresh now finding tables = elim (newest finding tables.items) [
  | none ↦ (fresh, new_item finding now)
  | some found ↦ found
]

-- `text.strip() or None`
unfoldable pub stripped : String → Option String
stripped text = let t = strip text in if t == "" then none else some t

unfoldable pub noted : Option String → ReviewItem → ReviewItem
noted none item = item
noted (some note) item = record item { note = stripped note }

-- `record_disposition`: the identifier and the row of the review item, and the tables.
unfoldable pub record_disposition :
    String → ℕ → String → String → Option String → Tables → Answer ((String × ReviewItem) × Tables)
record_disposition fresh now finding raw note tables = elim (parse_status raw) [
  | raised error ↦ raised error
  | answered target ↦
      if not (contains tables.findings finding)
      then raised not_found
      else let (id, item) = current_or_new fresh now finding tables in
        let after = noted note (record item { status = target }) in
        if check_transition item.status target
        then answered ((id, after), record tables { items = put id after tables.items })
        else raised invalid_transition
]

-- A field of a PATCH: not sent, or sent as a text or as null.
pub data Field : Type 0 where
  unset : Field
  sent : Option String → Field

unfoldable pub field_value : Field → Option String → Option String
field_value unset old = old
field_value (sent none) old = none
field_value (sent (some text)) old = stripped text

-- The change of the status in `update_review_item`.
unfoldable pub changed_status : Option String → ReviewItem → Answer ReviewItem
changed_status none item = answered item
changed_status (some raw) item = elim (parse_status raw) [
  | raised error ↦ raised error
  | answered target ↦
      if check_transition item.status target
      then answered (record item { status = target })
      else raised invalid_transition
]

-- `update_review_item`
unfoldable pub update_review_item :
    String → Option String → Field → Field → Tables → Answer (ReviewItem × Tables)
update_review_item id raw assigned_to note tables = elim (lookup id tables.items) [
  | none ↦ raised not_found
  | some item ↦ elim (changed_status raw item) [
    | raised error ↦ raised error
    | answered changed ↦
        let after : ReviewItem = record changed {
          assigned_to = field_value assigned_to changed.assigned_to;
          note = field_value note changed.note;
        } in
        answered (after, record tables { items = put id after tables.items })
  ]
]
