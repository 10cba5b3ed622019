-- ===== src/Reviews/Tests.antt =====
-- The review workflow at concrete rows.
use cryptiq.Shared.{String, none, some, [], ◌∷◌, ◌≡◌, refl, contains, if◌then◌else◌, string_eq}
use cryptiq.Shared.Text.{strip, upper}
use cryptiq.Shared.Dict.{lookup, put}
use cryptiq.Reviews.Current.{IsCurrent}
use cryptiq.Reviews.{
  ReviewStatus, ReviewStatus-discrete, Error, answered, raised, ReviewItem, Tables, unset, sent,
  status_of, unaliased, is_legal, parse_status, check_transition, newest, current_or_new, noted,
  stripped, record_disposition, field_value, changed_status, update_review_item,
}
use cryptiq.Reviews.Workflow.{
  disposed, record_disposition-disposed, IsUpdated, update_review_item-IsUpdated,
}

program : Unit {0}
unfolding strip upper lookup put contains ReviewStatus-discrete status_of unaliased is_legal
    parse_status check_transition newest current_or_new noted stripped record_disposition
    field_value changed_status update_review_item
program = tt

abbrev item : ReviewItem
item = record {
  finding_id = "f1";
  status = ReviewStatus.open_status;
  assigned_to = some "ada";
  note = none;
  created_at = 3;
}

abbrev tables : Tables
tables = record { findings = "f1" ∷ []; items = ("r1", item) ∷ [] }

abbrev closed_item : ReviewItem
closed_item = record item { status = ReviewStatus.resolved; assigned_to = none }

abbrev closed_tables : Tables
closed_tables = record tables { items = ("r1", closed_item) ∷ [] }

-- The legacy spelling is stored as RESOLVED, and an explicit null clears the assignee.
updated :
    update_review_item "r1" (some "reviewed") (sent none) unset tables
    ≡ answered (closed_item, closed_tables)
unfolding program
updated = refl

update_review_item-IsUpdated_example :
    IsUpdated "r1" (some "reviewed") tables closed_item closed_tables
update_review_item-IsUpdated_example =
    update_review_item-IsUpdated "r1" (some "reviewed") (sent none) unset tables closed_tables
      closed_item updated

record_disposition-disposed_example :
    (current : String × ReviewItem) × (IsCurrent "r2" 5 "f1" tables current
      × (record_disposition "r2" 5 "f1" "resolved" (some "ok") tables
          ≡ elim (parse_status "resolved") [
            | raised error ↦ raised error
            | answered target ↦
                if contains tables.findings "f1"
                then answered (disposed current (some "ok") tables target)
                else raised Error.not_found
          ]))
record_disposition-disposed_example =
    record_disposition-disposed "r2" 5 "f1" "resolved" (some "ok") tables
