-- ===== src/Report/Tests/Listings.antt =====
-- The pages of a scan's findings at concrete rows.
use mathlib.Core.List.{Perm}
use cryptiq.Shared.{
  ℕ, ◌≤◌, String, true, none, some, [], ◌∷◌, ◌≡◌, refl, contains, string_eq, arith,
}
use cryptiq.Shared.Dict.{length, lookup, put}
use cryptiq.Shared.Parts.{format}
use cryptiq.Shared.Text.{strip, lstrip, rstrip, upper, lower, is_space, replace_char, has_text}
use cryptiq.Shared.Sort.{sort_by, insert_by}
use cryptiq.Triage.Role.{CryptographicRole, role_value}
use cryptiq.Triage.Pqc.{PqcReviewPath}
use cryptiq.Triage.Impact.{ImpactScope}
use cryptiq.Triage.Priority.{ReviewPriority}
use cryptiq.Engine.Match.{MatchConfidence}
use cryptiq.Jobs.{Scan, ScanStatus, SourceState}
use cryptiq.Reviews.{ReviewStatus, ReviewItem, answered, raised, validation_error, not_found}
use cryptiq.Report.Persistence.{FindingRow, high_confidence}
use cryptiq.Report.Listing.{
  Rows, Finding, Filters, get_scan, parse_enum, is_value, is_like, finding_filters, finding_order,
  where_holds, clamp_page, limit, offset, page_of,
}
use cryptiq.Report.Listing.Queries.{
  count_findings, count_finding, severity_by_scan, list_scans, newer_scan, latest_from,
  latest_scan_by_repository, list_findings, reviews_with, join_reviews, with_status,
  findings_statement, list_findings_page, findings_of, join_findings, queue_order, has_status,
  queue_statement, list_review_queue_page, list_review_queue,
}
use cryptiq.Report.Listing.Pages.{pages_of, rows_of, total_of, list_findings_page-pages}
use cryptiq.Report.Tests.{signed, shown}

program : Unit {0}
unfolding contains lookup put format strip lstrip rstrip upper lower is_space replace_char sort_by
    insert_by role_value get_scan parse_enum is_value is_like finding_filters finding_order
    where_holds clamp_page limit offset list_scans newer_scan latest_from latest_scan_by_repository
    list_findings reviews_with join_reviews with_status findings_statement page_of
    list_findings_page findings_of join_findings queue_order has_status queue_statement
    list_review_queue_page list_review_queue pages_of severity_by_scan count_findings count_finding
program = tt

abbrev row : ReviewPriority → ℕ → FindingRow
row level points = record {
  scan_id = "s1";
  finding = record {
    found = signed;
    evidence = shown;
    role = record { role = CryptographicRole.digital_signature; rationale = "" };
    pqc = record {
      review_path = PqcReviewPath.signature_migration;
      rationale = "";
      is_migration_candidate = true;
    };
    impact = record {
      scope = ImpactScope.statically_observed;
      confidence = MatchConfidence.high;
      nodes = [];
      relationships = [];
    };
    priority = record { level = level; score = points; reasons = [] };
    fingerprint = "";
  };
  confidence = high_confidence;
  review_items = [];
}

abbrev scan : ℕ → Scan
scan time = record {
  repository_id = "r1";
  commit_sha = "abc";
  parser_version = "1";
  ruleset_version = "1";
  pqc_ruleset_version = "1";
  created_at = time;
  status = ScanStatus.scan_completed;
  source_state = SourceState.live;
  file_count = 1;
  analyzed_file_count = 1;
  skipped_file_count = 0;
  finding_count = 3;
  started_at = none;
  completed_at = none;
  error_code = none;
  error_message = none;
}

abbrev first : Finding
first = ("f1", row ReviewPriority.medium 50)

abbrev second : Finding
second = ("f2", row ReviewPriority.high 90)

abbrev third : Finding
third = ("f3", row ReviewPriority.high 80)

abbrev review : ReviewStatus → String × ReviewItem
review status = (
  "v",
  record { finding_id = "f3"; status = status; assigned_to = none; note = none; created_at = 0 },
)

abbrev rows : Rows
rows = record {
  scans = ("s1", scan 1) ∷ ("s2", scan 2) ∷ [];
  findings = first ∷ second ∷ third ∷ [];
  reviews = review ReviewStatus.open_status ∷ review ReviewStatus.open_status ∷ [];
}

abbrev high_only : Filters
high_only = record {
  priority = some " high";
  algorithm = none;
  role = some "digital-signature";
  confidence = none;
  review_status = none;
}

list_findings_page-pages_example :
    (pages_of (λ n. list_findings_page has_text rows "s1" high_only n 1) 2
      ≡ answered (second ∷ third ∷ []))
    × (Perm (second ∷ third ∷ []) (second ∷ third ∷ [])
        × ((total_of (list_findings_page has_text rows "s1" high_only 7 1) ≡ 2)
            × (length (rows_of (list_findings_page has_text rows "s1" high_only 7 1)) ≤ 200)))
unfolding program
list_findings_page-pages_example =
    list_findings_page-pages has_text rows "s1" high_only 1 (second ∷ third ∷ []) 2 7 refl
      (omega arith)

unknown_scan : list_findings rows "s3" ≡ raised not_found
unfolding program
unknown_scan = refl

invalid_priority :
    list_findings_page has_text rows "s1" (record high_only { priority = some "urgent" }) 1 50
    ≡ raised validation_error
unfolding program
invalid_priority = refl

-- A finding with two open reviews is listed, and counted, twice.
listed_twice :
    list_findings_page has_text rows "s1" (record high_only { review_status = some "open" }) 0 500
    ≡ answered (third ∷ third ∷ [], 2)
unfolding program
listed_twice = refl

newest_scan : latest_scan_by_repository rows ≡ ("r1", ("s2", scan 2)) ∷ []
unfolding program
newest_scan = refl

queue : length (list_review_queue rows) ≡ 2
unfolding program
queue = refl

severities : severity_by_scan rows ("s1" ∷ []) ≡ ("s1", ("MEDIUM", 1) ∷ ("HIGH", 2) ∷ []) ∷ []
unfolding program
severities = refl
