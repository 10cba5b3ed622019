-- ===== src/Report/Persistence.antt =====
-- The rows of a finished analysis: cryptiq/app/services/persistence.py. A row is the finding that it
-- stores, with its review item; the columns that repeat the finding's fields are not listed again.
pub mod Stored
use cryptiq.Shared.{
  ℕ, suc, String, Bool, true, false, Option, none, some, List, [], ◌∷◌, ◌==◌, string_eq,
  if◌then◌else◌, contains,
}
use cryptiq.Engine.Match.{MatchConfidence}
use cryptiq.Reviews.{ReviewStatus}
use cryptiq.Report.Pipeline.{AnalyzedFinding}

-- The persisted confidence.
pub data Confidence : Type 0 where
  high_confidence medium_confidence low_confidence : Confidence

-- `_confidence`: what the vocabulary of the column does not have is LOW.
unfoldable pub confidence_of : MatchConfidence → Confidence
confidence_of MatchConfidence.high = high_confidence
confidence_of MatchConfidence.medium = medium_confidence
confidence_of MatchConfidence.low = low_confidence
confidence_of MatchConfidence.unknown = low_confidence

pub record FindingRow : Type 0 where
  pub scan_id : String
  pub finding : AnalyzedFinding
  pub confidence : Confidence
  pub review_items : List ReviewStatus

-- `_finding_row`
unfoldable pub finding_row : AnalyzedFinding → String → FindingRow
finding_row finding scan_id = record {
  scan_id = scan_id;
  finding = finding;
  confidence = confidence_of finding.found.confidence;
  review_items = if finding.pqc.is_migration_candidate then ReviewStatus.open_status ∷ [] else [];
}

-- The loop of `persist_analysis`: the rows that it adds, from the fingerprints that it has seen.
unfoldable pub persist_from : String → List String → List AnalyzedFinding → List FindingRow
persist_from scan_id seen [] = []
persist_from scan_id seen (finding ∷ findings) =
    let folded = persist_from scan_id seen findings in
    let added = persist_from scan_id (finding.fingerprint ∷ seen) findings in
    if contains seen finding.fingerprint then folded else finding_row finding scan_id ∷ added

-- `persist_analysis`
unfoldable pub persist_analysis : String → List AnalyzedFinding → List FindingRow
persist_analysis scan_id findings = persist_from scan_id [] findings
