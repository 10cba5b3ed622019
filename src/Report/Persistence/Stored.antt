-- ===== src/Report/Persistence/Stored.antt =====
-- One row for each fingerprint (cryptiq/app/services/persistence.py).
use cryptiq.Shared.{
  String, Bool, true, false, List, [], ◌∷◌, ◌==◌, ◌≡◌, ◌⊎◌, refl, string_eq, if◌then◌else◌,
  contains, Bool-cases, inl, inr, arith, beq_refl,
}
use cryptiq.Shared.Each.{Has}
use cryptiq.Report.Pipeline.{AnalyzedFinding}
use cryptiq.Report.Persistence.{FindingRow, finding_row, persist_from, persist_analysis}

-- A row has the fingerprint.
unfoldable pub has_row : String → List FindingRow → Bool
has_row fingerprint [] = false
has_row fingerprint (row ∷ rows) =
    if row.finding.fingerprint == fingerprint then true else has_row fingerprint rows

-- No two rows have one fingerprint.
unfoldable pub AreUnique : List FindingRow → Type 0
AreUnique [] = Unit
AreUnique (row ∷ rows) = (has_row row.finding.fingerprint rows ≡ false) × AreUnique rows

has_row-persist :
    (scan_id fingerprint : String) (seen : List String) (findings : List AnalyzedFinding)
    → contains seen fingerprint ≡ true
    → has_row fingerprint (persist_from scan_id seen findings) ≡ false
unfolding has_row persist_from finding_row contains
has_row-persist scan_id fingerprint seen [] h = refl
has_row-persist scan_id fingerprint seen (finding ∷ findings) h = ground (
  arith,
  string_eq.beq_iff finding.fingerprint fingerprint,
  has_row-persist scan_id fingerprint seen findings h,
  has_row-persist scan_id fingerprint (finding.fingerprint ∷ seen) findings,
)

first_unique :
    (scan_id : String) (finding : AnalyzedFinding) (seen : List String)
    (findings : List AnalyzedFinding)
    → has_row
        (finding_row finding scan_id).finding.fingerprint
        (persist_from scan_id (finding.fingerprint ∷ seen) findings)
      ≡ false
unfolding finding_row contains
first_unique scan_id finding seen findings =
    has_row-persist scan_id finding.fingerprint (finding.fingerprint ∷ seen) findings
      (rw (beq_refl {A = String} finding.fingerprint) refl)

persist-AreUnique :
    (scan_id : String) (seen : List String) (findings : List AnalyzedFinding)
    → AreUnique (persist_from scan_id seen findings)
unfolding AreUnique persist_from
persist-AreUnique scan_id seen [] = tt
persist-AreUnique scan_id seen (finding ∷ findings) =
    elim (Bool-cases (contains seen finding.fingerprint)) [
      | inl e ↦ rw e (persist-AreUnique scan_id seen findings)
      | inr e ↦ rw e (
        first_unique scan_id finding seen findings,
        persist-AreUnique scan_id (finding.fingerprint ∷ seen) findings,
      )
    ]

has_row-stored :
    (scan_id fingerprint : String) (seen : List String) (findings : List AnalyzedFinding)
    → Has findings (λ finding. finding.fingerprint ≡ fingerprint)
    → (contains seen fingerprint ≡ true)
      ⊎ (has_row fingerprint (persist_from scan_id seen findings) ≡ true)
unfolding Has has_row persist_from finding_row contains
has_row-stored scan_id fingerprint seen [] h = absurd h
has_row-stored scan_id fingerprint seen (finding ∷ findings) (inl e) =
    ground (arith, string_eq.beq_iff finding.fingerprint fingerprint)
has_row-stored scan_id fingerprint seen (finding ∷ findings) (inr h) = ground (
  arith,
  string_eq.beq_iff finding.fingerprint fingerprint,
  has_row-stored scan_id fingerprint seen findings h,
  has_row-stored scan_id fingerprint (finding.fingerprint ∷ seen) findings h,
)

-- A scan has one row for each fingerprint of its findings: no two rows share one, and none is left out.
pub persist_analysis-AreUnique :
    (scan_id : String) (findings : List AnalyzedFinding)
    → AreUnique (persist_analysis scan_id findings)
      × ((fingerprint : String)
          → Has findings (λ finding. finding.fingerprint ≡ fingerprint)
          → has_row fingerprint (persist_analysis scan_id findings) ≡ true)
unfolding persist_analysis contains
persist_analysis-AreUnique scan_id findings = (
  persist-AreUnique scan_id [] findings,
  λ fingerprint h. unseen fingerprint (has_row-stored scan_id fingerprint [] findings h),
)
  where
    unseen :
        (fingerprint : String)
        → (contains {A = String} [] fingerprint ≡ true)
          ⊎ (has_row fingerprint (persist_from scan_id [] findings) ≡ true)
        → has_row fingerprint (persist_from scan_id [] findings) ≡ true
    unseen fingerprint (inl e) = cc
    unseen fingerprint (inr e) = e
