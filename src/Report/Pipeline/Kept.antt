-- ===== src/Report/Pipeline/Kept.antt =====
-- What the pipeline keeps of each match (cryptiq/app/engine/pipeline.py).
use cryptiq.Shared.{
  ◌≤◌, String, true, Option, none, some, List, [], ◌∷◌, ◌≡◌, refl, inl, inr, Option-cases, sym, ap,
  subst, ◌∙◌,
}
use cryptiq.Shared.Each.{Each, Each-sort_by}
use cryptiq.Engine.Parsed.{ParsedFile}
use cryptiq.Engine.Match.{RuleMatch}
use cryptiq.Engine.Rules.Runner.{CryptoRule, evaluate_files}
use cryptiq.Triage.Role.{classify}
use cryptiq.Triage.Candidates.{is_candidate, classify-candidate, candidate-high}
use cryptiq.Triage.Priority.{ReviewPriority, confidence_points}
use cryptiq.Triage.Pqc.{map_review_path}
use cryptiq.Triage.Impact.{ImpactResult, analyze}
use cryptiq.Triage.Priority.{score}
use cryptiq.Report.Evidence.{Evidence, extract}
use cryptiq.Report.Fingerprint.{finding_fingerprint}
use cryptiq.Report.Pipeline.{
  AnalyzedFinding, Snapshot, assembled, build, build_all, prepend, analyze_snapshot, modules_of,
  compare_findings, module_of, labels_of, sorted_findings,
}

-- A finding says of its match what the stages say: it has the evidence that the file holds, it is a
-- migration candidate exactly if its operation, its primitive and its algorithm make it one, and
-- a candidate of at least medium confidence is in the HIGH band.
unfoldable pub IsFaithful : Snapshot → AnalyzedFinding → Type 0
IsFaithful snapshot finding =
    (extract snapshot.read_lines finding.found snapshot.commit_sha snapshot.parser_version
        snapshot.ruleset_version
      ≡ some finding.evidence)
    × ((finding.pqc.is_migration_candidate ≡ is_candidate finding.found)
        × (is_candidate finding.found ≡ true
            → 15 ≤ confidence_points finding.found.confidence
            → finding.priority.level ≡ ReviewPriority.high))

abbrev finding_of : Snapshot → RuleMatch → Evidence → ImpactResult → String → AnalyzedFinding
finding_of snapshot found evidence impact print =
    let role = classify found in
    record {
      found = found;
      evidence = evidence;
      role = role;
      pqc = map_review_path found.algorithm role.role;
      impact = impact;
      priority = score found (some impact) (some role.role);
      fingerprint = print;
    }

some-injective {ℓ} : {A : Type ℓ} {x y : A} → some x ≡ some y → x ≡ y
some-injective {A} {x} e = ap (λ o. elim o [ none ↦ x | some a ↦ a ]) e

none≢some {ℓ} : {A : Type ℓ} {x : A} → none ≡ some x → ⊥
none≢some e = cc

abbrev evidence_for : Snapshot → RuleMatch → Option Evidence
evidence_for snapshot found =
    extract snapshot.read_lines found snapshot.commit_sha snapshot.parser_version
      snapshot.ruleset_version

module _ (snapshot : Snapshot) (modules : List (String × Option String)) where
  finding_of-IsFaithful :
      (found : RuleMatch) (evidence : Evidence) (impact : ImpactResult) (print : String)
      → evidence_for snapshot found ≡ some evidence
      → IsFaithful snapshot (finding_of snapshot found evidence impact print)
  unfolding IsFaithful
  finding_of-IsFaithful found evidence impact print e = (
    e,
    (
      classify-candidate found,
      λ candidate confident.
          candidate-high found (some impact) (classify found).role
            (classify-candidate found ∙ candidate) confident,
    ),
  )

  assembled-IsFaithful :
      (found : RuleMatch) (evidence : Evidence) (finding : AnalyzedFinding)
      → evidence_for snapshot found ≡ some evidence
      → assembled snapshot modules found evidence ≡ some finding
      → IsFaithful snapshot finding
  unfolding assembled
  assembled-IsFaithful found evidence finding e h =
      elim (Option-cases (analyze found (module_of modules found.file_path))) [
        | inl i ↦ absurd (none≢some (sym (rw (i, assembled) refl) ∙ h))
        | inr (impact, i) ↦
            elim (Option-cases (finding_fingerprint snapshot.digest (labels_of snapshot found))) [
              | inl p ↦ absurd (none≢some (sym (rw (i, assembled) (rw p refl)) ∙ h))
              | inr (print, p) ↦
                  let made : assembled snapshot modules found evidence
                      ≡ some (finding_of snapshot found evidence impact print) =
                    rw (i, assembled) (rw p refl) in
                  subst (IsFaithful snapshot) (some-injective (sym made ∙ h))
                    (finding_of-IsFaithful found evidence impact print e)
            ]
      ]

  build-IsFaithful :
      (found : RuleMatch) (finding : AnalyzedFinding)
      → build snapshot modules found ≡ some (some finding)
      → IsFaithful snapshot finding
  unfolding build
  build-IsFaithful found finding h = elim (Option-cases (evidence_for snapshot found)) [
    | inl e ↦ absurd (none≢some (some-injective (sym (rw (e, build) refl) ∙ h)))
    | inr (evidence, e) ↦ elim (Option-cases (assembled snapshot modules found evidence)) [
      | inl a ↦ absurd (none≢some (sym (rw (e, build) (rw a refl)) ∙ h))
      | inr (made, a) ↦
          let built : build snapshot modules found ≡ some (some made) = rw (e, build) (rw a refl) in
          assembled-IsFaithful found evidence finding e (a ∙ some-injective (sym built ∙ h))
    ]
  ]

  nothing : Each {A = AnalyzedFinding} [] (IsFaithful snapshot)
  unfolding Each
  nothing = tt

  prepend-Each :
      (found : RuleMatch) (built : Option AnalyzedFinding) (findings : List AnalyzedFinding)
      → build snapshot modules found ≡ some built
      → Each findings (IsFaithful snapshot)
      → Each (prepend built findings) (IsFaithful snapshot)
  unfolding Each
  prepend-Each found none findings b h = h
  prepend-Each found (some finding) findings b h = (build-IsFaithful found finding b, h)

  build_all-Each :
      (matches : List RuleMatch) (findings : List AnalyzedFinding)
      → build_all snapshot modules matches ≡ some findings
      → Each findings (IsFaithful snapshot)
  unfolding build_all
  build_all-Each [] findings h =
      subst (λ fs. Each fs (IsFaithful snapshot)) (some-injective h) nothing
  build_all-Each (found ∷ matches) findings h = elim (Option-cases (build snapshot modules found)) [
    | inl b ↦ absurd (none≢some (sym (rw (b, build_all) refl) ∙ h))
    | inr (built, b) ↦ elim (Option-cases (build_all snapshot modules matches)) [
      | inl r ↦ absurd (none≢some (sym (rw (b, build_all) (rw r refl)) ∙ h))
      | inr (rest, r) ↦
          let made : build_all snapshot modules (found ∷ matches) ≡ some (prepend built rest) =
            rw (b, build_all) (rw r refl) in
          subst (λ fs. Each fs (IsFaithful snapshot)) (some-injective (sym made ∙ h))
            (prepend-Each found built rest b (build_all-Each matches rest r))
    ]
  ]

-- Each finding of a snapshot has the source that the file holds, is a migration candidate exactly if
-- its operation, its primitive and its algorithm make it one, and is in the HIGH band if it is a candidate of at least
-- medium confidence.
pub analyze_snapshot-IsFaithful :
    (snapshot : Snapshot) (rules : List CryptoRule) (parsed : List ParsedFile)
    (findings : List AnalyzedFinding)
    → analyze_snapshot snapshot rules parsed ≡ some findings
    → Each findings (IsFaithful snapshot)
unfolding analyze_snapshot
analyze_snapshot-IsFaithful snapshot rules parsed findings h =
    let modules = modules_of parsed [] in
    let matches = evaluate_files snapshot.ruleset_version rules parsed in
    elim (Option-cases (build_all snapshot modules matches)) [
      | inl b ↦ absurd (none≢some (sym (rw (b, analyze_snapshot) refl) ∙ h))
      | inr (built, b) ↦
          let made : analyze_snapshot snapshot rules parsed ≡ some (sorted_findings built) =
            rw (b, analyze_snapshot) refl in
          subst (λ fs. Each fs (IsFaithful snapshot)) (some-injective (sym made ∙ h))
            (Each-sort_by compare_findings built (IsFaithful snapshot)
              (build_all-Each snapshot modules matches built b))
    ]
