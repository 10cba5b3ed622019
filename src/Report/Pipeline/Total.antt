-- ===== src/Report/Pipeline/Total.antt =====
-- When the analysis of a snapshot has a result (cryptiq/app/engine/pipeline.py).
use cryptiq.Shared.{
  String, true, false, Option, none, some, List, [], ◌∷◌, ◌≡◌, refl, inl, inr, Option-cases, subst,
  sym,
}
use cryptiq.Shared.Each.{Each, Has}
use cryptiq.Engine.Parsed.{ParsedFile}
use cryptiq.Engine.Match.{RuleMatch}
use cryptiq.Engine.Rules.Runner.{CryptoRule, evaluate_files}
use cryptiq.Triage.Impact.Closed.{analyze-IsBounded}
use cryptiq.Report.Evidence.{Evidence, extract}
use cryptiq.Report.Fingerprint.{
  any_separator, payload, fingerprint, labelled, Labels, finding_fingerprint,
}
use cryptiq.Report.Pipeline.{
  AnalyzedFinding, Snapshot, labels_of, module_of, assembled, build, build_all, analyze_snapshot,
  modules_of,
}

-- No part of the identity of the match has the separator in it.
unfoldable pub IsClean : Snapshot → RuleMatch → Type 0
IsClean snapshot found = any_separator (labelled (labels_of snapshot found)) ≡ false

unfoldable IsSome : {A : Type 0} → Option A → Type 0
IsSome {A} outcome = (result : A) × (outcome ≡ some result)

fingerprint-IsSome :
    (digest : String → String) (part : String) (parts : List String)
    → any_separator (part ∷ parts) ≡ false
    → IsSome (fingerprint digest (part ∷ parts))
unfolding IsSome fingerprint payload
fingerprint-IsSome digest part parts h = rw (h, fingerprint, payload) (_, refl)

fingerprint-none :
    (digest : String → String) (part : String) (parts : List String)
    → any_separator (part ∷ parts) ≡ true
    → fingerprint digest (part ∷ parts) ≡ none
unfolding fingerprint payload
fingerprint-none digest part parts h = rw (h, fingerprint, payload) refl

finding_fingerprint-IsSome :
    (digest : String → String) (l : Labels)
    → any_separator (labelled l) ≡ false
    → IsSome (finding_fingerprint digest l)
unfolding finding_fingerprint labelled
finding_fingerprint-IsSome digest l h = fingerprint-IsSome digest _ _ h

finding_fingerprint-none :
    (digest : String → String) (l : Labels)
    → any_separator (labelled l) ≡ true
    → finding_fingerprint digest l ≡ none
unfolding finding_fingerprint labelled
finding_fingerprint-none digest l h = fingerprint-none digest _ _ h

module _ (snapshot : Snapshot) (modules : List (String × Option String)) where
  assembled-IsSome :
      (found : RuleMatch) (evidence : Evidence)
      → IsClean snapshot found
      → IsSome (assembled snapshot modules found evidence)
  unfolding IsSome assembled IsClean
  assembled-IsSome found evidence h =
      let impact = analyze-IsBounded found (module_of modules found.file_path) in
      let print = finding_fingerprint-IsSome snapshot.digest (labels_of snapshot found) h in
      rw (impact.1.0, assembled) (rw print.1 (_, refl))

  build-IsSome :
      (found : RuleMatch) → IsClean snapshot found → IsSome (build snapshot modules found)
  unfolding IsSome build
  build-IsSome found h =
      elim (Option-cases (
        extract snapshot.read_lines found snapshot.commit_sha snapshot.parser_version
          snapshot.ruleset_version)) [
            | inl e ↦ rw (e, build) (_, refl)
            | inr (evidence, e) ↦ rw (e, build) (rw (assembled-IsSome found evidence h).1 (_, refl))
          ]

  build_all-IsSome :
      (matches : List RuleMatch)
      → Each matches (IsClean snapshot)
      → IsSome (build_all snapshot modules matches)
  unfolding IsSome build_all Each
  build_all-IsSome [] h = ([], refl)
  build_all-IsSome (found ∷ matches) (h, k) =
      rw ((build-IsSome found h).1, build_all) (rw (build_all-IsSome matches k).1 (_, refl))

-- The analysis of a snapshot has a result if no file path or other part of the identity of one of its
-- matches has the unit separator in it.
pub analyze_snapshot-total :
    (snapshot : Snapshot) (rules : List CryptoRule) (parsed : List ParsedFile)
    → Each (evaluate_files snapshot.ruleset_version rules parsed) (IsClean snapshot)
    → (findings : List AnalyzedFinding) × (analyze_snapshot snapshot rules parsed ≡ some findings)
unfolding analyze_snapshot IsSome
analyze_snapshot-total snapshot rules parsed h =
    rw
      (
        (build_all-IsSome snapshot (modules_of parsed [])
            (evaluate_files snapshot.ruleset_version rules parsed) h).1,
        analyze_snapshot,
      )
      (_, refl)

module _ (snapshot : Snapshot) (modules : List (String × Option String)) (found : RuleMatch)
    (evidence : Evidence) where
  build-stopped :
      extract snapshot.read_lines found snapshot.commit_sha snapshot.parser_version
          snapshot.ruleset_version
        ≡ some evidence
      → any_separator (labelled (labels_of snapshot found)) ≡ true
      → build snapshot modules found ≡ none
  unfolding build assembled
  build-stopped e s =
      let impact = analyze-IsBounded found (module_of modules found.file_path) in
      rw (e, build)
        (rw (impact.1.0, assembled)
          (rw (finding_fingerprint-none snapshot.digest (labels_of snapshot found) s) refl))

  build_all-stopped :
      (matches : List RuleMatch)
      → Has matches (λ m. m ≡ found)
      → build snapshot modules found ≡ none
      → build_all snapshot modules matches ≡ none
  unfolding build_all Has
  build_all-stopped [] h b = absurd h
  build_all-stopped (other ∷ matches) (inl e) b =
      subst (λ m. build_all snapshot modules (m ∷ matches) ≡ none) (sym e) (rw (b, build_all) refl)
  build_all-stopped (other ∷ matches) (inr h) b =
      elim (Option-cases (build snapshot modules other)) [
        | inl e ↦ rw (e, build_all) refl
        | inr (built, e) ↦ rw (e, build_all) (rw (build_all-stopped matches h b) refl)
      ]

-- One match whose identity has the unit separator in a part, such as its file's path, and whose source
-- can be read, takes the whole analysis down: no finding of the snapshot is reported.
pub analyze_snapshot-stopped :
    (snapshot : Snapshot) (rules : List CryptoRule) (parsed : List ParsedFile) (found : RuleMatch)
    (evidence : Evidence)
    → Has (evaluate_files snapshot.ruleset_version rules parsed) (λ m. m ≡ found)
    → extract snapshot.read_lines found snapshot.commit_sha snapshot.parser_version
        snapshot.ruleset_version
      ≡ some evidence
    → any_separator (labelled (labels_of snapshot found)) ≡ true
    → analyze_snapshot snapshot rules parsed ≡ none
unfolding analyze_snapshot
analyze_snapshot-stopped snapshot rules parsed found evidence h e s =
    rw
      (
        build_all-stopped snapshot (modules_of parsed []) found evidence
            (evaluate_files snapshot.ruleset_version rules parsed) h
            (build-stopped snapshot (modules_of parsed []) found evidence e s),
        analyze_snapshot,
      )
      refl
