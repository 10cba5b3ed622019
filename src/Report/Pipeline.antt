-- ===== src/Report/Pipeline.antt =====
-- The whole analysis of a snapshot: cryptiq/app/engine/pipeline.py. The parsed files, the reading of
-- the files, the hash and the versions are arguments.
pub mod Kept
pub mod Total
use cryptiq.Shared.{ℕ, String, Bool, Option, none, some, List, [], ◌∷◌, string_eq, ◌>>=◌}
use cryptiq.Shared.Dict.{lookup, put}
use cryptiq.Shared.Parts.{format}
use cryptiq.Shared.Sort.{sort_by, Ordering}
use cryptiq.Engine.Parsed.{ParsedFile}
use cryptiq.Engine.Match.{RuleMatch, operation_value}
use cryptiq.Engine.Rules.Runner.{CryptoRule, evaluate_files, compare_matches}
use cryptiq.Triage.Role.{RoleAssessment, classify}
use cryptiq.Triage.Pqc.{PqcAssessment, map_review_path}
use cryptiq.Triage.Impact.{ImpactResult, analyze}
use cryptiq.Triage.Priority.{PriorityResult, score}
use cryptiq.Report.Evidence.{Evidence, extract}
use cryptiq.Report.Fingerprint.{Labels, finding_fingerprint}

pub record AnalyzedFinding : Type 0 where
  pub found : RuleMatch
  pub evidence : Evidence
  pub role : RoleAssessment
  pub pqc : PqcAssessment
  pub impact : ImpactResult
  pub priority : PriorityResult
  pub fingerprint : String

-- What the stages read besides the match.
pub record Snapshot : Type 0 where
  pub provider : String
  pub slug : String
  pub commit_sha : String
  pub read_lines : String → Option (List String)
  pub digest : String → String
  pub parser_version : String
  pub ruleset_version : String

-- `{file.path: file.module_path for file in parsed}`
unfoldable pub modules_of :
    List ParsedFile → List (String × Option String) → List (String × Option String)
modules_of [] modules = modules
modules_of (file ∷ files) modules = modules_of files (put file.path file.module_path modules)

-- `modules.get(path)`
unfoldable pub module_of : List (String × Option String) → String → Option String
module_of modules path = elim (lookup path modules) [ none ↦ none | some module_path ↦ module_path ]

-- `_repository_key`
unfoldable pub repository_key : Snapshot → String
repository_key snapshot = format (snapshot.provider ∷ "/" ∷ snapshot.slug ∷ [])

abbrev pub labels_of : Snapshot → RuleMatch → Labels
labels_of snapshot found = record {
  repository = repository_key snapshot;
  file_path = found.file_path;
  rule_id = found.rule_id;
  algorithm = found.algorithm;
  api = found.api;
  operation = operation_value found.operation;
  enclosing_function = found.enclosing_function;
  enclosing_class = found.enclosing_class;
}

-- The finding of a match whose evidence is there; `none` where the graph or the fingerprint raise.
unfoldable pub assembled :
    Snapshot → List (String × Option String) → RuleMatch → Evidence → Option AnalyzedFinding
assembled snapshot modules found evidence =
    let role = classify found in
    do
      impact ← analyze found (module_of modules found.file_path)
      fingerprint ← finding_fingerprint snapshot.digest (labels_of snapshot found)
      some (record {
        found = found;
        evidence = evidence;
        role = role;
        pqc = map_review_path found.algorithm role.role;
        impact = impact;
        priority = score found (some impact) (some role.role);
        fingerprint = fingerprint;
      })

-- `_build`: a match without evidence is dropped, the first result `none`; an error is the second.
unfoldable pub build :
    Snapshot → List (String × Option String) → RuleMatch → Option (Option AnalyzedFinding)
build snapshot modules found =
    elim (extract snapshot.read_lines found snapshot.commit_sha snapshot.parser_version
      snapshot.ruleset_version) [
        | none ↦ some none
        | some evidence ↦ elim (assembled snapshot modules found evidence) [
          | none ↦ none
          | some finding ↦ some (some finding)
        ]
      ]

abbrev pub prepend : Option AnalyzedFinding → List AnalyzedFinding → List AnalyzedFinding
prepend none findings = findings
prepend (some finding) findings = finding ∷ findings

-- The comprehension of `analyze_snapshot`.
unfoldable pub build_all :
    Snapshot → List (String × Option String) → List RuleMatch → Option (List AnalyzedFinding)
build_all snapshot modules [] = some []
build_all snapshot modules (found ∷ matches) = do
  built ← build snapshot modules found
  findings ← build_all snapshot modules matches
  some (prepend built findings)

unfoldable pub compare_findings : AnalyzedFinding → AnalyzedFinding → Ordering
compare_findings a b = compare_matches a.found b.found

abbrev pub sorted_findings : List AnalyzedFinding → List AnalyzedFinding
sorted_findings findings = sort_by compare_findings findings

-- The findings of `analyze_snapshot`.
unfoldable pub analyze_snapshot :
    Snapshot → List CryptoRule → List ParsedFile → Option (List AnalyzedFinding)
analyze_snapshot snapshot rules parsed = do
  findings ←
      build_all snapshot (modules_of parsed [])
        (evaluate_files snapshot.ruleset_version rules parsed)
  some (sorted_findings findings)
