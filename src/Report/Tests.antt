-- ===== src/Report/Tests.antt =====
-- Evidence, fingerprints, rows and diffs at concrete inputs.
mod Listings
use mathlib.Core.List.{Perm}
use cryptiq.Shared.{
  String, true, false, not, ◌&&◌, ◌==◌, Option, none, some, List, [], ◌∷◌, ◌++◌, ◌≡◌, refl, inl,
  contains, string_eq,
}
use cryptiq.Shared.Dict.{length, put, lookup, set_default}
use cryptiq.Shared.Parts.{join, format, partition}
use cryptiq.Shared.Text.{has_char, strip, lstrip, rstrip, lower, upper, strip_prefix}
use cryptiq.Shared.Sort.{sort_by, insert_by}
use cryptiq.Shared.Each.{Each, Has}
use cryptiq.Engine.Match.{RuleMatch, CryptoOperation, MatchConfidence, EvidenceBasis}
use cryptiq.Engine.Parsed.{ParsedFile, Call, resolve}
use cryptiq.Engine.Match.{KeyKind-discrete, CryptoOperation-discrete, operation_value}
use cryptiq.Engine.Resolution.{
  member, member_of_any, member_of, resolve_chain, get_named, class_kind,
}
use cryptiq.Engine.Rules.Tables.{rsa_rule}
use cryptiq.Engine.Rules.KeyPair.{
  evaluate_key_pair, imported_api, member_match, make_match, api_name,
}
use cryptiq.Engine.Rules.Runner.{
  CryptoRule, evaluate_files, gather, evaluate_file, matches_of_calls, matches_of_call, evaluate,
  compare_matches,
}
use cryptiq.Triage.Role.{classify, classify_key_generation, normal, CryptographicRole-discrete}
use cryptiq.Triage.Pqc.{map_review_path}
use cryptiq.Triage.Impact.{
  analyze, link, link_if, link_file, add_node, add_edge, node_id, type_value, node_count, to_result,
}
use cryptiq.Triage.Priority.{
  score, band, total_points, algorithm_points, scored_operation, is_long_lived, confidence_points,
  operation_points, scored_impact,
}
use cryptiq.Report.Evidence.{
  Evidence, take, drop, span, first_line, is_truncated, last_line, extract_from, extract,
}
use cryptiq.Report.Evidence.Span.{HasSpan, extract_from-span}
use cryptiq.Report.Fingerprint.{payload, any_separator, fingerprint, finding_fingerprint, labelled}
use cryptiq.Report.Fingerprint.Payload.{payload-injective}
use cryptiq.Report.Pipeline.{
  Snapshot, AnalyzedFinding, analyze_snapshot, build_all, modules_of, build, assembled, module_of,
  repository_key, compare_findings,
}
use cryptiq.Report.Pipeline.Kept.{IsFaithful, analyze_snapshot-IsFaithful}
use cryptiq.Report.Pipeline.Total.{IsClean, analyze_snapshot-total, analyze_snapshot-stopped}
use cryptiq.Report.Persistence.{persist_analysis, persist_from}
use cryptiq.Report.Persistence.Stored.{AreUnique, has_row, persist_analysis-AreUnique}
use cryptiq.Report.Diff.{
  CliFinding, key_of, has_key, dedupe, dedupe_from, ordered, compare_ordered, shared_with,
  missing_from, run_diff,
}
use cryptiq.Report.Diff.Compared.{IsPart, run_diff-parts}

program : Unit {0}
unfolding contains join format has_char sort_by insert_by take drop span first_line is_truncated
    last_line extract_from extract payload any_separator key_of has_key dedupe dedupe_from ordered
    compare_ordered shared_with missing_from run_diff
program = tt

abbrev pub signed : RuleMatch
signed = record {
  rule_id = "PY-CRYPTO-RSA";
  ruleset_version = "1";
  algorithm = "RSA";
  primitive = "RSA";
  library = "cryptography";
  api = "RSAPrivateKey.sign";
  operation = CryptoOperation.sign;
  file_path = "app.py";
  location = record { start_line = 2; end_line = 3; start_column = 0; end_column = 9 };
  confidence = MatchConfidence.medium;
  evidence_basis = EvidenceBasis.constructor_assignment;
  enclosing_function = none;
  enclosing_class = none;
}

abbrev source : List String
source = "key = load()" ∷ "key.sign(" ∷ ")" ∷ "" ∷ []

abbrev pub shown : Evidence
shown = record {
  repository_sha = "abc";
  file_path = "app.py";
  start_line = 2;
  end_line = 3;
  source_excerpt = "key.sign(\n)";
  rule_id = "PY-CRYPTO-RSA";
  parser_version = "1";
  ruleset_version = "1";
  truncated = false;
}

extract_from-span_example : HasSpan signed source shown
unfolding program
extract_from-span_example = extract_from-span signed "abc" "1" "1" source shown refl

abbrev two_parts : List String
two_parts = "a" ∷ "b" ∷ []

payload-injective_example : two_parts ≡ two_parts
unfolding program
payload-injective_example = payload-injective two_parts two_parts "a\u{1f}b" refl refl

abbrev finding : Option String → CliFinding
finding shown_print = record {
  fingerprint = shown_print;
  rank = 4;
  file_path = some "app.py";
  start_line = some 2;
}

-- One finding of the base is fixed, one is unchanged, and a line without a fingerprint is left out.
compared :
    (run_diff
      (finding (some "a") ∷ finding (some "b") ∷ [])
      (finding (some "b") ∷ finding none ∷ finding (some "c") ∷ finding (some "c") ∷ [])).new
    ≡ finding (some "c") ∷ []
unfolding program
compared = refl

abbrev print : String
print = "a"

run_diff-parts_example :
    let base = finding (some "a") ∷ finding (some "b") ∷ [] in
    let head = finding (some "b") ∷ [] in
    let result = run_diff base head in
    let given = not (print == "") in
    ((has_key print result.new ≡ (given && (has_key print head && not (has_key print base))))
      × ((has_key print result.unchanged ≡ (given && (has_key print head && has_key print base)))
          × (has_key print result.fixed
              ≡ (given && (has_key print base && not (has_key print head))))))
    × (IsPart head result.new × (IsPart head result.unchanged × IsPart base result.fixed))
run_diff-parts_example =
    run_diff-parts (finding (some "a") ∷ finding (some "b") ∷ []) (finding (some "b") ∷ []) print

-- A snapshot with no file.
abbrev snapshot : Snapshot
snapshot = record {
  provider = "github";
  slug = "ada/keys";
  commit_sha = "abc";
  read_lines = λ path. some source;
  digest = λ text. text;
  parser_version = "1";
  ruleset_version = "1";
}

-- A file that makes a key and signs with it.
abbrev call_of : List String → String → Call
call_of chain attribute = record {
  chain = some chain;
  attribute = some attribute;
  path = "app.py";
  location = record { start_line = 2; end_line = 3; start_column = 0; end_column = 9 };
  enclosing_function = none;
  enclosing_class = none;
  arguments = [];
}

abbrev file : ParsedFile
file = record {
  path = "app.py";
  module_path = some "app";
  import_index = ("rsa", "cryptography.hazmat.primitives.asymmetric.rsa") ∷ [];
  symbols = [];
  calls =
      call_of ("rsa" ∷ "RSAPrivateKey" ∷ "sign" ∷ []) "sign"
      ∷ call_of ("rsa" ∷ "RSAPrivateKey" ∷ "sign" ∷ []) "sign"
      ∷ [];
  names = [];
  assignments = [];
  annotations = [];
  parsed = true;
}

abbrev analysed : Option (List AnalyzedFinding)
analysed = analyze_snapshot snapshot (CryptoRule.key_pair rsa_rule ∷ []) (file ∷ [])

abbrev findings : List AnalyzedFinding
findings = elim analysed [ none ↦ [] | some found ↦ found ]

stages : Unit {0}
unfolding program analyze_snapshot build_all build assembled modules_of module_of repository_key
    compare_findings evaluate_files gather evaluate_file matches_of_calls matches_of_call evaluate
    compare_matches operation_value evaluate_key_pair imported_api member_match make_match api_name
    partition member member_of_any member_of resolve_chain resolve get_named class_kind strip_prefix
    classify classify_key_generation normal strip lstrip rstrip upper lower map_review_path analyze
    link link_if link_file add_node add_edge node_id type_value set_default lookup put score band
    total_points algorithm_points scored_operation is_long_lived confidence_points operation_points
    scored_impact node_count to_result finding_fingerprint fingerprint labelled KeyKind-discrete
    CryptoOperation-discrete CryptographicRole-discrete
stages = tt

-- The two calls have one fingerprint.
two_found : length findings ≡ 2
unfolding stages
two_found = refl

one_stored : length (persist_analysis "s1" findings) ≡ 1
unfolding stages persist_analysis persist_from
one_stored = refl

analyze_snapshot-IsFaithful_example : Each findings (IsFaithful snapshot)
unfolding stages
analyze_snapshot-IsFaithful_example =
    analyze_snapshot-IsFaithful snapshot (CryptoRule.key_pair rsa_rule ∷ []) (file ∷ []) findings
      refl

persist_analysis-AreUnique_example :
    AreUnique (persist_analysis "s1" findings)
    × ((fingerprint : String)
        → Has findings (λ finding. finding.fingerprint ≡ fingerprint)
        → has_row fingerprint (persist_analysis "s1" findings) ≡ true)
persist_analysis-AreUnique_example = persist_analysis-AreUnique "s1" findings

analyze_snapshot-total_example :
    (found : List AnalyzedFinding) × (analyze_snapshot snapshot
        (CryptoRule.key_pair rsa_rule ∷ [])
        (file ∷ [])
      ≡ some found)
unfolding stages IsClean any_separator has_char Each
analyze_snapshot-total_example =
    analyze_snapshot-total snapshot (CryptoRule.key_pair rsa_rule ∷ []) (file ∷ [])
      (refl, (refl, tt))

-- The same snapshot of a repository with the separator in its name.
abbrev odd : Snapshot
odd = record snapshot { slug = "ada\u{1f}/keys" }

abbrev seen : RuleMatch
seen =
    make_match "1" rsa_rule (call_of ("rsa" ∷ "RSAPrivateKey" ∷ "sign" ∷ []) "sign")
      "RSAPrivateKey.sign" CryptoOperation.sign MatchConfidence.high EvidenceBasis.class_import

analyze_snapshot-stopped_example :
    analyze_snapshot odd (CryptoRule.key_pair rsa_rule ∷ []) (file ∷ []) ≡ none
unfolding stages any_separator has_char Has
analyze_snapshot-stopped_example =
    analyze_snapshot-stopped odd (CryptoRule.key_pair rsa_rule ∷ []) (file ∷ []) seen shown
      (inl refl) refl refl
