-- ===== src/Triage/Tests.antt =====
-- The stages at concrete matches, and their theorems at these.
use cryptiq.Shared.{ℕ, ◌≤◌, none, some, ◌≡◌, refl, contains}
use cryptiq.Shared.Text.{strip, upper}
use cryptiq.Shared.Dict.{lookup, set_default}
use cryptiq.Shared.Parts.{format}
use cryptiq.Engine.Match.{
  RuleMatch, MatchConfidence, CryptoOperation, EvidenceBasis, CryptoOperation-discrete,
}
use cryptiq.Triage.Role.{
  CryptographicRole, CryptographicRole-discrete, classify, classify_key_generation, normal,
}
use cryptiq.Triage.Pqc.{map_review_path}
use cryptiq.Triage.Impact.{
  ImpactResult, analyze, link, link_if, link_file, add_node, add_edge, to_result, node_count,
  node_id, type_value,
}
use cryptiq.Triage.Impact.Closed.{IsBounded, analyze-IsBounded}
use cryptiq.Triage.Priority.{
  score, band, total_points, algorithm_points, scored_operation, is_long_lived, confidence_points,
  operation_points, scored_impact,
}
use cryptiq.Triage.Priority.Bounds.{score-band}
use cryptiq.Triage.Candidates.{classify-candidate, is_candidate}

program : Unit {0}
unfolding contains CryptoOperation-discrete CryptographicRole-discrete normal strip upper classify
    classify_key_generation map_review_path score band total_points algorithm_points node_id format
    type_value scored_operation is_long_lived confidence_points operation_points scored_impact
    is_candidate analyze link link_if link_file add_node add_edge to_result node_count lookup
    set_default
program = tt

-- The key transport `key.encrypt(...)`.
abbrev transport : RuleMatch
transport = record {
  rule_id = "python.cryptography.rsa";
  ruleset_version = "1";
  algorithm = "RSA";
  primitive = "PUBLIC_KEY";
  library = "cryptography";
  api = "RSAPublicKey.encrypt";
  operation = CryptoOperation.encrypt;
  file_path = "app/keys.py";
  location = record { start_line = 4; end_line = 4; start_column = 0; end_column = 20 };
  confidence = MatchConfidence.medium;
  evidence_basis = EvidenceBasis.constructor_assignment;
  enclosing_function = some "wrap";
  enclosing_class = none;
}

transport-KeyEstablishment : (classify transport).role ≡ CryptographicRole.key_establishment
unfolding program
transport-KeyEstablishment = refl

transport_score : (score transport none none).score ≡ 80
unfolding program
transport_score = refl

-- The graph has no class and no module.
transport_impact :
    ◌≡◌ {A = ℕ} (elim (analyze transport none) [ none ↦ 0 | some result ↦ node_count result ]) 4
unfolding program
transport_impact = refl

classify-candidate_example :
    (map_review_path transport.algorithm (classify transport).role).is_migration_candidate
    ≡ is_candidate transport
classify-candidate_example = classify-candidate transport

score-band_example :
    let result = score transport none (some CryptographicRole.unknown) in
    (result.score ≤ 110) × (result.level ≡ band result.score)
score-band_example = score-band transport none (some CryptographicRole.unknown)

analyze-IsBounded_example :
    (result : ImpactResult) × ((analyze transport (some "app.keys") ≡ some result)
      × IsBounded result)
analyze-IsBounded_example = analyze-IsBounded transport (some "app.keys")
