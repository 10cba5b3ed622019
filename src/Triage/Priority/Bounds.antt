-- ===== src/Triage/Priority/Bounds.antt =====
-- The scores of cryptiq/app/engine/priority/scorer.py and their bands.
use cryptiq.Shared.{◌≤◌, Option, none, some, ◌≡◌, arith, if◌then◌else◌, string_eq, String}
use cryptiq.Engine.Match.{RuleMatch, MatchConfidence, CryptoOperation}
use cryptiq.Triage.Role.{CryptographicRole, normal}
use cryptiq.Triage.Impact.{ImpactResult}
use cryptiq.Triage.Priority.{
  score, total_points, band, algorithm_points, scored_operation, is_long_lived, confidence_points,
  operation_points, scored_impact, key_operation_points,
}

pub confidence_points_le : (c : MatchConfidence) → confidence_points c ≤ 30
unfolding confidence_points
confidence_points_le MatchConfidence.high = omega arith
confidence_points_le MatchConfidence.medium = omega arith
confidence_points_le MatchConfidence.low = omega arith
confidence_points_le MatchConfidence.unknown = omega arith

pub operation_points_le : (o : CryptoOperation) → operation_points o ≤ 30
unfolding operation_points
operation_points_le CryptoOperation.sign = omega arith
operation_points_le CryptoOperation.verify = omega arith
operation_points_le CryptoOperation.key_generation = omega arith
operation_points_le CryptoOperation.key_establishment = omega arith
operation_points_le CryptoOperation.encrypt = omega arith
operation_points_le CryptoOperation.decrypt = omega arith
operation_points_le CryptoOperation.construction = omega arith
operation_points_le CryptoOperation.hash = omega arith

algorithm_points_le : (name : String) → (algorithm_points name).0 ≤ 40
unfolding algorithm_points
algorithm_points_le name = ground arith

pub scored_operation-role :
    (o : CryptoOperation) (role : Option CryptographicRole)
    → (scored_operation o role).0
      ≡ (if is_long_lived role then key_operation_points else operation_points o)
unfolding scored_operation
scored_operation-role o role = ground (arith, operation_points_le o)

scored_impact_le : (impact : Option ImpactResult) → (scored_impact impact).0 ≤ 10
unfolding scored_impact
scored_impact_le none = omega arith
scored_impact_le (some impact) = ground arith

-- A priority has a score of at most 110, and its level is the band of its score, post-quantum
-- algorithms included.
pub score-band :
    (found : RuleMatch) (impact : Option ImpactResult) (role : Option CryptographicRole)
    → let result = score found impact role in
      (result.score ≤ 110) × (result.level ≡ band result.score)
unfolding score total_points band
score-band found impact role = ground (
  arith,
  confidence_points_le found.confidence,
  algorithm_points_le (normal found.algorithm),
  scored_operation-role found.operation role,
  operation_points_le found.operation,
  scored_impact_le impact,
)

-- To know the role and the impact of a match never lowers its score.
score-inputs :
    (found : RuleMatch) (impact : Option ImpactResult) (role : Option CryptographicRole)
    → (score found none none).score ≤ (score found impact role).score
unfolding score total_points scored_impact is_long_lived
score-inputs found impact role = ground (
  arith,
  scored_operation-role found.operation role,
  scored_operation-role found.operation none,
  operation_points_le found.operation,
)
