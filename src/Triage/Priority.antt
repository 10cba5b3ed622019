-- ===== src/Triage/Priority.antt =====
-- The review priority: rules.py and scorer.py of cryptiq/app/engine/priority.
pub mod Bounds
use cryptiq.Shared.{
  ℕ, ◌+◌, ltb, leb, String, Bool, true, false, not, Option, none, some, List, [], ◌∷◌, ◌++◌, ◌&&◌,
  ◌==◌, string_eq, nat_eq, if◌then◌else◌, contains,
}
use cryptiq.Shared.Parts.{format}
use cryptiq.Shared.Digits.{decimal}
use cryptiq.Engine.Match.{
  CryptoOperation, MatchConfidence, RuleMatch, operation_value, confidence_value, basis_value,
}
use cryptiq.Triage.Role.{CryptographicRole, role_eq, role_value, normal}
use cryptiq.Triage.Impact.{ImpactResult, node_count}
use cryptiq.Triage.Tables.{
  asymmetric_algorithms, pqc_algorithms, symmetric_algorithms, hash_algorithms,
  legacy_hash_algorithms,
}

pub data ReviewPriority : Type 0 where
  critical high medium low informational : ReviewPriority

-- `CONFIDENCE_POINTS`
unfoldable pub confidence_points : MatchConfidence → ℕ
confidence_points MatchConfidence.high = 30
confidence_points MatchConfidence.medium = 15
confidence_points MatchConfidence.low = 5
confidence_points MatchConfidence.unknown = 0

-- `OPERATION_POINTS`
unfoldable pub operation_points : CryptoOperation → ℕ
operation_points CryptoOperation.sign = 30
operation_points CryptoOperation.verify = 30
operation_points CryptoOperation.key_generation = 30
operation_points CryptoOperation.key_establishment = 30
operation_points CryptoOperation.encrypt = 25
operation_points CryptoOperation.decrypt = 25
operation_points CryptoOperation.construction = 10
operation_points CryptoOperation.hash = 10

abbrev pub long_lived_roles : List CryptographicRole
long_lived_roles = CryptographicRole.digital_signature ∷ CryptographicRole.key_establishment ∷ []

abbrev pub key_operation_points : ℕ
key_operation_points = 30

abbrev pub broad_impact_points : ℕ
broad_impact_points = 10

abbrev pub broad_impact_nodes : ℕ
broad_impact_nodes = 5

abbrev pub high_threshold : ℕ
high_threshold = 80

abbrev pub medium_threshold : ℕ
medium_threshold = 40

pub record PriorityResult : Type 0 where
  pub level : ReviewPriority
  pub score : ℕ
  pub reasons : List String

-- `_band`
unfoldable pub band : ℕ → ReviewPriority
band points =
    if leb high_threshold points
    then ReviewPriority.high
    else if leb medium_threshold points
    then ReviewPriority.medium
    else ReviewPriority.low

-- `_algorithm_points`: the points and the reason that it records.
unfoldable pub algorithm_points : String → ℕ × String
algorithm_points algorithm =
    if contains asymmetric_algorithms algorithm
    then (40, format (algorithm ∷ " is public-key cryptography broken by Shor's algorithm." ∷ []))
    else if contains legacy_hash_algorithms algorithm
    then (25, format (algorithm ∷ " is a legacy hash with known classical weaknesses." ∷ []))
    else if contains hash_algorithms algorithm
    then (15, format (algorithm ∷ " is a hash; review its length, not its family." ∷ []))
    else if contains symmetric_algorithms algorithm
    then (15, format (algorithm ∷ " is symmetric; a key-length review, not a migration." ∷ []))
    else (10, format (algorithm ∷ " is not in the classified algorithm tables." ∷ []))

unfoldable pub is_long_lived : Option CryptographicRole → Bool
is_long_lived none = false
is_long_lived (some role) = contains long_lived_roles role

abbrev pub optional_value : Option CryptographicRole → String
optional_value none = ""
optional_value (some role) = role_value role

-- The points of the operation in its role, and the reasons.
unfoldable pub scored_operation : CryptoOperation → Option CryptographicRole → ℕ × List String
scored_operation operation role =
    let points = operation_points operation in
    if is_long_lived role && ltb points key_operation_points
    then (
      key_operation_points,
      format
            (operation_value operation ∷ " operation in the role " ∷ optional_value role ∷ "." ∷ [])
          ∷ [],
    )
    else if not (points == 0)
    then (points, format (operation_value operation ∷ " operation." ∷ []) ∷ [])
    else (points, [])

unfoldable pub role_reasons : Option CryptographicRole → List String
role_reasons none = []
role_reasons (some role) =
    if role == CryptographicRole.unknown
    then []
    else format ("Classified as " ∷ role_value role ∷ "." ∷ []) ∷ []

-- The points of the impact, and the reason.
unfoldable pub scored_impact : Option ImpactResult → ℕ × List String
scored_impact none = (0, [])
scored_impact (some impact) =
    if leb broad_impact_nodes (node_count impact)
    then (
      broad_impact_points,
      format ("Blast radius spans " ∷ decimal (node_count impact) ∷ " static elements." ∷ []) ∷ [],
    )
    else (0, [])

-- The sum of the points of a match that is not post-quantum.
unfoldable pub total_points : RuleMatch → Option ImpactResult → Option CryptographicRole → ℕ
total_points found impact role =
    confidence_points found.confidence
    + (algorithm_points (normal found.algorithm)).0
    + (scored_operation found.operation role).0
    + (scored_impact impact).0

-- `score`
unfoldable pub score : RuleMatch → Option ImpactResult → Option CryptographicRole → PriorityResult
score found impact role =
    let algorithm = normal found.algorithm in
    let points = total_points found impact role in
    if contains pqc_algorithms algorithm
    then record {
      level = ReviewPriority.low;
      score = confidence_points found.confidence;
      reasons =
          format (algorithm ∷ " is already a post-quantum primitive." ∷ [])
          ∷ "Not a migration candidate; review the implementation, not the algorithm."
          ∷ [];
    }
    else record {
      level = band points;
      score = points;
      reasons =
          format (
            confidence_value found.confidence
            ∷ " confidence from "
            ∷ basis_value found.evidence_basis
            ∷ "."
            ∷ [])
          ∷ (algorithm_points algorithm).1
          ∷ ((scored_operation found.operation role).1
              ++ (role_reasons role ++ (scored_impact impact).1));
    }
