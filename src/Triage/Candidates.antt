-- ===== src/Triage/Candidates.antt =====
-- What the roles, the review paths and the priorities of cryptiq/app/engine say of one match.
use cryptiq.Shared.{
  ◌≤◌, String, Bool, true, false, not, ◌&&◌, ◌||◌, Option, some, ◌==◌, ◌≡◌, refl, contains, arith,
  if◌then◌else◌, every-contains, string_eq,
}
use cryptiq.Engine.Match.{RuleMatch, CryptoOperation, CryptoOperation-discrete, operation_eq}
use cryptiq.Triage.Role.{
  CryptographicRole, role_eq, CryptographicRole-discrete, classify, classify_key_generation, normal,
  signature_algorithms, key_agreement_algorithms, dual_use_algorithms, symmetric_algorithms,
  signing_operations, key_transport_operations,
}
use cryptiq.Triage.Pqc.{map_review_path, broken_signatures, broken_key_establishment}
use cryptiq.Triage.Impact.{ImpactResult}
use cryptiq.Triage.Tables.{asymmetric_algorithms, pqc_algorithms}
use cryptiq.Triage.Priority.{
  ReviewPriority, score, total_points, band, algorithm_points, is_long_lived, confidence_points,
}
use cryptiq.Triage.Priority.Bounds.{scored_operation-role}

-- Whether the tables of the priority hold the algorithm for broken.
abbrev is_broken : String → Bool
is_broken name = contains asymmetric_algorithms name && not (contains pqc_algorithms name)

broken_signatures-is_broken :
    (name : String) → contains broken_signatures name ≡ true → is_broken name ≡ true
unfolding contains
broken_signatures-is_broken name = every-contains is_broken broken_signatures name refl

broken_key_establishment-is_broken :
    (name : String) → contains broken_key_establishment name ≡ true → is_broken name ≡ true
unfolding contains
broken_key_establishment-is_broken name =
    every-contains is_broken broken_key_establishment name refl

long_lived-contains :
    (role : CryptographicRole)
    → is_long_lived (some role)
      ≡ (role == CryptographicRole.digital_signature || role == CryptographicRole.key_establishment)
unfolding is_long_lived contains CryptographicRole-discrete
long_lived-contains CryptographicRole.digital_signature = refl
long_lived-contains CryptographicRole.key_establishment = refl
long_lived-contains CryptographicRole.symmetric_encryption = refl
long_lived-contains CryptographicRole.hash = refl
long_lived-contains CryptographicRole.protocol = refl
long_lived-contains CryptographicRole.unknown = refl

candidate-is_broken :
    (algorithm : String) (role : CryptographicRole)
    → (map_review_path algorithm role).is_migration_candidate ≡ true
    → (is_broken (normal algorithm) ≡ true) × (is_long_lived (some role) ≡ true)
unfolding map_review_path
candidate-is_broken algorithm role h = ground (
  arith,
  long_lived-contains role,
  broken_signatures-is_broken (normal algorithm),
  broken_key_establishment-is_broken (normal algorithm),
)

-- A match that its review path makes a migration candidate is put in the HIGH band, whatever its
-- operation and its impact, if its confidence is at least MEDIUM.
pub candidate-high :
    (found : RuleMatch) (impact : Option ImpactResult) (role : CryptographicRole)
    → (map_review_path found.algorithm role).is_migration_candidate ≡ true
    → 15 ≤ confidence_points found.confidence
    → (score found impact (some role)).level ≡ ReviewPriority.high
unfolding score total_points band algorithm_points
candidate-high found impact role h c = ground (
  arith,
  candidate-is_broken found.algorithm role h,
  scored_operation-role found.operation (some role),
)

-- What a migration candidate is, without the roles: a signature, a key agreement, an RSA key
-- transport, or a key of an algorithm that has one purpose.
unfoldable pub is_candidate : RuleMatch → Bool
is_candidate found =
    let name = normal found.algorithm in
    let operation = found.operation in
    if normal found.primitive == "HASH" || contains symmetric_algorithms name
    then false
    else if contains signing_operations operation
    then contains broken_signatures name
    else if operation == CryptoOperation.key_establishment
    then contains broken_key_establishment name
    else if contains key_transport_operations operation
    then name == "RSA"
    else operation == CryptoOperation.key_generation
      && (contains signature_algorithms name || contains key_agreement_algorithms name)

only_signing-broken :
    (name : String)
    → contains signature_algorithms name ≡ true
    → contains broken_signatures name ≡ true
unfolding contains
only_signing-broken name =
    every-contains (contains broken_signatures) signature_algorithms name refl

only_agreeing-broken :
    (name : String)
    → contains key_agreement_algorithms name ≡ true
    → contains broken_key_establishment name ≡ true
unfolding contains
only_agreeing-broken name =
    every-contains (contains broken_key_establishment) key_agreement_algorithms name refl

dual_use-broken :
    (name : String)
    → contains dual_use_algorithms name ≡ true
    → contains broken_key_establishment name ≡ true
unfolding contains
dual_use-broken name =
    every-contains (contains broken_key_establishment) dual_use_algorithms name refl

dual_use-rsa : (name : String) → contains dual_use_algorithms name ≡ (name == "RSA")
unfolding contains
dual_use-rsa name = ground (arith, string_eq.beq_iff "RSA" name, string_eq.beq_iff name "RSA")

transport-generation :
    (o : CryptoOperation)
    → contains key_transport_operations o ≡ true
    → (o == CryptoOperation.key_generation) ≡ false
unfolding contains CryptoOperation-discrete
transport-generation o h = ground arith

-- The role and the review path of a match together decide on migration by the operation, the primitive
-- and the algorithm alone: a match is a candidate exactly if it is no hash and no cipher, and signs with an
-- algorithm whose signatures are broken, agrees a key with one whose key establishment is broken,
-- transports a key by RSA, or generates a key of an algorithm that only signs or only agrees keys.
pub classify-candidate :
    (found : RuleMatch)
    → (map_review_path found.algorithm (classify found).role).is_migration_candidate
      ≡ is_candidate found
unfolding map_review_path classify classify_key_generation is_candidate CryptographicRole-discrete
classify-candidate found = ground (
  arith,
  only_signing-broken (normal found.algorithm),
  only_agreeing-broken (normal found.algorithm),
  dual_use-broken (normal found.algorithm),
  dual_use-rsa (normal found.algorithm),
  transport-generation found.operation,
)
