-- ===== src/Advisor/Guardrails.antt =====
-- The guardrails over an assessment: cryptiq/app/engine/context/guardrails.py.
pub mod Consistent
pub mod Idempotent
pub mod Swapped
use cryptiq.Shared.{
  String, Bool, true, false, not, ◌&&◌, ◌||◌, Option, none, some, List, [], ◌∷◌, ◌++◌, ◌==◌,
  string_eq, if◌then◌else◌, contains,
}
use cryptiq.Shared.Text.{strip, upper, has_text}
use cryptiq.Shared.Parts.{format}
use cryptiq.Advisor.Models.{
  AssessmentDecision, decision_eq, keep, review, migrate, ContextualRole, contextual_role_eq,
  contextual_value, ContextualAssessment,
}

abbrev pub signature_schemes : List String
signature_schemes =
    "ML-DSA" ∷ "ML-DSA-44" ∷ "ML-DSA-65" ∷ "ML-DSA-87" ∷ "SLH-DSA" ∷ "FIPS 204" ∷ "FIPS 205" ∷ []

abbrev pub kem_schemes : List String
kem_schemes = "ML-KEM" ∷ "ML-KEM-512" ∷ "ML-KEM-768" ∷ "ML-KEM-1024" ∷ "FIPS 203" ∷ []

abbrev pub hash_roles : List ContextualRole
hash_roles =
    ContextualRole.content_addressing ∷ ContextualRole.data_integrity ∷ ContextualRole.hashing
    ∷ ContextualRole.password_derivation ∷ ContextualRole.mac ∷ []

-- `any(f in upper for f in family)`
unfoldable pub any_in : List String → String → Bool
any_in [] name = false
any_in (scheme ∷ schemes) name = has_text scheme name || any_in schemes name

unfoldable pub matches_family : Option String → List String → Bool
matches_family none family = false
matches_family (some candidate) family =
    if candidate == "" then false else any_in family (upper (strip candidate))

-- Either kind of public-key scheme.
abbrev pub is_public_key : Option String → Bool
is_public_key candidate =
    matches_family candidate signature_schemes || matches_family candidate kem_schemes

-- The tests of the four branches, on the contextual and the deterministic role.
unfoldable pub is_hash_role : ContextualRole → String → Bool
is_hash_role role deterministic = contains hash_roles role || upper deterministic == "HASH"

unfoldable pub is_agreement_role : ContextualRole → String → Bool
is_agreement_role role deterministic =
    role == ContextualRole.key_establishment || upper deterministic == "KEY_ESTABLISHMENT"

unfoldable pub is_signature_role : ContextualRole → String → Bool
is_signature_role role deterministic =
    contains (ContextualRole.digital_signature ∷ ContextualRole.signature_verification ∷ []) role
    || upper deterministic == "DIGITAL_SIGNATURE"

unfoldable pub is_cipher_role : ContextualRole → String → Bool
is_cipher_role role deterministic =
    role == ContextualRole.encryption || upper deterministic == "SYMMETRIC_ENCRYPTION"

-- A hash that was to be replaced by a public-key scheme.
unfoldable pub reject_for_hash : ContextualAssessment → String → ContextualAssessment
reject_for_hash a algorithm = record a {
  migration_candidate = none;
  pqc_migration_required = false;
  assessment =
      if contains (ContextualRole.content_addressing ∷ ContextualRole.data_integrity ∷ [])
        a.contextual_role
      then keep
      else review;
  rationale = format (
      algorithm
      ∷ " functions as a cryptographic hash ("
      ∷ contextual_value a.contextual_role
      ∷ "). "
      ∷ "Post-quantum public-key signature algorithms (such as ML-DSA) and key-encapsulation "
      ∷ "mechanisms (such as ML-KEM) are not semantic replacements for hash operations. "
      ∷ "SHA-256 remains secure against quantum attacks (Grover's algorithm provides 128-bit "
      ∷ "collision/preimage resistance)."
      ∷ []);
  limitations =
      a.limitations
      ++ format (
          "Guardrail correction applied: Incompatible public-key algorithm rejected for hash "
          ∷ "role." ∷ [])
        ∷ [];
  engineering_tradeoffs =
      a.engineering_tradeoffs
      ++ format (
          "Category error prevented: Public-key signatures/KEMs are not replacements for "
          ∷ "cryptographic hashes." ∷ [])
        ∷ [];
}

-- A key establishment that was to be replaced by a signature scheme.
unfoldable pub correct_agreement : ContextualAssessment → String → ContextualAssessment
correct_agreement a algorithm = record a {
  migration_candidate = some "ML-KEM-768";
  assessment = migrate;
  rationale = format (
      algorithm ∷ " is used for key establishment. Digital signature "
      ∷ "schemes (ML-DSA) cannot agree keys. The appropriate post-quantum candidate "
      ∷ "is ML-KEM (FIPS 203) or a hybrid KEM construction." ∷ []);
  limitations =
      a.limitations
      ++ format (
          "Guardrail correction applied: Corrected invalid signature candidate to ML-KEM for "
          ∷ "key establishment." ∷ [])
        ∷ [];
}

-- A signature that was to be replaced by a key encapsulation.
unfoldable pub correct_signature : ContextualAssessment → String → ContextualAssessment
correct_signature a algorithm = record a {
  migration_candidate = some "ML-DSA-65";
  assessment = migrate;
  rationale = format (
      algorithm ∷ " is used for digital signatures. Key-encapsulation "
      ∷ "mechanisms (ML-KEM) cannot generate or verify signatures. The appropriate "
      ∷ "post-quantum candidate is ML-DSA (FIPS 204) or SLH-DSA (FIPS 205)." ∷ []);
  limitations =
      a.limitations
      ++ format (
          "Guardrail correction applied: Corrected invalid KEM candidate to ML-DSA for digital "
          ∷ "signature." ∷ [])
        ∷ [];
}

-- A symmetric cipher that was to be replaced by a public-key scheme.
unfoldable pub reject_for_cipher : ContextualAssessment → String → ContextualAssessment
reject_for_cipher a algorithm = record a {
  migration_candidate = none;
  pqc_migration_required = false;
  assessment = keep;
  rationale = format (
      algorithm ∷ " is a symmetric cipher. Symmetric ciphers are not broken "
      ∷ "by Shor's algorithm. Review key length and mode rather than replacing the cipher." ∷ []);
  limitations =
      a.limitations
      ++ "Guardrail correction applied: Public-key algorithm rejected for symmetric cipher." ∷ [];
}

-- The chain of the four branches.
unfoldable pub corrected : ContextualAssessment → String → String → ContextualAssessment
corrected a algorithm deterministic =
    if is_hash_role a.contextual_role deterministic
    then if is_public_key a.migration_candidate then reject_for_hash a algorithm else a
    else if is_agreement_role a.contextual_role deterministic
    then if matches_family a.migration_candidate signature_schemes
      then correct_agreement a algorithm
      else a
    else if is_signature_role a.contextual_role deterministic
    then if matches_family a.migration_candidate kem_schemes
      then correct_signature a algorithm
      else a
    else if is_cipher_role a.contextual_role deterministic && is_public_key a.migration_candidate
    then reject_for_cipher a algorithm
    else a

-- The alternatives that are no public-key schemes.
unfoldable pub without_public_key : List String → List String
without_public_key [] = []
without_public_key (alternative ∷ alternatives) =
    let rest = without_public_key alternatives in
    if is_public_key (some alternative) then rest else alternative ∷ rest

unfoldable pub filtered : ContextualAssessment → String → List String
filtered a deterministic =
    if contains hash_roles a.contextual_role
      || (upper deterministic == "HASH" || upper deterministic == "SYMMETRIC_ENCRYPTION")
    then without_public_key a.alternatives
    else a.alternatives

-- What is kept has no candidate.
unfoldable pub settled : ContextualAssessment → ContextualAssessment
settled a =
    if a.assessment == keep
    then record a { migration_candidate = none; pqc_migration_required = false }
    else a

unfoldable pub enforce_guardrails : ContextualAssessment → String → String → ContextualAssessment
enforce_guardrails a algorithm deterministic =
    settled
      (record (corrected a algorithm deterministic) { alternatives = filtered a deterministic })
