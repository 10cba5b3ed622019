-- ===== src/Advisor/Heuristics.antt =====
-- The advice that needs no language model: `_assess_with_heuristics` of
-- cryptiq/app/services/context_advisor.py.
use cryptiq.Shared.{
  String, Bool, true, false, ◌&&◌, ◌||◌, Option, none, some, List, [], ◌∷◌, ◌==◌, string_eq,
  if◌then◌else◌, contains,
}
use cryptiq.Shared.Text.{strip, upper, lower, has_text, replace_char}
use cryptiq.Shared.Parts.{format}
use cryptiq.Advisor.Models.{
  AssessmentDecision, keep, review, migrate, insufficient_context, AssessmentConfidence,
  ContextualRole, contextual_role_eq, contextual_value, ConstraintLevel, level_eq, DomainProfile,
  ExtractedContext, KnowledgeSource, ContextualAssessment,
}

abbrev pub prompt_version : String
prompt_version = "gemini-migration-advisor-v1"

-- The local variables that a scenario sets.
pub record Advice : Type 0 where
  pub decision : AssessmentDecision
  pub confidence : AssessmentConfidence
  pub pqc_required : Bool
  pub candidate : Option String
  pub rationale : String
  pub tradeoffs : List String
  pub alternatives : List String
  pub limitations : List String

-- `role`, where the context gives none.
unfoldable pub role_or : ContextualRole → String → ContextualRole
role_or role deterministic =
    if role == ContextualRole.unknown
    then if upper deterministic == "HASH"
      then ContextualRole.hashing
      else if upper deterministic == "DIGITAL_SIGNATURE"
      then ContextualRole.digital_signature
      else if upper deterministic == "KEY_ESTABLISHMENT"
      then ContextualRole.key_establishment
      else if upper deterministic == "SYMMETRIC_ENCRYPTION"
      then ContextualRole.encryption
      else role
    else role

-- Scenario 1
unfoldable pub hash_advice : String → ContextualRole → Advice
hash_advice algo role = record {
  decision = keep;
  confidence = AssessmentConfidence.high;
  pqc_required = false;
  candidate = none;
  rationale = format (
      algo
      ∷ " is functioning as a cryptographic hash for "
      ∷ replace_char 95 " " (lower (contextual_value role))
      ∷ ". "
      ∷ "Hash functions are not broken by Shor's algorithm and retain robust 128-bit quantum security "
      ∷ "under Grover's algorithm. ML-DSA is a digital-signature algorithm and is not a semantic "
      ∷ "replacement for hash-based content addressing or deduplication."
      ∷ []);
  tradeoffs =
      format (
        algo ∷ " remains optimal for collision and preimage resistance in local data storage." ∷ [])
      ∷ "No signature or public-key infrastructure overhead is incurred."
      ∷ format (
          "Reassess only if the resulting digest is signed or used in an authentication "
          ∷ "handshake." ∷ [])
      ∷ [];
  alternatives = "SHA-384" ∷ "SHA-512" ∷ "BLAKE2b (for performance)" ∷ [];
  limitations =
      format (
        "Static analysis confirms local identifier/caching usage; verify the digest is not "
        ∷ "subsequently passed to a remote signing API." ∷ [])
      ∷ [];
}

-- Scenario 2
unfoldable pub signature_advice : String → DomainProfile → Advice
signature_advice algo profile = record {
  decision = if profile.bandwidth_constraint == ConstraintLevel.high then review else migrate;
  confidence = AssessmentConfidence.high;
  pqc_required = true;
  candidate = some "ML-DSA-65";
  rationale = format (
      algo ∷ " digital signatures are broken by Shor's algorithm. "
      ∷ "Post-quantum migration to FIPS 204 (ML-DSA) is recommended to maintain signature "
      ∷ "non-repudiation." ∷ []);
  tradeoffs =
      format (
        "ML-DSA-65 produces ~3.3 KB signatures compared to ~64 bytes for ECDSA (~50x size "
        ∷ "increase)." ∷ [])
      ∷ "ML-DSA public keys are 1,952 bytes (vs ~64 bytes for ECDSA)."
      ∷ format (
          "Verification is computationally fast on 64-bit and 32-bit platforms, but increased "
          ∷ "transmission overhead affects bandwidth-constrained links." ∷ [])
      ∷ (if profile.domain == "AUTONOMOUS_DRONE"
            || profile.bandwidth_constraint == ConstraintLevel.high
          then format (
              "For bandwidth-constrained drone telemetry and OTA firmware updates, consider "
              ∷ "dual/hybrid signing (ECDSA + ML-DSA) during the migration period." ∷ [])
            ∷ []
          else []);
  alternatives =
      "SLH-DSA (FIPS 205 - conservative hash-based)" ∷ "Stateful Hash-Based Signatures (LMS/XMSS)"
      ∷ [];
  limitations =
      format (
        "Firmware bootloader ROM space and memory bounds must be checked against ML-DSA "
        ∷ "verification buffer requirements." ∷ [])
      ∷ [];
}

-- Scenario 3
unfoldable pub agreement_advice : String → Advice
agreement_advice algo = record {
  decision = migrate;
  confidence = AssessmentConfidence.high;
  pqc_required = true;
  candidate = some "ML-KEM-768";
  rationale = format (
      algo ∷ " key agreement is vulnerable to Shor's algorithm and retroactive 'store now, decrypt "
      ∷ "later' eavesdropping. Migration to FIPS 203 (ML-KEM-768) or hybrid key encapsulation is "
      ∷ "recommended." ∷ []);
  tradeoffs =
      format (
        "ML-KEM-768 public key is 1,184 bytes and ciphertext is 1,088 bytes (vs 32 bytes for "
        ∷ "X25519)." ∷ [])
      ∷ "Computational overhead is low, but transport payload size is increased."
      ∷ format (
          "Hybrid combination (e.g. X25519 + ML-KEM-768) provides defence-in-depth during the "
          ∷ "standardization rollout." ∷ [])
      ∷ [];
  alternatives =
      "ML-KEM-512 (AES-128 equivalent)" ∷ "ML-KEM-1024 (AES-256 equivalent)" ∷ "X-Wing Hybrid KEM"
      ∷ [];
  limitations = "Ensure peer systems support FIPS 203 KEM protocol negotiations." ∷ [];
}

-- Scenario 4
unfoldable pub cipher_advice : String → Advice
cipher_advice algo = record {
  decision = keep;
  confidence = AssessmentConfidence.high;
  pqc_required = false;
  candidate = none;
  rationale = format (
      algo ∷ " is a symmetric cipher. Symmetric ciphers are unaffected by Shor's algorithm. "
      ∷ "Ensure a key length of 256 bits (AES-256) is utilized for 128-bit quantum security under "
      ∷ "Grover's algorithm." ∷ []);
  tradeoffs =
      "Symmetric encryption does not require PQC replacement."
      ∷ "Verify secure key derivation and authenticated encryption mode (GCM)." ∷ [];
  alternatives = "AES-256-GCM" ∷ [];
  limitations = [];
}

unfoldable pub no_advice : String → Advice
no_advice algo = record {
  decision = insufficient_context;
  confidence = AssessmentConfidence.low;
  pqc_required = false;
  candidate = none;
  rationale = format (
      "Available static context for " ∷ algo
      ∷ " is insufficient to determine runtime operational intent. "
      ∷ "Manual human review is recommended." ∷ []);
  tradeoffs = [];
  alternatives = [];
  limitations = "Call graph and identifier context do not provide a clear semantic purpose." ∷ [];
}

-- The choice of the scenario.
unfoldable pub advise : String → ContextualRole → DomainProfile → Advice
advise algo role profile =
    if contains (ContextualRole.content_addressing ∷ ContextualRole.data_integrity ∷ []) role
      || role == ContextualRole.hashing && has_text "SHA" algo
    then hash_advice algo role
    else if contains (ContextualRole.digital_signature ∷ ContextualRole.signature_verification ∷ [])
          role
        || has_text "ECDSA" algo
    then signature_advice algo profile
    else if role == ContextualRole.key_establishment
        || (has_text "ECDH" algo || has_text "X25519" algo)
    then agreement_advice algo
    else if role == ContextualRole.encryption || has_text "AES" algo
    then cipher_advice algo
    else no_advice algo

unfoldable pub assess_with_heuristics :
    Option String
    → String
    → String
    → String
    → ExtractedContext
    → DomainProfile
    → List KnowledgeSource
    → ContextualAssessment
assess_with_heuristics finding_id fingerprint algorithm deterministic extracted profile knowledge =
    let algo = upper (strip algorithm) in
    let role = role_or extracted.inferred_role_candidate deterministic in
    let advice = advise algo role profile in
    record {
      finding_id = finding_id;
      fingerprint = fingerprint;
      assessment = advice.decision;
      confidence = advice.confidence;
      contextual_role = role;
      rationale = advice.rationale;
      pqc_migration_required = advice.pqc_required;
      migration_candidate = advice.candidate;
      alternatives = advice.alternatives;
      engineering_tradeoffs = advice.tradeoffs;
      required_context = "Call site analysis" ∷ "Domain profile constraints" ∷ [];
      evidence_interpretation = extracted.context_summary;
      knowledge_sources = knowledge;
      limitations = advice.limitations;
      domain_profile = profile;
      generated_by = "heuristic_advisor";
      model = none;
      prompt_version = some prompt_version;
      cached = false;
    }
