-- ===== src/Triage/Pqc.antt =====
-- The post-quantum review path of a role: cryptiq/app/engine/pqc/mapper.py.
use cryptiq.Shared.{
  String, Bool, true, false, List, [], ◌∷◌, ◌&&◌, ◌==◌, string_eq, if◌then◌else◌, contains,
}
use cryptiq.Shared.Parts.{format}
use cryptiq.Triage.Role.{CryptographicRole, role_eq, role_value, normal}

pub data PqcReviewPath : Type 0 where
  signature_migration key_encapsulation_migration symmetric_review hash_policy_review
        manual_review :
      PqcReviewPath

-- The algorithms of a path of this module (those of the roles have the same names).
abbrev pub broken_signatures : List String
broken_signatures = "RSA" ∷ "ECDSA" ∷ "ED25519" ∷ "ED448" ∷ "DSA" ∷ []

abbrev pub broken_key_establishment : List String
broken_key_establishment = "RSA" ∷ "ECDH" ∷ "X25519" ∷ "X448" ∷ "DH" ∷ "DIFFIE-HELLMAN" ∷ []

abbrev pub reviewed_ciphers : List String
reviewed_ciphers = "AES" ∷ "CHACHA20" ∷ "3DES" ∷ "DES" ∷ "CAMELLIA" ∷ []

pub record PqcAssessment : Type 0 where
  pub review_path : PqcReviewPath
  pub rationale : String
  pub is_migration_candidate : Bool

abbrev pub reviewed : PqcReviewPath → Bool → List String → PqcAssessment
reviewed path candidate parts = record {
  review_path = path;
  rationale = format parts;
  is_migration_candidate = candidate;
}

-- `map_review_path`
unfoldable pub map_review_path : String → CryptographicRole → PqcAssessment
map_review_path algorithm role =
    let name = normal algorithm in
    if role == CryptographicRole.digital_signature && contains broken_signatures name
    then reviewed PqcReviewPath.signature_migration true (
        algorithm ∷ " signatures are broken by Shor's algorithm. Review against "
        ∷ "the FIPS 204 (ML-DSA) and FIPS 205 (SLH-DSA) signature standards." ∷ [])
    else if role == CryptographicRole.key_establishment && contains broken_key_establishment name
    then reviewed PqcReviewPath.key_encapsulation_migration true (
        algorithm ∷ " key establishment is broken by Shor's algorithm, and traffic "
        ∷ "captured today can be decrypted later. Review against the FIPS 203 "
        ∷ "(ML-KEM) standard, including hybrid options." ∷ [])
    else if role == CryptographicRole.symmetric_encryption && contains reviewed_ciphers name
    then reviewed PqcReviewPath.symmetric_review false (
        algorithm ∷ " is not broken by Shor's algorithm. Review the key length, "
        ∷ "the mode and the implementation rather than replacing the cipher." ∷ [])
    else if role == CryptographicRole.hash
    then reviewed PqcReviewPath.hash_policy_review false (
        algorithm ∷ " is a hash, not a public-key primitive. Review it against "
        ∷ "hash policy on its own terms; it does not map to a KEM or a signature." ∷ [])
    else reviewed PqcReviewPath.manual_review false (
        algorithm
        ∷ " in the role "
        ∷ role_value role
        ∷ " is not covered by the mapping table. "
        ∷ "A reviewer must establish the review path."
        ∷ [])
