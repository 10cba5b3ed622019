-- ===== src/Triage/Role.antt =====
-- What a construct does cryptographically: cryptiq/app/engine/roles/classifier.py.
use cryptiq.Shared.{
  String, List, [], ◌∷◌, ◌&&◌, ◌==◌, Eq, enum_eq, string_eq, if◌then◌else◌, contains,
}
use cryptiq.Shared.Text.{strip, upper, lower}
use cryptiq.Shared.Parts.{format}
use cryptiq.Engine.Match.{CryptoOperation, operation_eq, RuleMatch, operation_value}

pub data CryptographicRole : Type 0 where
  digital_signature key_establishment symmetric_encryption hash protocol unknown : CryptographicRole

unfoldable pub CryptographicRole-discrete : Discrete CryptographicRole
CryptographicRole-discrete = hlevel

instance abbrev pub role_eq : Eq CryptographicRole
role_eq = enum_eq CryptographicRole-discrete

-- `role.value`
unfoldable pub role_value : CryptographicRole → String
role_value digital_signature = "DIGITAL_SIGNATURE"
role_value key_establishment = "KEY_ESTABLISHMENT"
role_value symmetric_encryption = "SYMMETRIC_ENCRYPTION"
role_value hash = "HASH"
role_value protocol = "PROTOCOL"
role_value unknown = "UNKNOWN"

abbrev pub signature_algorithms : List String
signature_algorithms = "ECDSA" ∷ "ED25519" ∷ "ED448" ∷ []

abbrev pub key_agreement_algorithms : List String
key_agreement_algorithms = "ECDH" ∷ "X25519" ∷ "X448" ∷ "DH" ∷ "DIFFIE-HELLMAN" ∷ []

abbrev pub dual_use_algorithms : List String
dual_use_algorithms = "RSA" ∷ []

abbrev pub symmetric_algorithms : List String
symmetric_algorithms = "AES" ∷ "CHACHA20" ∷ "3DES" ∷ "DES" ∷ "CAMELLIA" ∷ []

abbrev pub signing_operations : List CryptoOperation
signing_operations = CryptoOperation.sign ∷ CryptoOperation.verify ∷ []

abbrev pub key_transport_operations : List CryptoOperation
key_transport_operations = CryptoOperation.encrypt ∷ CryptoOperation.decrypt ∷ []

pub record RoleAssessment : Type 0 where
  pub role : CryptographicRole
  pub rationale : String

abbrev pub assessed : CryptographicRole → List String → RoleAssessment
assessed role parts = record { role = role; rationale = format parts }

-- `text.strip().upper()`
unfoldable pub normal : String → String
normal text = upper (strip text)

-- `_classify_key_generation`
unfoldable pub classify_key_generation : RuleMatch → String → RoleAssessment
classify_key_generation found algorithm =
    if contains signature_algorithms algorithm
    then assessed CryptographicRole.digital_signature
        (found.algorithm ∷ " keys can only be used for signatures." ∷ [])
    else if contains key_agreement_algorithms algorithm
    then assessed CryptographicRole.key_establishment
        (found.algorithm ∷ " keys can only be used for key agreement." ∷ [])
    else if contains dual_use_algorithms algorithm
    then assessed CryptographicRole.unknown (
        found.algorithm ∷ " keys sign and transport keys, so generating one "
        ∷ "does not establish the role." ∷ [])
    else assessed CryptographicRole.unknown
        (found.algorithm ∷ " key generation has no established role." ∷ [])

-- `classify`
unfoldable pub classify : RuleMatch → RoleAssessment
classify found =
    let algorithm = normal found.algorithm in
    let operation = found.operation in
    if normal found.primitive == "HASH"
    then assessed CryptographicRole.hash (found.algorithm ∷ " is a hash function." ∷ [])
    else if contains symmetric_algorithms algorithm
    then assessed CryptographicRole.symmetric_encryption
        (found.algorithm ∷ " is a symmetric cipher." ∷ [])
    else if contains signing_operations operation
    then assessed CryptographicRole.digital_signature
        (found.api ∷ " performs a " ∷ lower (operation_value operation) ∷ " operation." ∷ [])
    else if operation == CryptoOperation.key_establishment
    then assessed CryptographicRole.key_establishment (found.api ∷ " agrees a shared secret." ∷ [])
    else if contains key_transport_operations operation && contains dual_use_algorithms algorithm
    then assessed CryptographicRole.key_establishment
        (found.algorithm ∷ " encryption transports a key under a public key." ∷ [])
    else if operation == CryptoOperation.key_generation
    then classify_key_generation found algorithm
    else assessed CryptographicRole.unknown
        (found.api ∷ " does not establish what the key is used for." ∷ [])
