-- ===== src/Engine/Match.antt =====
-- What a rule reports: cryptiq/app/engine/rules/base.py, and the key kinds of
-- cryptiq/app/engine/rules/resolution.py.
use cryptiq.Shared.{String, Option, Eq, enum_eq}
use cryptiq.Engine.Parsed.{SourceLocation}

pub data CryptoOperation : Type 0 where
  key_generation key_establishment sign verify encrypt decrypt construction hash : CryptoOperation

unfoldable pub CryptoOperation-discrete : Discrete CryptoOperation
CryptoOperation-discrete = hlevel

instance abbrev pub operation_eq : Eq CryptoOperation
operation_eq = enum_eq CryptoOperation-discrete

pub data MatchConfidence : Type 0 where
  high medium low unknown : MatchConfidence

pub data EvidenceBasis : Type 0 where
  direct_module_api class_import class_annotation constructor_assignment established_alias :
      EvidenceBasis

unfoldable pub EvidenceBasis-discrete : Discrete EvidenceBasis
EvidenceBasis-discrete = hlevel

instance abbrev pub basis_eq : Eq EvidenceBasis
basis_eq = enum_eq EvidenceBasis-discrete

pub data KeyKind : Type 0 where
  private_key public_key cipher aead : KeyKind

unfoldable pub KeyKind-discrete : Discrete KeyKind
KeyKind-discrete = hlevel

instance abbrev pub kind_eq : Eq KeyKind
kind_eq = enum_eq KeyKind-discrete

pub record RuleMatch : Type 0 where
  pub rule_id : String
  pub ruleset_version : String
  pub algorithm : String
  pub primitive : String
  pub library : String
  pub api : String
  pub operation : CryptoOperation
  pub file_path : String
  pub location : SourceLocation
  pub confidence : MatchConfidence
  pub evidence_basis : EvidenceBasis
  pub enclosing_function : Option String
  pub enclosing_class : Option String

-- `operation.value`
unfoldable pub operation_value : CryptoOperation → String
operation_value key_generation = "KEY_GENERATION"
operation_value key_establishment = "KEY_ESTABLISHMENT"
operation_value sign = "SIGN"
operation_value verify = "VERIFY"
operation_value encrypt = "ENCRYPT"
operation_value decrypt = "DECRYPT"
operation_value construction = "CONSTRUCTION"
operation_value hash = "HASH"

-- `confidence.value`
unfoldable pub confidence_value : MatchConfidence → String
confidence_value high = "HIGH"
confidence_value medium = "MEDIUM"
confidence_value low = "LOW"
confidence_value unknown = "UNKNOWN"

-- `evidence_basis.value`
unfoldable pub basis_value : EvidenceBasis → String
basis_value direct_module_api = "DIRECT_MODULE_API"
basis_value class_import = "CLASS_IMPORT"
basis_value class_annotation = "CLASS_ANNOTATION"
basis_value constructor_assignment = "CONSTRUCTOR_ASSIGNMENT"
basis_value established_alias = "ESTABLISHED_ALIAS"
