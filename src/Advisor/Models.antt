-- ===== src/Advisor/Models.antt =====
-- The values of the advisor: cryptiq/app/engine/context/models.py.
use cryptiq.Shared.{String, Bool, true, Option, none, some, List, [], ◌∷◌, Eq, enum_eq}

pub data AssessmentDecision : Type 0 where
  keep review migrate insufficient_context : AssessmentDecision

unfoldable pub AssessmentDecision-discrete : Discrete AssessmentDecision
AssessmentDecision-discrete = hlevel

instance abbrev pub decision_eq : Eq AssessmentDecision
decision_eq = enum_eq AssessmentDecision-discrete

pub data AssessmentConfidence : Type 0 where
  high medium low : AssessmentConfidence

pub data ContextualRole : Type 0 where
  content_addressing data_integrity hashing password_derivation mac : ContextualRole
  digital_signature signature_verification key_establishment key_derivation : ContextualRole
  encryption randomness protocol unknown : ContextualRole

unfoldable pub ContextualRole-discrete : Discrete ContextualRole
ContextualRole-discrete = hlevel

instance abbrev pub contextual_role_eq : Eq ContextualRole
contextual_role_eq = enum_eq ContextualRole-discrete

-- `role.value`
unfoldable pub contextual_value : ContextualRole → String
contextual_value content_addressing = "CONTENT_ADDRESSING"
contextual_value data_integrity = "DATA_INTEGRITY"
contextual_value hashing = "HASHING"
contextual_value password_derivation = "PASSWORD_DERIVATION"
contextual_value mac = "MAC"
contextual_value digital_signature = "DIGITAL_SIGNATURE"
contextual_value signature_verification = "SIGNATURE_VERIFICATION"
contextual_value key_establishment = "KEY_ESTABLISHMENT"
contextual_value key_derivation = "KEY_DERIVATION"
contextual_value encryption = "ENCRYPTION"
contextual_value randomness = "RANDOMNESS"
contextual_value protocol = "PROTOCOL"
contextual_value unknown = "UNKNOWN"

pub data ConstraintLevel : Type 0 where
  high medium low unknown : ConstraintLevel

unfoldable pub ConstraintLevel-discrete : Discrete ConstraintLevel
ConstraintLevel-discrete = hlevel

instance abbrev pub level_eq : Eq ConstraintLevel
level_eq = enum_eq ConstraintLevel-discrete

pub record DomainProfile : Type 0 where
  pub domain : String
  pub latency_sensitivity : ConstraintLevel
  pub bandwidth_constraint : ConstraintLevel
  pub compute_constraint : ConstraintLevel
  pub memory_constraint : ConstraintLevel
  pub battery_constraint : ConstraintLevel
  pub offline_operation : Option Bool
  pub signature_frequency : Option String
  pub verification_frequency : Option String
  pub payload_size_sensitivity : ConstraintLevel
  pub data_longevity : Option String
  pub regulatory_requirements : List String
  pub platform_constraints : List String
  pub interoperability_constraints : List String

-- The defaults of the fields.
abbrev pub default_profile : DomainProfile
default_profile = record {
  domain = "GENERAL_SOFTWARE";
  latency_sensitivity = ConstraintLevel.unknown;
  bandwidth_constraint = ConstraintLevel.unknown;
  compute_constraint = ConstraintLevel.unknown;
  memory_constraint = ConstraintLevel.unknown;
  battery_constraint = ConstraintLevel.unknown;
  offline_operation = none;
  signature_frequency = none;
  verification_frequency = none;
  payload_size_sensitivity = ConstraintLevel.unknown;
  data_longevity = none;
  regulatory_requirements = [];
  platform_constraints = [];
  interoperability_constraints = [];
}

unfoldable pub autonomous_drone : DomainProfile
autonomous_drone = record default_profile {
  domain = "AUTONOMOUS_DRONE";
  latency_sensitivity = ConstraintLevel.high;
  bandwidth_constraint = ConstraintLevel.high;
  compute_constraint = ConstraintLevel.high;
  memory_constraint = ConstraintLevel.medium;
  battery_constraint = ConstraintLevel.high;
  offline_operation = some true;
  payload_size_sensitivity = ConstraintLevel.high;
  data_longevity = some "LONG_TERM";
  platform_constraints = "embedded-linux" ∷ "arm-cortex-m" ∷ "rtos" ∷ [];
  interoperability_constraints = "mavlink" ∷ "custom-firmware-bus" ∷ [];
}

pub record ExtractedContext : Type 0 where
  pub finding_fingerprint : String
  pub file_path : String
  pub enclosing_function : Option String
  pub enclosing_class : Option String
  pub module_name : Option String
  pub semantic_clues : List String
  pub inferred_role_candidate : ContextualRole
  pub context_summary : String

-- A source of the knowledge base, by its identifiers.
pub record KnowledgeSource : Type 0 where
  pub document_id : String
  pub chunk_id : String

pub record ContextualAssessment : Type 0 where
  pub finding_id : Option String
  pub fingerprint : String
  pub assessment : AssessmentDecision
  pub confidence : AssessmentConfidence
  pub contextual_role : ContextualRole
  pub rationale : String
  pub pqc_migration_required : Bool
  pub migration_candidate : Option String
  pub alternatives : List String
  pub engineering_tradeoffs : List String
  pub required_context : List String
  pub evidence_interpretation : String
  pub knowledge_sources : List KnowledgeSource
  pub limitations : List String
  pub domain_profile : DomainProfile
  pub generated_by : String
  pub model : Option String
  pub prompt_version : Option String
  pub cached : Bool
