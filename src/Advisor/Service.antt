-- ===== src/Advisor/Service.antt =====
-- One assessment: assess_facts of cryptiq/app/services/context_advisor.py. What the language model
-- replies and what the knowledge base gives for the query are arguments.
pub mod Consistent
use cryptiq.Shared.{
  String, Bool, true, false, not, ◌&&◌, ◌||◌, Option, none, some, List, [], ◌∷◌, ◌==◌, string_eq,
  if◌then◌else◌,
}
use cryptiq.Shared.Text.{upper}
use cryptiq.Advisor.Models.{
  AssessmentDecision, keep, review, migrate, insufficient_context, AssessmentConfidence,
  ContextualRole, contextual_value, DomainProfile, ExtractedContext, KnowledgeSource,
  ContextualAssessment,
}
use cryptiq.Advisor.Extractor.{extract_context}
use cryptiq.Advisor.Guardrails.{enforce_guardrails}
use cryptiq.Advisor.Heuristics.{assess_with_heuristics, prompt_version}

-- The reply of the model, checked against its schema.
pub record ContextualAssessmentPayload : Type 0 where
  pub assessment : String
  pub confidence : String
  pub contextual_role : String
  pub rationale : String
  pub pqc_migration_required : Bool
  pub migration_candidate : Option String
  pub alternatives : List String
  pub engineering_tradeoffs : List String
  pub required_context : List String
  pub evidence_interpretation : String
  pub limitations : List String

-- `AssessmentDecision(text)`, or REVIEW for a text that is none.
unfoldable pub decision_of : String → AssessmentDecision
decision_of text =
    if text == "KEEP"
    then keep
    else if text == "MIGRATE"
    then migrate
    else if text == "INSUFFICIENT_CONTEXT"
    then insufficient_context
    else review

-- `AssessmentConfidence(text)`, or MEDIUM.
unfoldable pub confidence_of : String → AssessmentConfidence
confidence_of text =
    if text == "HIGH"
    then AssessmentConfidence.high
    else if text == "LOW"
    then AssessmentConfidence.low
    else AssessmentConfidence.medium

abbrev pub all_roles : List ContextualRole
all_roles =
    ContextualRole.content_addressing ∷ ContextualRole.data_integrity ∷ ContextualRole.hashing
    ∷ ContextualRole.password_derivation ∷ ContextualRole.mac ∷ ContextualRole.digital_signature
    ∷ ContextualRole.signature_verification ∷ ContextualRole.key_establishment
    ∷ ContextualRole.key_derivation ∷ ContextualRole.encryption ∷ ContextualRole.randomness
    ∷ ContextualRole.protocol ∷ ContextualRole.unknown ∷ []

-- `ContextualRole(text)`, or the other role for a text that is none.
unfoldable pub role_of : List ContextualRole → ContextualRole → String → ContextualRole
role_of [] other text = other
role_of (role ∷ roles) other text =
    if contextual_value role == text then role else role_of roles other text

-- `_assess_with_gemini`, from the reply on.
unfoldable pub assess_with_gemini :
    Option String
    → String
    → String
    → ExtractedContext
    → DomainProfile
    → List KnowledgeSource
    → ContextualAssessmentPayload
    → ContextualAssessment
unfolding decision_of confidence_of role_of
assess_with_gemini finding_id fingerprint model extracted profile knowledge payload = record {
  finding_id = finding_id;
  fingerprint = fingerprint;
  assessment = decision_of (upper payload.assessment);
  confidence = confidence_of (upper payload.confidence);
  contextual_role =
      role_of all_roles extracted.inferred_role_candidate (upper payload.contextual_role);
  rationale = payload.rationale;
  pqc_migration_required = payload.pqc_migration_required;
  migration_candidate = payload.migration_candidate;
  alternatives = payload.alternatives;
  engineering_tradeoffs = payload.engineering_tradeoffs;
  required_context = payload.required_context;
  evidence_interpretation = payload.evidence_interpretation;
  knowledge_sources = knowledge;
  limitations = payload.limitations;
  domain_profile = profile;
  generated_by = "gemini";
  model = some model;
  prompt_version = some prompt_version;
  cached = false;
}

-- The finding, as far as the assessment depends on it.
pub record Facts : Type 0 where
  pub finding_id : Option String
  pub fingerprint : String
  pub algorithm : String
  pub file_path : String
  pub deterministic_role : String
  pub enclosing_function : Option String
  pub enclosing_class : Option String
  pub bounded_excerpt : String

unfoldable pub context_of : Facts → ExtractedContext
context_of facts =
    extract_context facts.fingerprint facts.file_path facts.enclosing_function facts.enclosing_class
      facts.bounded_excerpt facts.deterministic_role facts.algorithm

-- The assessment before the guardrails; `reply` is none if the call or the check of its schema
-- raises.
unfoldable pub assessed :
    Facts
    → DomainProfile
    → List KnowledgeSource
    → Bool
    → Bool
    → String
    → Option ContextualAssessmentPayload
    → ContextualAssessment
assessed facts profile knowledge force_heuristic is_configured model reply =
    let extracted = context_of facts in
    let fallback =
      assess_with_heuristics facts.finding_id facts.fingerprint facts.algorithm
        facts.deterministic_role extracted profile knowledge in
    if not force_heuristic && is_configured
    then elim reply [
      | none ↦ fallback
      | some payload ↦
          assess_with_gemini facts.finding_id facts.fingerprint model extracted profile knowledge
            payload
    ]
    else fallback

unfoldable pub assess_facts :
    Facts
    → DomainProfile
    → List KnowledgeSource
    → Bool
    → Bool
    → String
    → Option ContextualAssessmentPayload
    → ContextualAssessment
assess_facts facts profile knowledge force_heuristic is_configured model reply =
    enforce_guardrails (assessed facts profile knowledge force_heuristic is_configured model reply)
      facts.algorithm facts.deterministic_role
