-- ===== src/Advisor/Guardrails/Swapped.antt =====
-- Where the two roles of an assessment disagree: enforce_guardrails of
-- cryptiq/app/engine/context/guardrails.py.
use cryptiq.Shared.{String, true, false, some, ◌≡◌, refl, arith, string_eq, ap, ◌∙◌, contains}
use cryptiq.Shared.Text.{upper}
use cryptiq.Advisor.Models.{
  migrate, ContextualRole, ContextualRole-discrete, AssessmentDecision-discrete,
  ContextualAssessment,
}
use cryptiq.Advisor.Guardrails.{
  signature_schemes, matches_family, is_hash_role, is_agreement_role, correct_agreement, corrected,
  filtered, settled, enforce_guardrails,
}

agreement-IsNoHash :
    (deterministic : String)
    → upper deterministic ≡ "DIGITAL_SIGNATURE"
    → is_hash_role ContextualRole.key_establishment deterministic ≡ false
unfolding is_hash_role contains ContextualRole-discrete
agreement-IsNoHash deterministic h = rw h refl

agreement-IsAgreement :
    (deterministic : String)
    → is_agreement_role ContextualRole.key_establishment deterministic ≡ true
unfolding is_agreement_role ContextualRole-discrete
agreement-IsAgreement deterministic = refl

corrected-agreement :
    (a : ContextualAssessment) (algorithm deterministic : String)
    → is_hash_role a.contextual_role deterministic ≡ false
    → is_agreement_role a.contextual_role deterministic ≡ true
    → matches_family a.migration_candidate signature_schemes ≡ true
    → corrected a algorithm deterministic ≡ correct_agreement a algorithm
unfolding corrected
corrected-agreement a algorithm deterministic h g m = ground (arith, h, g, m)

enforced-agreement :
    (a : ContextualAssessment) (algorithm deterministic : String)
    → corrected a algorithm deterministic ≡ correct_agreement a algorithm
    → enforce_guardrails a algorithm deterministic
      ≡ record (correct_agreement a algorithm) { alternatives = filtered a deterministic }
unfolding enforce_guardrails settled correct_agreement AssessmentDecision-discrete
enforced-agreement a algorithm deterministic e =
    ap
      (λ (b : ContextualAssessment). settled (record b { alternatives = filtered a deterministic }))
      e

-- A finding that the analysis takes for a signature, with a signature scheme as its candidate, is told
-- to migrate to ML-KEM if the assessment takes its role in the context for key establishment.
pub enforce_guardrails-swaps :
    (a : ContextualAssessment) (algorithm deterministic : String)
    → upper deterministic ≡ "DIGITAL_SIGNATURE"
    → a.contextual_role ≡ ContextualRole.key_establishment
    → matches_family a.migration_candidate signature_schemes ≡ true
    → ((enforce_guardrails a algorithm deterministic).migration_candidate ≡ some "ML-KEM-768")
      × ((enforce_guardrails a algorithm deterministic).assessment ≡ migrate)
unfolding correct_agreement
enforce_guardrails-swaps a algorithm deterministic h r m =
    let no_hash =
      ap (λ role. is_hash_role role deterministic) r ∙ agreement-IsNoHash deterministic h in
    let agrees =
      ap (λ role. is_agreement_role role deterministic) r ∙ agreement-IsAgreement deterministic in
    let whole =
      enforced-agreement a algorithm deterministic
        (corrected-agreement a algorithm deterministic no_hash agrees m) in
    (
      ap (λ (b : ContextualAssessment). b.migration_candidate) whole,
      ap (λ (b : ContextualAssessment). b.assessment) whole,
    )
