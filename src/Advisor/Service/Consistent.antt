-- ===== src/Advisor/Service/Consistent.antt =====
-- What the guardrails make of an assessment, however it came about: `assess_facts` of
-- cryptiq/app/services/context_advisor.py.
use cryptiq.Shared.{String, Bool, Option, List, sym, subst}
use cryptiq.Advisor.Models.{ContextualRole, ContextualAssessment, DomainProfile, KnowledgeSource}
use cryptiq.Advisor.Guardrails.{enforce_guardrails}
use cryptiq.Advisor.Guardrails.Consistent.{
  purpose_of, Fits, FitAll, IsSettled, enforce_guardrails-IsConsistent,
}
use cryptiq.Advisor.Guardrails.Idempotent.{role-enforce_guardrails}
use cryptiq.Advisor.Service.{Facts, ContextualAssessmentPayload, assessed, assess_facts}

-- The candidate and the alternatives of an assessment fit its roles, and its decision fits the
-- candidate.
unfoldable pub IsConsistent : String → ContextualAssessment → Type 0
IsConsistent deterministic a =
    Fits (purpose_of a.contextual_role deterministic) a.migration_candidate
    × FitAll (purpose_of a.contextual_role deterministic) a.alternatives
    × IsSettled a.assessment a.migration_candidate a.pqc_migration_required

enforced-IsConsistent :
    (a : ContextualAssessment) (algorithm deterministic : String)
    → IsConsistent deterministic (enforce_guardrails a algorithm deterministic)
unfolding IsConsistent
enforced-IsConsistent a algorithm deterministic =
    let r = enforce_guardrails a algorithm deterministic in
    subst
      (λ (role : ContextualRole).
        Fits (purpose_of role deterministic) r.migration_candidate
        × FitAll (purpose_of role deterministic) r.alternatives
        × IsSettled r.assessment r.migration_candidate r.pqc_migration_required)
      (sym (role-enforce_guardrails a algorithm deterministic))
      (enforce_guardrails-IsConsistent a algorithm deterministic)

-- Whatever the language model replies, and where it does not reply: by the first purpose that its role in
-- the context and its role in the analysis give, in the order hash, key establishment, signature, cipher,
-- the candidate of a finding has in its name none of the listed signature and key encapsulation schemes for
-- a hash or a cipher, no listed signature scheme for a key establishment and no listed key encapsulation for
-- a signature; no alternative to a hash has a listed scheme in its name; and what is kept has no candidate
-- and needs no migration.
pub assess_facts-IsConsistent :
    (facts : Facts) (profile : DomainProfile) (knowledge : List KnowledgeSource)
    (force_heuristic is_configured : Bool) (model : String)
    (reply : Option ContextualAssessmentPayload)
    → IsConsistent facts.deterministic_role
        (assess_facts facts profile knowledge force_heuristic is_configured model reply)
unfolding assess_facts
assess_facts-IsConsistent facts profile knowledge force_heuristic is_configured model reply =
    enforced-IsConsistent
      (assessed facts profile knowledge force_heuristic is_configured model reply) facts.algorithm
      facts.deterministic_role
