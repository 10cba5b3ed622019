-- ===== src/Advisor/Tests.antt =====
-- The advisor at concrete findings.
mod Profiles
use cryptiq.Shared.{true, false, none, some, [], ◌∷◌, ◌≡◌, refl, contains}
use cryptiq.Shared.Text.{
  strip, lstrip, rstrip, upper, lower, has_text, strip_prefix, is_space, replace_char,
}
use cryptiq.Shared.Parts.{split, join, format}
use cryptiq.Shared.Sort.{sort_by, insert_by}
use cryptiq.Advisor.Models.{
  AssessmentDecision-discrete, review, migrate, ContextualRole, ContextualRole-discrete,
  ConstraintLevel-discrete, contextual_value, default_profile, ContextualAssessment,
}
use cryptiq.Advisor.Tokens.{
  find_tokens, find_camel, non_empty, parts_of_token, parts_of_tokens, tokenize, is_upper, is_lower,
  is_digit,
}
use cryptiq.Advisor.Extractor.{
  is_hash, is_signing, is_agreement, found_among, matches_of, labelled, hash_purpose, inferred,
  summary, extract_context,
}
use cryptiq.Advisor.Guardrails.{
  any_in, matches_family, is_hash_role, is_agreement_role, is_signature_role, is_cipher_role,
  reject_for_hash, correct_agreement, correct_signature, reject_for_cipher, corrected,
  without_public_key, filtered, settled, enforce_guardrails,
}
use cryptiq.Advisor.Guardrails.Swapped.{enforce_guardrails-swaps}
use cryptiq.Advisor.Heuristics.{
  role_or, hash_advice, signature_advice, agreement_advice, cipher_advice, no_advice, advise,
  assess_with_heuristics,
}
use cryptiq.Advisor.Service.{
  Facts, ContextualAssessmentPayload, decision_of, confidence_of, role_of, assess_with_gemini,
  context_of, assessed, assess_facts,
}
use cryptiq.Advisor.Service.Consistent.{IsConsistent, assess_facts-IsConsistent}

program : Unit {0}
unfolding contains strip lstrip rstrip upper lower has_text strip_prefix is_space replace_char split
    join format sort_by insert_by AssessmentDecision-discrete ContextualRole-discrete
    ConstraintLevel-discrete contextual_value find_tokens find_camel non_empty parts_of_token
    parts_of_tokens tokenize is_upper is_lower is_digit is_hash is_signing is_agreement found_among
    matches_of labelled hash_purpose inferred summary extract_context any_in matches_family
    is_hash_role is_agreement_role is_signature_role is_cipher_role reject_for_hash
    correct_agreement correct_signature reject_for_cipher corrected without_public_key filtered
    settled enforce_guardrails role_or hash_advice signature_advice agreement_advice cipher_advice
    no_advice advise assess_with_heuristics decision_of confidence_of role_of assess_with_gemini
    context_of assessed assess_facts
program = tt

tokens :
    tokenize "getHTTPKey cache_key"
    ≡ "gethttpkey" ∷ "gethttpkey" ∷ "get" ∷ "http" ∷ "key" ∷ "cache_key" ∷ "cache" ∷ "key" ∷ "cache"
      ∷ "key" ∷ []
unfolding program
tokens = refl

abbrev hash_facts : Facts
hash_facts = record {
  finding_id = none;
  fingerprint = "f";
  algorithm = "SHA-256";
  file_path = "app/tiles.py";
  deterministic_role = "HASH";
  enclosing_function = some "cache_key";
  enclosing_class = none;
  bounded_excerpt = "";
}

abbrev hostile_reply : ContextualAssessmentPayload
hostile_reply = record {
  assessment = "MIGRATE";
  confidence = "HIGH";
  contextual_role = "HASHING";
  rationale = "r";
  pqc_migration_required = true;
  migration_candidate = some "ml-dsa-65";
  alternatives = "SHA-512" ∷ "SLH-DSA" ∷ [];
  engineering_tradeoffs = [];
  required_context = [];
  evidence_interpretation = "";
  limitations = [];
}

abbrev advised : ContextualAssessment
advised = assess_facts hash_facts default_profile [] false true "m" (some hostile_reply)

hostile_candidate : advised.migration_candidate ≡ none
unfolding program
hostile_candidate = refl

hostile_alternatives : advised.alternatives ≡ "SHA-512" ∷ []
unfolding program
hostile_alternatives = refl

hostile_decision : advised.assessment ≡ review
unfolding program
hostile_decision = refl

offline_role :
    (assess_facts hash_facts default_profile [] true true "m" none).contextual_role
    ≡ ContextualRole.content_addressing
unfolding program
offline_role = refl

assess_facts-IsConsistent_example : IsConsistent "HASH" advised
assess_facts-IsConsistent_example =
    assess_facts-IsConsistent hash_facts default_profile [] false true "m" (some hostile_reply)

abbrev signing : ContextualAssessment
signing = record advised {
  contextual_role = ContextualRole.key_establishment;
  migration_candidate = some "ML-DSA-65";
}

enforce_guardrails-swaps_example :
    ((enforce_guardrails signing "ECDSA" "DIGITAL_SIGNATURE").migration_candidate
      ≡ some "ML-KEM-768")
    × ((enforce_guardrails signing "ECDSA" "DIGITAL_SIGNATURE").assessment ≡ migrate)
unfolding program
enforce_guardrails-swaps_example =
    enforce_guardrails-swaps signing "ECDSA" "DIGITAL_SIGNATURE" refl refl refl
