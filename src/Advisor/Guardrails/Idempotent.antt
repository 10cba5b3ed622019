-- ===== src/Advisor/Guardrails/Idempotent.antt =====
-- The guardrails leave alone what they have corrected: enforce_guardrails of
-- cryptiq/app/engine/context/guardrails.py.
use cryptiq.Shared.{
  String, some, List, [], ◌∷◌, ◌≡◌, refl, sym, ap, ◌∙◌, arith, ◌==◌, Bool-cases, inl, inr,
}
use cryptiq.Advisor.Models.{keep, decision_eq, ContextualAssessment}
use cryptiq.Advisor.Guardrails.{
  is_public_key, reject_for_hash, correct_agreement, correct_signature, reject_for_cipher,
  corrected, without_public_key, filtered, settled, enforce_guardrails,
}
use cryptiq.Advisor.Guardrails.Consistent.{
  Purpose, Fits, purpose_of, hash, agreement, signature, cipher, other,
  enforce_guardrails-IsConsistent,
}

-- A candidate that fits its purpose is not corrected.
corrected-eq_self :
    (b : ContextualAssessment) (algorithm deterministic : String) (purpose : Purpose)
    → purpose_of b.contextual_role deterministic ≡ purpose
    → Fits purpose b.migration_candidate
    → corrected b algorithm deterministic ≡ b
unfolding corrected purpose_of Fits
corrected-eq_self b algorithm deterministic hash e fits = ground (arith, e, fits)
corrected-eq_self b algorithm deterministic agreement e fits = ground (arith, e, fits)
corrected-eq_self b algorithm deterministic signature e fits = ground (arith, e, fits)
corrected-eq_self b algorithm deterministic cipher e fits = ground (arith, e, fits)
corrected-eq_self b algorithm deterministic other e fits = ground (arith, e)

without_public_key_twice :
    (alternatives : List String)
    → without_public_key (without_public_key alternatives) ≡ without_public_key alternatives
unfolding without_public_key
without_public_key_twice [] = refl
without_public_key_twice (first ∷ alternatives) = elim (Bool-cases (is_public_key (some first))) [
  | inl e ↦ rw e (without_public_key_twice alternatives)
  | inr e ↦ rw e (rw e (ap (λ rest. first ∷ rest) (without_public_key_twice alternatives)))
]

settled_twice : (b : ContextualAssessment) → settled (settled b) ≡ settled b
unfolding settled
settled_twice b = elim (Bool-cases (b.assessment == keep)) [
  | inl e ↦ rw e (rw e refl)
  | inr e ↦ rw e (rw e refl)
]

role-corrected :
    (a : ContextualAssessment) (algorithm deterministic : String)
    → (corrected a algorithm deterministic).contextual_role ≡ a.contextual_role
unfolding corrected reject_for_hash correct_agreement correct_signature reject_for_cipher
role-corrected a algorithm deterministic = ground arith

role-settled : (b : ContextualAssessment) → (settled b).contextual_role ≡ b.contextual_role
unfolding settled
role-settled b = ground arith

alternatives-settled : (b : ContextualAssessment) → (settled b).alternatives ≡ b.alternatives
unfolding settled
alternatives-settled b = ground arith

pub role-enforce_guardrails :
    (a : ContextualAssessment) (algorithm deterministic : String)
    → (enforce_guardrails a algorithm deterministic).contextual_role ≡ a.contextual_role
unfolding enforce_guardrails
role-enforce_guardrails a algorithm deterministic =
    role-settled
      (record (corrected a algorithm deterministic) { alternatives = filtered a deterministic })
    ∙ role-corrected a algorithm deterministic

alternatives-enforce_guardrails :
    (a : ContextualAssessment) (algorithm deterministic : String)
    → (enforce_guardrails a algorithm deterministic).alternatives ≡ filtered a deterministic
unfolding enforce_guardrails
alternatives-enforce_guardrails a algorithm deterministic =
    alternatives-settled
      (record (corrected a algorithm deterministic) { alternatives = filtered a deterministic })

filtered_twice :
    (a b : ContextualAssessment) (deterministic : String)
    → b.contextual_role ≡ a.contextual_role
    → b.alternatives ≡ filtered a deterministic
    → filtered b deterministic ≡ filtered a deterministic
unfolding filtered
filtered_twice a b deterministic same kept =
    ground (arith, same, kept, without_public_key_twice a.alternatives)

enforced :
    (b : ContextualAssessment) (algorithm deterministic : String)
    → corrected b algorithm deterministic ≡ b
    → filtered b deterministic ≡ b.alternatives
    → enforce_guardrails b algorithm deterministic ≡ settled b
unfolding enforce_guardrails
enforced b algorithm deterministic whole same =
    λ i. settled (record (whole i) { alternatives = same i })

settled-enforce_guardrails :
    (a : ContextualAssessment) (algorithm deterministic : String)
    → settled (enforce_guardrails a algorithm deterministic)
      ≡ enforce_guardrails a algorithm deterministic
unfolding enforce_guardrails
settled-enforce_guardrails a algorithm deterministic =
    settled_twice
      (record (corrected a algorithm deterministic) { alternatives = filtered a deterministic })

-- The guardrails, applied to what they give, change nothing.
enforce_guardrails_twice :
    (a : ContextualAssessment) (algorithm deterministic : String)
    → enforce_guardrails (enforce_guardrails a algorithm deterministic) algorithm deterministic
      ≡ enforce_guardrails a algorithm deterministic
enforce_guardrails_twice a algorithm deterministic =
    let b = enforce_guardrails a algorithm deterministic in
    let role = role-enforce_guardrails a algorithm deterministic in
    let kept = alternatives-enforce_guardrails a algorithm deterministic in
    let whole =
      corrected-eq_self b algorithm deterministic (purpose_of a.contextual_role deterministic)
        (ap (λ r. purpose_of r deterministic) role)
        (enforce_guardrails-IsConsistent a algorithm deterministic).0 in
    let same = filtered_twice a b deterministic role kept ∙ sym kept in
    enforced b algorithm deterministic whole same
    ∙ settled-enforce_guardrails a algorithm deterministic
