-- ===== src/Advisor/Guardrails/Consistent.antt =====
-- No assessment that passes the guardrails makes a category error: enforce_guardrails of
-- cryptiq/app/engine/context/guardrails.py.
use cryptiq.Shared.{
  String, Bool, true, false, Option, none, some, List, [], ◌∷◌, ◌≡◌, ◌≢◌, refl, arith, ◌==◌,
  if◌then◌else◌, Bool-cases, inl, inr, string_eq,
}
use cryptiq.Shared.Each.{Each}
use cryptiq.Shared.Text.{strip, lstrip, rstrip, upper, has_text, strip_prefix}
use cryptiq.Advisor.Models.{
  AssessmentDecision, AssessmentDecision-discrete, decision_eq, keep, review, migrate,
  insufficient_context, ContextualRole, contextual_role_eq, ContextualAssessment,
}
use cryptiq.Advisor.Guardrails.{
  signature_schemes, kem_schemes, any_in, matches_family, is_public_key, is_hash_role,
  is_agreement_role, is_signature_role, is_cipher_role, reject_for_hash, correct_agreement,
  correct_signature, reject_for_cipher, corrected, without_public_key, filtered, settled,
  enforce_guardrails,
}

-- What a construct is for, by both roles; a hash before a key establishment, that before a signature,
-- that before a cipher.
pub data Purpose : Type 0 where
  hash agreement signature cipher other : Purpose

unfoldable pub purpose_of : ContextualRole → String → Purpose
purpose_of role deterministic =
    if is_hash_role role deterministic
    then hash
    else if is_agreement_role role deterministic
    then agreement
    else if is_signature_role role deterministic
    then signature
    else if is_cipher_role role deterministic
    then cipher
    else other

-- The candidates that do not replace a construct of a purpose by one of another purpose.
unfoldable pub Fits : Purpose → Option String → Type 0
Fits hash candidate = is_public_key candidate ≡ false
Fits agreement candidate = matches_family candidate signature_schemes ≡ false
Fits signature candidate = matches_family candidate kem_schemes ≡ false
Fits cipher candidate = is_public_key candidate ≡ false
Fits other candidate = Unit

-- The alternatives of a hash are no public-key schemes.
unfoldable pub FitAll : Purpose → List String → Type 0
FitAll hash alternatives = Each alternatives (λ (a : String). is_public_key (some a) ≡ false)
FitAll agreement alternatives = Unit
FitAll signature alternatives = Unit
FitAll cipher alternatives = Unit
FitAll other alternatives = Unit

-- What is kept has no candidate and needs no migration.
unfoldable pub IsSettled : AssessmentDecision → Option String → Bool → Type 0
IsSettled keep candidate required = (candidate ≡ none) × (required ≡ false)
IsSettled review candidate required = Unit
IsSettled migrate candidate required = Unit
IsSettled insufficient_context candidate required = Unit

none-Fits : (purpose : Purpose) → Fits purpose none
unfolding Fits matches_family
none-Fits hash = refl
none-Fits agreement = refl
none-Fits signature = refl
none-Fits cipher = refl
none-Fits other = tt

kem-IsNoSignature : matches_family (some "ML-KEM-768") signature_schemes ≡ false
unfolding matches_family any_in has_text strip_prefix strip lstrip rstrip upper
kem-IsNoSignature = refl

signature-IsNoKem : matches_family (some "ML-DSA-65") kem_schemes ≡ false
unfolding matches_family any_in has_text strip_prefix strip lstrip rstrip upper
signature-IsNoKem = refl

without_public_key-Each :
    (alternatives : List String)
    → Each (without_public_key alternatives) (λ (a : String). is_public_key (some a) ≡ false)
unfolding without_public_key Each
without_public_key-Each [] = tt
without_public_key-Each (first ∷ alternatives) = elim (Bool-cases (is_public_key (some first))) [
  | inl e ↦ rw e (without_public_key-Each alternatives)
  | inr e ↦ rw e (e, without_public_key-Each alternatives)
]

-- The last step only takes a candidate away.
settled-Fits :
    (purpose : Purpose) (b : ContextualAssessment)
    → Fits purpose b.migration_candidate
    → Fits purpose (settled b).migration_candidate
unfolding settled
settled-Fits purpose b h = elim (Bool-cases (b.assessment == keep)) [
  | inl e ↦ rw (e, settled) (none-Fits purpose)
  | inr e ↦ rw (e, settled) h
]

alternatives-settled : (b : ContextualAssessment) → (settled b).alternatives ≡ b.alternatives
unfolding settled
alternatives-settled b = ground arith

not_kept-IsSettled :
    (decision : AssessmentDecision) (candidate : Option String) (required : Bool)
    → (decision == keep) ≡ false
    → IsSettled decision candidate required
unfolding IsSettled AssessmentDecision-discrete
not_kept-IsSettled keep candidate required h = absurd (ground (arith, h))
not_kept-IsSettled review candidate required h = tt
not_kept-IsSettled migrate candidate required h = tt
not_kept-IsSettled insufficient_context candidate required h = tt

kept-IsSettled : (decision : AssessmentDecision) → IsSettled decision none false
unfolding IsSettled
kept-IsSettled keep = (refl, refl)
kept-IsSettled review = tt
kept-IsSettled migrate = tt
kept-IsSettled insufficient_context = tt

settled-IsSettled :
    (b : ContextualAssessment)
    → IsSettled
        (settled b).assessment
        (settled b).migration_candidate
        (settled b).pqc_migration_required
unfolding settled
settled-IsSettled b = elim (Bool-cases (b.assessment == keep)) [
  | inl e ↦ rw (e, settled) (kept-IsSettled b.assessment)
  | inr e ↦ rw e (not_kept-IsSettled b.assessment b.migration_candidate b.pqc_migration_required e)
]

not_hash-FitAll :
    (purpose : Purpose) (alternatives : List String) → purpose ≢ hash → FitAll purpose alternatives
unfolding FitAll
not_hash-FitAll hash alternatives h = absurd (h refl)
not_hash-FitAll agreement alternatives h = tt
not_hash-FitAll signature alternatives h = tt
not_hash-FitAll cipher alternatives h = tt
not_hash-FitAll other alternatives h = tt

module _ (a : ContextualAssessment) (algorithm deterministic : String) where
  abbrev role : ContextualRole
  role = a.contextual_role

  abbrev candidate : Option String
  candidate = a.migration_candidate

  corrected-Fits :
      Fits (purpose_of role deterministic) (corrected a algorithm deterministic).migration_candidate
  unfolding corrected purpose_of Fits reject_for_hash correct_agreement correct_signature
      reject_for_cipher matches_family
  corrected-Fits = elim (Bool-cases (is_hash_role role deterministic)) [
    | inl h ↦ elim (Bool-cases (is_public_key candidate)) [
      | inl e ↦ rw (h, e, corrected, purpose_of) (none-Fits hash)
      | inr e ↦ rw (h, e, corrected, purpose_of) e
    ]
    | inr h ↦ elim (Bool-cases (is_agreement_role role deterministic)) [
      | inl g ↦ elim (Bool-cases (matches_family candidate signature_schemes)) [
        | inl e ↦ rw (h, g, e, corrected, purpose_of) kem-IsNoSignature
        | inr e ↦ rw (h, g, e, corrected, purpose_of) e
      ]
      | inr g ↦ elim (Bool-cases (is_signature_role role deterministic)) [
        | inl s ↦ elim (Bool-cases (matches_family candidate kem_schemes)) [
          | inl e ↦ rw (h, g, s, e, corrected, purpose_of) signature-IsNoKem
          | inr e ↦ rw (h, g, s, e, corrected, purpose_of) e
        ]
        | inr s ↦ elim (Bool-cases (is_cipher_role role deterministic)) [
          | inl c ↦ elim (Bool-cases (is_public_key candidate)) [
            | inl e ↦ rw (h, g, s, c, e, corrected, purpose_of) (none-Fits cipher)
            | inr e ↦ rw (h, g, s, c, e, corrected, purpose_of) e
          ]
          | inr c ↦ rw (h, g, s, c, corrected, purpose_of) tt
        ]
      ]
    ]
  ]

  filtered-hash :
      is_hash_role role deterministic ≡ true
      → filtered a deterministic ≡ without_public_key a.alternatives
  unfolding filtered is_hash_role
  filtered-hash h = ground (arith, h)

  purpose_of-ne-hash :
      is_hash_role role deterministic ≡ false → purpose_of role deterministic ≢ hash
  unfolding purpose_of
  purpose_of-ne-hash h = ground (arith, h)

  filtered-FitAll : FitAll (purpose_of role deterministic) (filtered a deterministic)
  unfolding purpose_of FitAll
  filtered-FitAll = elim (Bool-cases (is_hash_role role deterministic)) [
    | inl h ↦ rw (h, purpose_of) (rw (filtered-hash h) (without_public_key-Each a.alternatives))
    | inr h ↦
        not_hash-FitAll (purpose_of role deterministic) (filtered a deterministic)
          (purpose_of-ne-hash h)
  ]

  -- After the guardrails, a hash or a cipher has no public-key scheme as its candidate, a key
  -- establishment no signature scheme, and a signature no key encapsulation, each by the first of these
  -- purposes that the two roles give; the alternatives of a hash are no public-key schemes; and what is
  -- kept has no candidate and needs no migration.
  pub enforce_guardrails-IsConsistent :
      Fits
        (purpose_of role deterministic)
        (enforce_guardrails a algorithm deterministic).migration_candidate
      × FitAll
          (purpose_of role deterministic)
          (enforce_guardrails a algorithm deterministic).alternatives
      × IsSettled
          (enforce_guardrails a algorithm deterministic).assessment
          (enforce_guardrails a algorithm deterministic).migration_candidate
          (enforce_guardrails a algorithm deterministic).pqc_migration_required
  unfolding enforce_guardrails
  enforce_guardrails-IsConsistent =
      let b : ContextualAssessment = record (corrected a algorithm deterministic) {
        alternatives = filtered a deterministic;
      } in
      (
        settled-Fits (purpose_of role deterministic) b corrected-Fits,
        rw (alternatives-settled b) filtered-FitAll,
        settled-IsSettled b,
      )
