-- ===== src/Engine/Resolution/Revived.antt =====
-- What the second round of `_collect_assignments` makes of a name that an earlier assignment left
-- unestablished (cryptiq/app/engine/rules/resolution.py).
use cryptiq.Shared.{
  true, none, some, List, [], ◌∷◌, ◌++◌, ◌≡◌, refl, beq_refl, string_eq, option_eq, pair_eq, subst,
  sym, ◌∙◌,
}
use cryptiq.Shared.Dict.{lookup}
use cryptiq.Engine.Parsed.{ParsedFile, Assignment}
use cryptiq.Engine.Match.{kind_eq}
use cryptiq.Engine.Resolution.{BindingKey, NamespaceSpec, Established, BindingIndex}
use cryptiq.Engine.Resolution.Assigned.{
  Outcomes, merged, merge, constructed, merge_inferred, inferred,
}
use cryptiq.Engine.Resolution.Direct.{lookup-merge, key_eq}

-- The second round over one more assignment.
abbrev one_more :
    ParsedFile
    → NamespaceSpec
    → BindingIndex
    → Outcomes
    → Assignment
    → BindingKey
    → Outcomes
    → Outcomes
one_more file spec index direct assignment key combined =
    elim (constructed file spec assignment.value_call) [
      | some _ ↦ combined
      | none ↦ merge true key (inferred index spec direct key.0 assignment) combined
    ]

merge_inferred-snoc :
    (file : ParsedFile) (spec : NamespaceSpec) (index : BindingIndex) (direct : Outcomes)
    (before : List (Assignment × BindingKey)) (assignment : Assignment) (key : BindingKey)
    (combined : Outcomes)
    → merge_inferred file spec index direct (before ++ (assignment, key) ∷ []) combined
      ≡ one_more file spec index direct assignment key
          (merge_inferred file spec index direct before combined)
unfolding merge_inferred
merge_inferred-snoc file spec index direct [] assignment key combined = refl
merge_inferred-snoc file spec index direct ((first, other) ∷ before) assignment key combined =
    merge_inferred-snoc file spec index direct before assignment key _

one_more-revives :
    (file : ParsedFile) (spec : NamespaceSpec) (index : BindingIndex) (direct combined : Outcomes)
    (assignment : Assignment) (key : BindingKey) (new : Established)
    → lookup key combined ≡ some none
    → constructed file spec assignment.value_call ≡ none
    → inferred index spec direct key.0 assignment ≡ some new
    → lookup key (one_more file spec index direct assignment key combined) ≡ some (some new)
unfolding merged
one_more-revives file spec index direct combined assignment key new h c i =
    let merging = merge true key (inferred index spec direct key.0 assignment) combined in
    subst (λ o. lookup key (elim o [ some _ ↦ combined | none ↦ merging ]) ≡ some (some new))
      (sym c)
      (lookup-merge true key key (inferred index spec direct key.0 assignment) combined
        ∙ rw (beq_refl {A = BindingKey} ⦃e = key_eq⦄ key) (rw h (rw i refl)))

-- A name that the assignments before it left without a kind, for having no known kind or two that
-- disagree, gets the kind of its last assignment, if that one derives or copies an established key.
pub merge_inferred-revives :
    (file : ParsedFile) (spec : NamespaceSpec) (index : BindingIndex) (direct combined : Outcomes)
    (before : List (Assignment × BindingKey)) (assignment : Assignment) (key : BindingKey)
    (new : Established)
    → lookup key (merge_inferred file spec index direct before combined) ≡ some none
    → constructed file spec assignment.value_call ≡ none
    → inferred index spec direct key.0 assignment ≡ some new
    → lookup key (merge_inferred file spec index direct (before ++ (assignment, key) ∷ []) combined)
      ≡ some (some new)
merge_inferred-revives file spec index direct combined before assignment key new h c i =
    let so_far = merge_inferred file spec index direct before combined in
    rw (merge_inferred-snoc file spec index direct before assignment key combined)
      (one_more-revives file spec index direct so_far assignment key new h c i)
