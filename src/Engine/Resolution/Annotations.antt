-- ===== src/Engine/Resolution/Annotations.antt =====
-- The kinds that the annotations of a name find: the first loop of `_collect_annotations` in
-- cryptiq/app/engine/rules/resolution.py.
use cryptiq.Shared.{
  false, Option, none, some, List, [], ◌∷◌, ◌==◌, ◌≡◌, ◌⊎◌, inl, inr, refl, ap, sym, ◌∙◌, subst,
  arith, string_eq, option_eq, pair_eq, contains, Bool-cases,
}
use cryptiq.Shared.Dict.{lookup, put, lookup-put, IsDict, put-IsDict}
use cryptiq.Shared.Each.{Each, Has}
use cryptiq.Engine.Parsed.{ParsedFile, Annotation}
use cryptiq.Engine.Match.{KeyKind, kind_eq}
use cryptiq.Engine.Resolution.{BindingKey, NamespaceSpec}
use cryptiq.Engine.Resolution.Index.{annotated, add, get_kinds, find_kinds}

abbrev pub Kinds : Type 0
Kinds = List (BindingKey × List KeyKind)

abbrev pub Names : BindingKey → KeyKind → Option (BindingKey × KeyKind) → Type 0
Names key kind named = named ≡ some (key, kind)

-- The annotation is not one of the name, or it names the kind.
abbrev pub Agrees : BindingKey → KeyKind → Option (BindingKey × KeyKind) → Type 0
Agrees key kind none = Unit
Agrees key kind (some (other, found)) = ((other == key) ≡ false) ⊎ (found ≡ kind)

-- An annotation of the file names the kind for the name, and none of them names another.
unfoldable pub IsAnnotated : ParsedFile → NamespaceSpec → BindingKey → KeyKind → Type 0
IsAnnotated file spec key kind =
    Has file.annotations (λ annotation. Names key kind (annotated file spec annotation))
    × Each file.annotations (λ annotation. Agrees key kind (annotated file spec annotation))

found_after : Option (BindingKey × KeyKind) → Kinds → Kinds
found_after named found = elim named [
  | none ↦ found
  | some (key, kind) ↦ put key (add (get_kinds key found) kind) found
]

module _ (file : ParsedFile) (spec : NamespaceSpec) (key : BindingKey) (kind : KeyKind) where
  -- The name has no kind so far, or this one.
  unfoldable pub IsFree : Kinds → Type 0
  IsFree found = (lookup key found ≡ none) ⊎ (lookup key found ≡ some (kind ∷ []))

  added : (kinds : List KeyKind) → (kinds ≡ []) ⊎ (kinds ≡ kind ∷ []) → add kinds kind ≡ kind ∷ []
  unfolding add contains
  added kinds h = ground (arith, h, kind_eq.beq_iff kind kind)

  -- Only the name's own annotations matter, and they all name the kind.
  put-same :
      (found : Kinds)
      → IsFree found
      → lookup key (put key (add (get_kinds key found) kind) found) ≡ some (kind ∷ [])
  unfolding IsFree
  put-same found h =
      lookup-put key key (add (get_kinds key found) kind) found
      ∙ rw ((pair_eq.beq_iff key key).1 refl) (
          ap some (
            added (get_kinds key found) (elim h [
              | inl e ↦ inl (rw (e, get_kinds) refl)
              | inr e ↦ inr (rw (e, get_kinds) refl)
            ])))

  -- What holds of the kinds of the name before an annotation, and of this kind alone, holds after it.
  found_after-any :
      (P : Option (List KeyKind) → Type 0) (named : Option (BindingKey × KeyKind)) (found : Kinds)
      → Agrees key kind named
      → IsFree found
      → P (some (kind ∷ []))
      → P (lookup key found)
      → P (lookup key (found_after named found))
  unfolding found_after
  found_after-any P none found a h one before = before
  found_after-any P (some (other, other_kind)) found a h one before =
      elim (Bool-cases (other == key)) [
        | inr e ↦
            subst P
              (sym
                (lookup-put other key (add (get_kinds other found) other_kind) found ∙ rw e refl))
              before
        | inl e ↦ elim a [
          | inl n ↦ absurd (ground (arith, sym e ∙ n))
          | inr k ↦
              subst (λ at. P (lookup key (put at (add (get_kinds at found) other_kind) found)))
                (sym ((pair_eq.beq_iff other key).0 e))
                (subst (λ at. P (lookup key (put key (add (get_kinds key found) at) found))) (sym k)
                  (subst P (sym (put-same found h)) one))
        ]
      ]

  found_after-IsFree :
      (named : Option (BindingKey × KeyKind)) (found : Kinds)
      → Agrees key kind named
      → IsFree found
      → IsFree (found_after named found)
  unfolding IsFree
  found_after-IsFree named found a h =
      found_after-any (λ x. (x ≡ none) ⊎ (x ≡ some (kind ∷ []))) named found a h (inr refl) h

  found_after-here :
      (named : Option (BindingKey × KeyKind)) (found : Kinds)
      → Names key kind named
      → IsFree found
      → lookup key (found_after named found) ≡ some (kind ∷ [])
  unfolding found_after
  found_after-here named found n h =
      subst (λ x. lookup key (found_after x found) ≡ some (kind ∷ [])) (sym n) (put-same found h)

  find_kinds-kept :
      (annotations : List Annotation) (found : Kinds)
      → Each annotations (λ annotation. Agrees key kind (annotated file spec annotation))
      → lookup key found ≡ some (kind ∷ [])
      → lookup key (find_kinds file spec annotations found) ≡ some (kind ∷ [])
  unfolding find_kinds Each found_after IsFree
  find_kinds-kept [] found a h = h
  find_kinds-kept (annotation ∷ annotations) found (a, rest) h =
      find_kinds-kept annotations (found_after (annotated file spec annotation) found) rest (
        found_after-any (λ x. x ≡ some (kind ∷ [])) (annotated file spec annotation) found a (inr h)
          refl h)

  pub find_kinds-bound :
      (annotations : List Annotation) (found : Kinds)
      → Each annotations (λ annotation. Agrees key kind (annotated file spec annotation))
      → Has annotations (λ annotation. Names key kind (annotated file spec annotation))
      → IsFree found
      → lookup key (find_kinds file spec annotations found) ≡ some (kind ∷ [])
  unfolding find_kinds Each Has found_after
  find_kinds-bound [] found a n h = absurd n
  find_kinds-bound (annotation ∷ annotations) found (a, rest) (inl n) h =
      find_kinds-kept annotations (found_after (annotated file spec annotation) found) rest
        (found_after-here (annotated file spec annotation) found n h)
  find_kinds-bound (annotation ∷ annotations) found (a, rest) (inr n) h =
      find_kinds-bound annotations (found_after (annotated file spec annotation) found) rest n
        (found_after-IsFree (annotated file spec annotation) found a h)

pub find_kinds-IsDict :
    (file : ParsedFile) (spec : NamespaceSpec) (annotations : List Annotation) (found : Kinds)
    → IsDict found
    → IsDict (find_kinds file spec annotations found)
unfolding find_kinds found_after
find_kinds-IsDict file spec [] found d = d
find_kinds-IsDict file spec (annotation ∷ annotations) found d =
    find_kinds-IsDict file spec annotations (found_after (annotated file spec annotation) found)
      (after (annotated file spec annotation))
  where
    after : (named : Option (BindingKey × KeyKind)) → IsDict (found_after named found)
    after none = d
    after (some (key, kind)) = put-IsDict key (add (get_kinds key found) kind) found d
