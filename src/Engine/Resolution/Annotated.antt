-- ===== src/Engine/Resolution/Annotated.antt =====
-- What an annotation binds: `_collect_annotations` and the loops after it in
-- cryptiq/app/engine/rules/resolution.py.
use cryptiq.Shared.{
  false, none, some, List, [], ◌∷◌, ◌==◌, ◌≡◌, inl, inr, refl, sym, ◌∙◌, subst, arith, string_eq,
  option_eq, pair_eq, Bool-cases, Option-cases,
}
use cryptiq.Shared.Dict.{lookup, put, lookup-put, IsDict}
use cryptiq.Engine.Parsed.{ParsedFile}
use cryptiq.Engine.Match.{KeyKind, kind_eq, EvidenceBasis, MatchConfidence}
use cryptiq.Engine.Resolution.{BindingKey, NamespaceSpec, Binding}
use cryptiq.Engine.Resolution.Index.{find_kinds, bind_kinds, collect_annotations}
use cryptiq.Engine.Resolution.Assigned.{
  Outcomes, bind_established, collect_assignments, build_index,
}
use cryptiq.Engine.Resolution.Annotations.{
  Kinds, IsAnnotated, IsFree, find_kinds-bound, find_kinds-IsDict,
}

-- What `_collect_annotations` binds a name to.
abbrev pub by_annotation : KeyKind → Binding
by_annotation kind = record {
  kind = kind;
  basis = EvidenceBasis.class_annotation;
  confidence = MatchConfidence.high;
}

-- The second loop passes on what it has bound the name to, and binds it at the name's own entry.
bind_kinds-kept :
    (key : BindingKey) (found : Kinds) (bindings : List (BindingKey × Binding))
    → lookup key found ≡ none
    → lookup key (bind_kinds found bindings) ≡ lookup key bindings
unfolding bind_kinds lookup
bind_kinds-kept key [] bindings h = refl
bind_kinds-kept key ((other, []) ∷ found) bindings h =
    bind_kinds-kept key found bindings (ground (arith, h))
bind_kinds-kept key ((other, kind ∷ []) ∷ found) bindings h =
    let away : (other == key) ≡ false = ground (arith, h) in
    bind_kinds-kept key found (put other (by_annotation kind) bindings) (ground (arith, h))
    ∙ lookup-put other key (by_annotation kind) bindings
    ∙ rw away refl
bind_kinds-kept key ((other, kind ∷ next ∷ kinds) ∷ found) bindings h =
    bind_kinds-kept key found bindings (ground (arith, h))

bind_kinds-bound :
    (key : BindingKey) (kind : KeyKind) (found : Kinds) (bindings : List (BindingKey × Binding))
    → IsDict found
    → lookup key found ≡ some (kind ∷ [])
    → lookup key (bind_kinds found bindings) ≡ some (by_annotation kind)
unfolding lookup bind_kinds
bind_kinds-bound key kind [] bindings d h = absurd (ground (arith, h))
bind_kinds-bound key kind ((other, kinds) ∷ found) bindings (fresh, d) h =
    elim (Bool-cases (other == key)) [
      | inl e ↦
          let mine : kinds ≡ kind ∷ [] = ground (arith, e, h) in
          subst
            (λ ks.
              lookup key (bind_kinds ((other, ks) ∷ found) bindings) ≡ some (by_annotation kind))
            (sym mine)
            (bind_kinds-kept key found (put other (by_annotation kind) bindings)
                (subst (λ at. lookup at found ≡ none) ((pair_eq.beq_iff other key).0 e) fresh)
              ∙ lookup-put other key (by_annotation kind) bindings
              ∙ rw e refl)
      | inr e ↦ past kinds (λ b. bind_kinds-bound key kind found b d (ground (arith, e, h)))
    ]
  where
    past :
        (own : List KeyKind)
        → ((b : List (BindingKey × Binding))
            → lookup key (bind_kinds found b) ≡ some (by_annotation kind))
        → lookup key (bind_kinds ((other, own) ∷ found) bindings) ≡ some (by_annotation kind)
    past [] next = next bindings
    past (one ∷ []) next = next (put other (by_annotation one) bindings)
    past (one ∷ two ∷ more) next = next bindings

bind_established-kept :
    (key : BindingKey) (binding : Binding) (rest : Outcomes)
    (bindings : List (BindingKey × Binding))
    → lookup key bindings ≡ some binding
    → lookup key (bind_established rest bindings) ≡ some binding
unfolding bind_established
bind_established-kept key binding [] bindings h = h
bind_established-kept key binding ((other, none) ∷ rest) bindings h =
    bind_established-kept key binding rest bindings h
bind_established-kept key binding ((other, some established) ∷ rest) bindings h =
    elim (Option-cases (lookup other bindings)) [
      | inr (taken, e) ↦ rw e (bind_established-kept key binding rest bindings h)
      | inl e ↦ elim (Bool-cases (other == key)) [
        | inl same ↦ absurd (
            none≢some (
              sym e
              ∙ subst (λ at. lookup at bindings ≡ some binding)
                  (sym ((pair_eq.beq_iff other key).0 same)) h))
        | inr away ↦
            rw e (
              bind_established-kept key binding rest _
                (lookup-put other key _ bindings ∙ rw away h))
      ]
    ]
  where
    none≢some : none ≡ some binding → ⊥
    none≢some p = cc

-- Whatever the assignments of the file, an annotated name is bound by its annotation.
pub build_index-annotated :
    (file : ParsedFile) (spec : NamespaceSpec) (key : BindingKey) (kind : KeyKind)
    → IsAnnotated file spec key kind
    → lookup key (build_index file spec).bindings ≡ some (by_annotation kind)
unfolding build_index collect_assignments collect_annotations IsAnnotated IsFree lookup
build_index-annotated file spec key kind (named, agreed) =
    bind_established-kept key (by_annotation kind) _ _ (
      bind_kinds-bound key kind (find_kinds file spec file.annotations []) _
        (find_kinds-IsDict file spec file.annotations [] tt)
        (find_kinds-bound file spec key kind file.annotations [] agreed named (inl refl)))
