-- ===== src/Engine/Resolution/Assigned.antt =====
-- The names that assignments establish, and the whole index: `_collect_assignments`, `build_index` and
-- `names_assigned_from` of cryptiq/app/engine/rules/resolution.py.
use cryptiq.Shared.{
  String, Bool, true, false, Option, none, some, List, [], ◌∷◌, ◌&&◌, ◌||◌, not, ◌==◌, string_eq,
  option_eq, pair_eq, if◌then◌else◌,
}
use cryptiq.Shared.Parts.{split}
use cryptiq.Shared.Dict.{lookup, put}
use cryptiq.Engine.Parsed.{ParsedFile, Assignment}
use cryptiq.Engine.Match.{KeyKind, kind_eq, EvidenceBasis, basis_eq, MatchConfidence}
use cryptiq.Engine.Resolution.{
  Scope, BindingKey, resolve_dotted, is_class_body, NamespaceSpec, member, get_named, Binding,
  Established, BindingIndex, lookup_binding,
}
use cryptiq.Engine.Resolution.Index.{is_identifier, collect_scopes, collect_annotations}

abbrev pub Outcomes : Type 0
Outcomes = List (BindingKey × Option Established)

-- The outcome that `merge` stores for a name that has one.
unfoldable pub merged : Bool → Option Established → Option Established → Option Established
merged replace_unknown none none = none
merged replace_unknown none (some new) = if replace_unknown then some new else none
merged replace_unknown (some old) none = none
merged replace_unknown (some old) (some new) = if old.kind == new.kind then some old else none

-- `merge`
unfoldable pub merge : Bool → BindingKey → Option Established → Outcomes → Outcomes
merge replace_unknown key established table = elim (lookup key table) [
  | none ↦ put key established table
  | some existing ↦ put key (merged replace_unknown existing established) table
]

-- `_constructed`
unfoldable pub constructed : ParsedFile → NamespaceSpec → Option String → Option Established
constructed file spec none = none
constructed file spec (some value_call) =
    elim (get_named spec.constructors (member spec file (some (split b'.' value_call)))) [
      | none ↦ none
      | some kind ↦ some (record { kind = kind; basis = EvidenceBasis.constructor_assignment })
    ]

-- `established_kind`
unfoldable pub established_kind : BindingIndex → Outcomes → Scope → String → Option KeyKind
established_kind index direct scope name = elim (lookup_binding index scope name) [
  | some binding ↦ some binding.kind
  | none ↦ elim (lookup (scope, name) direct) [
    | none ↦ none
    | some none ↦ none
    | some (some prior) ↦ some prior.kind
  ]
]

-- `_derived` at the parts of the called name.
unfoldable pub derived_from :
    BindingIndex → NamespaceSpec → Outcomes → Scope → List String → Option Established
derived_from index spec direct scope (receiver ∷ method ∷ []) =
    elim (lookup method spec.derivations) [
      | none ↦ none
      | some (source_kind, target_kind) ↦
          if established_kind index direct scope receiver == some source_kind
          then some (record { kind = target_kind; basis = EvidenceBasis.constructor_assignment })
          else none
    ]
derived_from index spec direct scope parts = none

-- `_derived`
unfoldable pub derived :
    BindingIndex → NamespaceSpec → Outcomes → Scope → Option String → Option Established
derived index spec direct scope none = none
derived index spec direct scope (some value_call) =
    derived_from index spec direct scope (split b'.' value_call)

-- `_aliased`
unfoldable pub aliased : BindingIndex → Outcomes → Scope → Option String → Option Established
aliased index direct scope none = none
aliased index direct scope (some value_expression) =
    if not (is_identifier value_expression)
    then none
    else elim (established_kind index direct scope value_expression) [
      | none ↦ none
      | some kind ↦ some (record { kind = kind; basis = EvidenceBasis.established_alias })
    ]

-- The name that an assignment binds, if it is one of the `candidates`.
unfoldable pub bound_name : Assignment → List String → Option BindingKey
bound_name assignment (target ∷ []) =
    if not (is_identifier target)
      || is_class_body assignment.enclosing_function assignment.enclosing_class
    then none
    else some (assignment.enclosing_function, target)
bound_name assignment targets = none

unfoldable pub candidates : List Assignment → List (Assignment × BindingKey)
candidates [] = []
candidates (assignment ∷ assignments) = elim (bound_name assignment assignment.targets) [
  | none ↦ candidates assignments
  | some key ↦ (assignment, key) ∷ candidates assignments
]

-- The loop that fills `direct`.
unfoldable pub merge_direct :
    ParsedFile → NamespaceSpec → List (Assignment × BindingKey) → Outcomes → Outcomes
merge_direct file spec [] direct = direct
merge_direct file spec ((assignment, key) ∷ rest) direct =
    merge_direct file spec rest
      (merge false key (constructed file spec assignment.value_call) direct)

-- `_derived(...) or _aliased(...)`
unfoldable pub inferred :
    BindingIndex → NamespaceSpec → Outcomes → Scope → Assignment → Option Established
inferred index spec direct scope assignment =
    elim (derived index spec direct scope assignment.value_call) [
      | none ↦ aliased index direct scope assignment.value_expression
      | some established ↦ some established
    ]

-- The loop that fills `combined`.
unfoldable pub merge_inferred :
    ParsedFile
    → NamespaceSpec
    → BindingIndex
    → Outcomes
    → List (Assignment × BindingKey)
    → Outcomes
    → Outcomes
merge_inferred file spec index direct [] combined = combined
merge_inferred file spec index direct ((assignment, key) ∷ rest) combined =
    merge_inferred file spec index direct rest (elim (constructed file spec assignment.value_call) [
      | some _ ↦ combined
      | none ↦ merge true key (inferred index spec direct key.0 assignment) combined
    ])

-- The last loop: what an annotation has bound is left alone.
unfoldable pub bind_established :
    Outcomes → List (BindingKey × Binding) → List (BindingKey × Binding)
bind_established [] bindings = bindings
bind_established ((key, none) ∷ rest) bindings = bind_established rest bindings
bind_established ((key, some established) ∷ rest) bindings =
    bind_established rest (elim (lookup key bindings) [
      | some _ ↦ bindings
      | none ↦
          put key
            (record {
              kind = established.kind;
              basis = established.basis;
              confidence = MatchConfidence.medium;
            })
            bindings
    ])

-- `_collect_assignments`
unfoldable pub collect_assignments : ParsedFile → NamespaceSpec → BindingIndex → BindingIndex
collect_assignments file spec index =
    let chosen = candidates file.assignments in
    let direct = merge_direct file spec chosen [] in
    let combined = merge_inferred file spec index direct chosen direct in
    record index { bindings = bind_established combined index.bindings }

-- `build_index`
unfoldable pub build_index : ParsedFile → NamespaceSpec → BindingIndex
build_index file spec =
    let empty : BindingIndex = record { bindings = []; locally_bound = []; function_scopes = [] } in
    collect_assignments file spec (collect_annotations file spec (collect_scopes file empty))

-- The loop of `names_assigned_from`.
unfoldable pub assigned_from :
    ParsedFile → String → List Assignment → List (BindingKey × Bool) → List (BindingKey × Bool)
assigned_from file callee [] outcome = outcome
assigned_from file callee (assignment ∷ rest) outcome =
    assigned_from file callee rest (elim (bound_name assignment assignment.targets) [
      | none ↦ outcome
      | some key ↦
          let matches = resolve_dotted file assignment.value_call == some callee in
          elim (lookup key outcome) [
            | none ↦ put key matches outcome
            | some so_far ↦ put key (so_far && matches) outcome
          ]
    ])

-- `names_assigned_from`
unfoldable pub names_assigned_from : ParsedFile → String → List (BindingKey × Bool)
names_assigned_from file callee = assigned_from file callee file.assignments []
