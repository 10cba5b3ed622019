-- ===== src/Engine/Resolution/Index.antt =====
-- `build_index` of cryptiq/app/engine/rules/resolution.py: the names of one file that provably hold a
-- key of one algorithm.
use Prim.Native.Char.{Char, code}
use cryptiq.Shared.{
  leb, nat_eq, String, Bool, true, false, Option, none, some, List, [], ◌∷◌, ◌++◌, ◌&&◌, ◌||◌, not,
  ◌==◌, Eq, string_eq, option_eq, pair_eq, if◌then◌else◌, contains,
}
use cryptiq.Shared.Dict.{lookup, put}
use cryptiq.Engine.Parsed.{
  ParsedFile, SymbolKind, symbol_kind_eq, NameContext, Symbol, NameReference, Annotation,
}
use cryptiq.Engine.Match.{KeyKind, kind_eq, EvidenceBasis, basis_eq, MatchConfidence}
use cryptiq.Engine.Resolution.{
  Scope, BindingKey, is_class_body, NamespaceSpec, member, class_kind, Binding, BindingIndex,
}

-- A character that may stand in an identifier; one outside ASCII counts as a letter.
unfoldable pub is_letter : Char → Bool
is_letter c =
    let n = code c in leb b'a' n && leb n b'z' || leb b'A' n && leb n b'Z' || n == b'_' || leb 128 n

unfoldable pub all_word : String → Bool
unfolding is_letter
all_word String.[] = true
all_word (String.◌∷◌ c s) = (is_letter c || leb b'0' (code c) && leb (code c) b'9') && all_word s

-- `str.isidentifier`
unfoldable pub is_identifier : String → Bool
unfolding all_word is_letter
is_identifier String.[] = false
is_identifier (String.◌∷◌ c s) = is_letter c && all_word s

-- `set.add`; the order of a set is not observed.
unfoldable pub add {ℓ} : {A : Type ℓ} ⦃e : Eq A⦄ → List A → A → List A
add xs a = if contains xs a then xs else a ∷ xs

abbrev pub get_set {ℓ} : {K : Type ℓ} ⦃e : Eq K⦄ → K → List (K × List String) → List String
get_set k d = elim (lookup k d) [ none ↦ [] | some xs ↦ xs ]

-- `locally_bound.setdefault(scope, set())` with names added to it.
unfoldable pub bind_names : Scope → List String → BindingIndex → BindingIndex
bind_names scope names index = record index {
  locally_bound = put scope (names ++ get_set scope index.locally_bound) index.locally_bound;
}

unfoldable pub collect_function : Symbol → BindingIndex → BindingIndex
collect_function symbol index =
    let named : BindingIndex = record index {
      function_scopes = add index.function_scopes symbol.qualified_name;
    } in
    elim symbol.parameters [
      | none ↦ named
      | some names ↦ bind_names (some symbol.qualified_name) names named
    ]

-- The inner loop of `collect_scopes`, over the symbols of one kind.
unfoldable pub collect_functions : SymbolKind → List Symbol → BindingIndex → BindingIndex
collect_functions kind [] index = index
collect_functions kind (symbol ∷ symbols) index =
    collect_functions kind symbols
      (if symbol.kind == kind then collect_function symbol index else index)

unfoldable pub is_load : NameContext → Bool
is_load NameContext.load = true
is_load NameContext.store = false
is_load NameContext.delete = false

unfoldable pub collect_stores : List NameReference → BindingIndex → BindingIndex
collect_stores [] index = index
collect_stores (reference ∷ references) index = collect_stores references (
    if is_load reference.context
    then index
    else bind_names reference.enclosing_function (reference.name ∷ []) index)

-- `collect_scopes`
unfoldable pub collect_scopes : ParsedFile → BindingIndex → BindingIndex
collect_scopes file index = collect_stores file.names (
    collect_functions SymbolKind.async_function file.symbols
      (collect_functions SymbolKind.function file.symbols index))

-- The kind that an annotation names for its target, if the loop of `_collect_annotations` takes it.
unfoldable pub annotated : ParsedFile → NamespaceSpec → Annotation → Option (BindingKey × KeyKind)
annotated file spec annotation = elim annotation.target [
  | none ↦ none
  | some target ↦
      if not (is_identifier target)
        || is_class_body annotation.enclosing_function annotation.enclosing_class
      then none
      else elim (class_kind spec (member spec file annotation.annotation_chain)) [
        | none ↦ none
        | some kind ↦ some ((annotation.enclosing_function, target), kind)
      ]
]

abbrev pub get_kinds : BindingKey → List (BindingKey × List KeyKind) → List KeyKind
get_kinds k d = elim (lookup k d) [ none ↦ [] | some xs ↦ xs ]

-- The first loop of `_collect_annotations`: the kinds found for each name.
unfoldable pub find_kinds :
    ParsedFile
    → NamespaceSpec
    → List Annotation
    → List (BindingKey × List KeyKind)
    → List (BindingKey × List KeyKind)
find_kinds file spec [] found = found
find_kinds file spec (annotation ∷ annotations) found =
    find_kinds file spec annotations (elim (annotated file spec annotation) [
      | none ↦ found
      | some (key, kind) ↦ put key (add (get_kinds key found) kind) found
    ])

-- The second loop: a name with one kind is bound.
unfoldable pub bind_kinds :
    List (BindingKey × List KeyKind) → List (BindingKey × Binding) → List (BindingKey × Binding)
bind_kinds [] bindings = bindings
bind_kinds ((key, kind ∷ []) ∷ found) bindings = bind_kinds found (
    put key
      (record {
        kind = kind;
        basis = EvidenceBasis.class_annotation;
        confidence = MatchConfidence.high;
      })
      bindings)
bind_kinds ((key, _) ∷ found) bindings = bind_kinds found bindings

-- `_collect_annotations`
unfoldable pub collect_annotations : ParsedFile → NamespaceSpec → BindingIndex → BindingIndex
collect_annotations file spec index = record index {
  bindings = bind_kinds (find_kinds file spec file.annotations []) index.bindings;
}
