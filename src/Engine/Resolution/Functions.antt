-- ===== src/Engine/Resolution/Functions.antt =====
-- The scopes of a file's functions: `collect_scopes` of cryptiq/app/engine/rules/resolution.py.
use cryptiq.Shared.{
  String, true, List, [], ◌∷◌, ◌==◌, ◌≡◌, ◌⊎◌, inl, inr, arith, string_eq, option_eq, contains,
  Bool-cases, Option-cases,
}
use cryptiq.Shared.Each.{Has}
use cryptiq.Engine.Parsed.{ParsedFile, Symbol, SymbolKind, symbol_kind_eq, NameReference}
use cryptiq.Engine.Resolution.{BindingIndex, NamespaceSpec}
use cryptiq.Engine.Resolution.Index.{
  add, bind_names, collect_function, collect_functions, is_load, collect_stores, collect_scopes,
  collect_annotations,
}
use cryptiq.Engine.Resolution.Assigned.{build_index, collect_assignments}

-- The file defines a function of the name.
unfoldable pub DefinesFunction : ParsedFile → String → Type 0
DefinesFunction file function = Has file.symbols (λ symbol.
    (symbol.qualified_name ≡ function)
    × ((symbol.kind ≡ SymbolKind.function) ⊎ (symbol.kind ≡ SymbolKind.async_function)))

contains-add :
    (xs : List String) (a b : String)
    → (contains xs b ≡ true) ⊎ (a ≡ b)
    → contains (add xs a) b ≡ true
unfolding add contains
contains-add xs a b h = ground (arith, h, string_eq.beq_iff a b)

module _ (function : String) where
  Knows : BindingIndex → Type 0
  Knows index = contains index.function_scopes function ≡ true

  collect_function-Knows :
      (symbol : Symbol) (index : BindingIndex)
      → Knows index ⊎ (symbol.qualified_name ≡ function)
      → Knows (collect_function symbol index)
  unfolding collect_function bind_names Knows
  collect_function-Knows symbol index h =
      let known = contains-add index.function_scopes symbol.qualified_name function h in
      elim (Option-cases symbol.parameters) [
        | inl e ↦ rw (e, collect_function) known
        | inr (names, e) ↦ rw (e, collect_function) known
      ]

  collect_functions-kept :
      (kind : SymbolKind) (symbols : List Symbol) (index : BindingIndex)
      → Knows index
      → Knows (collect_functions kind symbols index)
  unfolding collect_functions
  collect_functions-kept kind [] index h = h
  collect_functions-kept kind (symbol ∷ symbols) index h =
      collect_functions-kept kind symbols _ (elim (Bool-cases (symbol.kind == kind)) [
        | inl e ↦ rw e (collect_function-Knows symbol index (inl h))
        | inr e ↦ rw e h
      ])

  collect_functions-Knows :
      (kind : SymbolKind) (symbols : List Symbol) (index : BindingIndex)
      → Has symbols (λ symbol. (symbol.qualified_name ≡ function) × (symbol.kind ≡ kind))
      → Knows (collect_functions kind symbols index)
  unfolding collect_functions Has
  collect_functions-Knows kind [] index h = absurd h
  collect_functions-Knows kind (symbol ∷ symbols) index (inl (named, e)) =
      collect_functions-kept kind symbols _ (
        rw ((symbol_kind_eq.beq_iff symbol.kind kind).1 e)
          (collect_function-Knows symbol index (inr named)))
  collect_functions-Knows kind (symbol ∷ symbols) index (inr h) =
      collect_functions-Knows kind symbols _ h

  collect_stores-Knows :
      (references : List NameReference) (index : BindingIndex)
      → Knows index
      → Knows (collect_stores references index)
  unfolding collect_stores bind_names Knows
  collect_stores-Knows [] index h = h
  collect_stores-Knows (reference ∷ references) index h =
      collect_stores-Knows references _
        (elim (Bool-cases (is_load reference.context)) [ inl e ↦ rw e h | inr e ↦ rw e h ])

  by_kind :
      (symbols : List Symbol)
      → Has symbols (λ symbol.
        (symbol.qualified_name ≡ function)
        × ((symbol.kind ≡ SymbolKind.function) ⊎ (symbol.kind ≡ SymbolKind.async_function)))
      → Has symbols
          (λ symbol. (symbol.qualified_name ≡ function) × (symbol.kind ≡ SymbolKind.function))
        ⊎ Has symbols (λ symbol.
          (symbol.qualified_name ≡ function) × (symbol.kind ≡ SymbolKind.async_function))
  unfolding Has
  by_kind [] h = absurd h
  by_kind (symbol ∷ symbols) (inl (named, inl e)) = inl (inl (named, e))
  by_kind (symbol ∷ symbols) (inl (named, inr e)) = inr (inl (named, e))
  by_kind (symbol ∷ symbols) (inr h) = elim (by_kind symbols h) [
    | inl k ↦ inl (inr k)
    | inr k ↦ inr (inr k)
  ]

  pub build_index-function :
      (file : ParsedFile) (spec : NamespaceSpec)
      → DefinesFunction file function
      → contains (build_index file spec).function_scopes function ≡ true
  unfolding build_index collect_assignments collect_annotations collect_scopes DefinesFunction Knows
  build_index-function file spec h =
      collect_stores-Knows file.names _ (elim (by_kind file.symbols h) [
        | inl k ↦
            collect_functions-kept SymbolKind.async_function file.symbols _
              (collect_functions-Knows SymbolKind.function file.symbols _ k)
        | inr k ↦ collect_functions-Knows SymbolKind.async_function file.symbols _ k
      ])
