-- ===== src/Engine/Parser/Recorder.antt =====
-- What is recorded at a node: `_record` of cryptiq/app/engine/parser/python.py and the methods that it
-- calls.
use Prim.Native.String.{◌++◌ as join_text}
use cryptiq.Shared.{
  ℕ, zero, suc, String, Option, none, some, List, [], ◌∷◌, ◌++◌, ◌==◌, string_eq, if◌then◌else◌,
}
use cryptiq.Shared.Parts.{split}
use cryptiq.Engine.Parsed.{SourceLocation, SymbolKind, CallArgument, Call, Annotation}
use cryptiq.Engine.Parser.{
  Alias, Node, Nodes, Maybe, nil, cons, absent, present, keyword, attribute, arg, expr_of, children,
}
use cryptiq.Engine.Parser.Records.{
  Scope, qualify, entering_function, Builder, chain_of, joined, dotted_name, callee_of,
  target_names, join_module, or_else,
}

abbrev pub add_symbol :
    SourceLocation → SymbolKind → String → String → Option (List String) → Builder → Builder
add_symbol at kind id qualified parameters b = record b {
  symbols =
      b.symbols
      ++ (
        at,
        record { kind = kind; name = id; qualified_name = qualified; parameters = parameters },
      )
        ∷ [];
}

abbrev pub add_import : SourceLocation → String → String → Builder → Builder
add_import at local qualified b = add_symbol at SymbolKind.import_kind local local none (record b {
  imports = b.imports ++ (at, record { local_name = local; qualified_name = qualified }) ∷ [];
})

abbrev pub first_of : List String → String
first_of [] = ""
first_of (part ∷ parts) = part

-- The binding of one alias of an `import`: its name, and what that refers to.
unfoldable pub import_binding : Alias → String × String
import_binding alias =
    let local = or_else alias.asname (first_of (split 46 alias.name)) in
    elim alias.asname [
      | none ↦ (local, local)
      | some as_name ↦ if as_name == "" then (local, local) else (local, alias.name)
    ]

unfoldable pub record_import : SourceLocation → List Alias → Builder → Builder
unfolding import_binding
record_import at [] b = b
record_import at (alias ∷ aliases) b =
    record_import at aliases (add_import at (import_binding alias).0 (import_binding alias).1 b)

unfoldable pub dots : ℕ → String
dots zero = ""
dots (suc level) = join_text "." (dots level)

unfoldable pub record_import_from : SourceLocation → String → List Alias → Builder → Builder
record_import_from at prefix [] b = b
record_import_from at prefix (alias ∷ aliases) b =
    record_import_from at prefix aliases
      (add_import at (or_else alias.asname alias.name) (join_module prefix alias.name) b)

unfoldable pub build_annotation : Option String → Node → Scope → Annotation
build_annotation target annotation scope = record {
  target = target;
  annotation_chain = chain_of annotation;
  enclosing_function = scope.function;
  enclosing_class = scope.class_name;
}

abbrev pub add_annotation : SourceLocation → Annotation → Builder → Builder
add_annotation at annotation b = record b { annotations = b.annotations ++ (at, annotation) ∷ [] }

-- The names of the parameters, from the node of the arguments.
unfoldable pub parameter_names : Nodes → List String
parameter_names nil = []
parameter_names (cons (arg at id annotation) ns) = id ∷ parameter_names ns
parameter_names (cons n ns) = parameter_names ns

unfoldable pub record_function :
    SourceLocation → SymbolKind → String → Node → Maybe → Scope → Builder → Builder
unfolding parameter_names
record_function at kind id arguments absent scope b =
    add_symbol at kind id (qualify scope id) (some (parameter_names (children arguments))) b
record_function at kind id arguments (present returns) scope b =
    add_annotation at
      (build_annotation (some id) returns (entering_function scope (qualify scope id)))
      (add_symbol at kind id (qualify scope id) (some (parameter_names (children arguments))) b)

unfoldable pub record_class : SourceLocation → String → Scope → Builder → Builder
record_class at id scope b = add_symbol at SymbolKind.class_kind id (qualify scope id) none b

abbrev pub argument_of : Option String → Node → CallArgument
argument_of id value = record {
  keyword = id;
  expression = joined (chain_of value);
  node = expr_of value;
}

unfoldable pub positional : Nodes → List CallArgument
positional nil = []
positional (cons n ns) = argument_of none n ∷ positional ns

unfoldable pub by_keyword : Nodes → List CallArgument
by_keyword nil = []
by_keyword (cons (keyword at id value) ns) = argument_of id value ∷ by_keyword ns
by_keyword (cons n ns) = by_keyword ns

abbrev pub attribute_of : Node → Option String
attribute_of (attribute at value attr) = some attr
attribute_of n = none

unfoldable pub build_call : String → SourceLocation → Node → Nodes → Nodes → Scope → Call
unfolding positional by_keyword
build_call path at function arguments keywords scope = record {
  chain = chain_of function;
  attribute = attribute_of function;
  path = path;
  location = at;
  enclosing_function = scope.function;
  enclosing_class = scope.class_name;
  arguments = positional arguments ++ by_keyword keywords;
}

unfoldable pub record_attribute : SourceLocation → Node → String → Scope → Builder → Builder
record_attribute at value attr scope b = record b {
  attributes =
      b.attributes
      ++ (
        at,
        record {
          attribute = attr;
          chain = chain_of (attribute at value attr);
          enclosing_function = scope.function;
          enclosing_class = scope.class_name;
        },
      )
        ∷ [];
}

-- `_record_variable_symbols`
unfoldable pub record_variables : SourceLocation → List String → Scope → Builder → Builder
record_variables at [] scope b = b
record_variables at (id ∷ ids) scope b = record_variables at ids scope (elim scope.function [
  | none ↦ add_symbol at SymbolKind.variable id (qualify scope id) none b
  | some _ ↦ b
])

unfoldable pub record_assignment : SourceLocation → Nodes → Maybe → Scope → Builder → Builder
record_assignment at targets value scope b =
    record_variables at (target_names targets) scope (record b {
      assignments =
          b.assignments
          ++ (
            at,
            record {
              targets = target_names targets;
              value_expression = elim value [ absent ↦ none | present n ↦ dotted_name n ];
              value_call = elim value [ absent ↦ none | present n ↦ callee_of n ];
              enclosing_function = scope.function;
              enclosing_class = scope.class_name;
              value = elim value [ absent ↦ none | present n ↦ some (expr_of n) ];
            },
          )
            ∷ [];
    })

abbrev pub first_name : List String → Option String
first_name [] = none
first_name (id ∷ ids) = some id
