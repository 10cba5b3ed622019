-- ===== src/Engine/Parser/Records.antt =====
-- What is recorded at a node: `_record` of cryptiq/app/engine/parser/python.py and the methods that it
-- calls. Each item stands with its location, by which it is sorted later.
use Prim.Native.String.{◌++◌ as join_text}
use cryptiq.Shared.{
  ℕ, String, Option, none, some, List, [], ◌∷◌, ◌++◌, ◌==◌, string_eq, ltb, if◌then◌else◌, every,
}
use cryptiq.Shared.Text.{ends_with}
use cryptiq.Shared.Parts.{join, format}
use cryptiq.Shared.Names.{suffix, stem, last_part}
use cryptiq.Engine.Parsed.{
  SourceLocation, Symbol, Call, NameReference, Assignment, Annotation, attribute_chain,
}
use cryptiq.Engine.Resolution.Index.{is_identifier}
use cryptiq.Engine.Parser.{
  Node, Nodes, nil, cons, function_def, async_function_def, class_def, call, attribute, name, tuple,
  list, constant, text, short, expr_of,
}

-- `_Scope`
pub record Scope : Type 0 where
  pub function : Option String
  pub class_name : Option String
  pub prefix : String

abbrev pub module_scope : Scope
module_scope = record { function = none; class_name = none; prefix = "" }

unfoldable pub qualify : Scope → String → String
qualify scope id = if scope.prefix == "" then id else format (scope.prefix ∷ "." ∷ id ∷ [])

unfoldable pub entering_function : Scope → String → Scope
entering_function scope qualified = record {
  function = some qualified;
  class_name = scope.class_name;
  prefix = qualified;
}

unfoldable pub entering_class : Scope → String → Scope
entering_class scope qualified = record {
  function = scope.function;
  class_name = some qualified;
  prefix = qualified;
}

-- `_scope_within`
unfoldable pub scope_within : Node → Scope → Scope
unfolding qualify entering_function entering_class
scope_within (function_def at id arguments body decorators returns params) scope =
    entering_function scope (qualify scope id)
scope_within (async_function_def at id arguments body decorators returns params) scope =
    entering_function scope (qualify scope id)
scope_within (class_def at id bases keywords body decorators params) scope =
    entering_class scope (qualify scope id)
scope_within n scope = scope

-- `PurePosixPath(path).parts[:-1]`, for the parts of a path.
unfoldable pub all_but_last : List String → List String
all_but_last [] = []
all_but_last (part ∷ []) = []
all_but_last (part ∷ next ∷ parts) = part ∷ all_but_last (next ∷ parts)

abbrev pub dotted : List String → Option String
dotted [] = none
dotted (part ∷ parts) =
    if every is_identifier (part ∷ parts) then some (join "." (part ∷ parts)) else none

-- `module_path_for`, on the parts of the path.
unfoldable pub module_path_for : List String → Option String
unfolding all_but_last
module_path_for parts =
    let file = last_part parts in
    if suffix file == ".py"
    then dotted
        (if file == "__init__.py" then all_but_last parts else all_but_last parts ++ stem file ∷ [])
    else none

pub record NodeContext : Type 0 where
  pub node : Node
  pub parent : Option Node
  pub function : Option String
  pub class_name : Option String

pub record ImportedName : Type 0 where
  pub local_name : String
  pub qualified_name : String

pub record AttributeAccess : Type 0 where
  pub attribute : String
  pub chain : Option (List String)
  pub enclosing_function : Option String
  pub enclosing_class : Option String

abbrev pub Located : Type 0 → Type 0
Located A = SourceLocation × A

-- The fields of `_Builder`.
pub record Builder : Type 0 where
  pub contexts : List NodeContext
  pub imports : List (Located ImportedName)
  pub symbols : List (Located Symbol)
  pub calls : List (Located Call)
  pub attributes : List (Located AttributeAccess)
  pub names : List (Located NameReference)
  pub assignments : List (Located Assignment)
  pub annotations : List (Located Annotation)

abbrev pub empty_builder : Builder
empty_builder = record {
  contexts = [];
  imports = [];
  symbols = [];
  calls = [];
  attributes = [];
  names = [];
  assignments = [];
  annotations = [];
}

abbrev pub chain_of : Node → Option (List String)
chain_of n = attribute_chain (expr_of n)

abbrev pub joined : Option (List String) → Option String
joined none = none
joined (some parts) = some (join "." parts)

-- `dotted_name`
unfoldable pub dotted_name : Node → Option String
dotted_name n = joined (chain_of n)

-- `_callee_of`
unfoldable pub callee_of : Node → Option String
unfolding dotted_name
callee_of (call at function arguments keywords) = dotted_name function
callee_of n = none

abbrev pub max_constant_length : ℕ
max_constant_length = 256

-- `_constant_of`: the literal, if it is short.
unfoldable pub constant_of : Node → Option String
constant_of (constant at (text size value)) =
    if ltb max_constant_length size then none else some value
constant_of (constant at (short value)) = some value
constant_of n = none

-- `_target_names`
unfoldable mutual
  unfolding dotted_name

  pub target_names : Nodes → List String
  target_names nil = []
  target_names (cons n ns) = target_name n ++ target_names ns

  pub target_name : Node → List String
  target_name (name at id context) = id ∷ []
  target_name (tuple at elements) = target_names elements
  target_name (list at elements) = target_names elements
  target_name (attribute at value attr) = elim (dotted_name (attribute at value attr)) [
    | none ↦ attr ∷ []
    | some whole ↦ whole ∷ []
  ]
  target_name n = []

-- `_join_module`
unfoldable pub join_module : String → String → String
join_module prefix id =
    if prefix == ""
    then id
    else if ends_with prefix "."
    then join_text prefix id
    else format (prefix ∷ "." ∷ id ∷ [])

abbrev pub or_else : Option String → String → String
or_else none other_name = other_name
or_else (some as_name) other_name = if as_name == "" then other_name else as_name
