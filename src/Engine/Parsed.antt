-- ===== src/Engine/Parsed.antt =====
-- The part of a parsed file that the rules read: cryptiq/app/engine/parser/base.py.
use cryptiq.Shared.{
  ℕ, String, Bool, Option, none, some, List, [], ◌∷◌, ◌++◌, Eq, enum_eq, string_eq,
}
use cryptiq.Shared.Dict.{lookup}

-- An expression of the syntax tree, as far as the rules look at it.
mutual
  pub data Expr : Type 0 where
    name : String → Expr
    attribute : Expr → String → Expr
    call : Expr → Exprs → Expr
    other : Expr

  pub data Exprs : Type 0 where
    nil : Exprs
    cons : Expr → Exprs → Exprs

pub data SymbolKind : Type 0 where
  module_kind function async_function class_kind variable import_kind : SymbolKind

unfoldable pub SymbolKind-discrete : Discrete SymbolKind
SymbolKind-discrete = hlevel

instance abbrev pub symbol_kind_eq : Eq SymbolKind
symbol_kind_eq = enum_eq SymbolKind-discrete

pub data NameContext : Type 0 where
  load store delete : NameContext

pub record SourceLocation : Type 0 where
  pub start_line : ℕ
  pub end_line : ℕ
  pub start_column : ℕ
  pub end_column : ℕ

-- A definition; `parameters` is what the node of a function gives: the names of its parameters.
pub record Symbol : Type 0 where
  pub kind : SymbolKind
  pub name : String
  pub qualified_name : String
  pub parameters : Option (List String)

pub record CallArgument : Type 0 where
  pub keyword : Option String
  pub expression : Option String
  pub node : Expr

pub record Call : Type 0 where
  pub chain : Option (List String)
  pub attribute : Option String
  pub path : String
  pub location : SourceLocation
  pub enclosing_function : Option String
  pub enclosing_class : Option String
  pub arguments : List CallArgument

pub record NameReference : Type 0 where
  pub name : String
  pub context : NameContext
  pub enclosing_function : Option String

-- An assignment; `value` is the assigned expression of its node, if the node has one.
pub record Assignment : Type 0 where
  pub targets : List String
  pub value_expression : Option String
  pub value_call : Option String
  pub enclosing_function : Option String
  pub enclosing_class : Option String
  pub value : Option Expr

pub record Annotation : Type 0 where
  pub target : Option String
  pub annotation_chain : Option (List String)
  pub enclosing_function : Option String
  pub enclosing_class : Option String

pub record ParsedFile : Type 0 where
  pub path : String
  pub module_path : Option String
  pub import_index : List (String × String)
  pub symbols : List Symbol
  pub calls : List Call
  pub names : List NameReference
  pub assignments : List Assignment
  pub annotations : List Annotation
  pub parsed : Bool

-- `ParsedFile.resolve`
unfoldable pub resolve : ParsedFile → String → Option String
resolve file local_name = lookup local_name file.import_index

abbrev pub snoc_some : Option (List String) → String → Option (List String)
snoc_some none a = none
snoc_some (some parts) a = some (parts ++ a ∷ [])

-- `attribute_chain`: the links outwards from the bare name at the root.
unfoldable pub attribute_chain : Expr → Option (List String)
attribute_chain (name n) = some (n ∷ [])
attribute_chain (attribute e a) = snoc_some (attribute_chain e) a
attribute_chain _ = none
