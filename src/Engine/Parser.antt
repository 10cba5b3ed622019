-- ===== src/Engine/Parser.antt =====
-- The nodes of the `ast` module, as far as cryptiq/app/engine/parser/python.py looks at them: one
-- constructor for each class that it tells apart, with the fields in the order of `_fields`, and
-- `other` for the rest. The aliases of an import, and the markers of a name's context and of an operator,
-- are not nodes of their own: nothing is recorded for them but that they were met.
pub mod Records
pub mod Recorder
pub mod Walk
pub mod File
pub mod Visited
pub mod Sizes
pub mod Walked
pub mod Batch
pub mod Batched
mod Tests
use cryptiq.Shared.{ℕ, suc, ◌+◌, String, Option, none, some, List, [], ◌∷◌}
use cryptiq.Engine.Parsed.{SourceLocation, NameContext}
use cryptiq.Engine.Parsed as Parsed

-- The value of a literal: a text or bytes with their length, or anything else.
pub data Literal : Type 0 where
  text : ℕ → String → Literal
  short : String → Literal

-- `alias.name` and `alias.asname`
pub record Alias : Type 0 where
  pub name : String
  pub asname : Option String

mutual
  pub data Node : Type 0 where
    import_names : SourceLocation → List Alias → Node
    import_from : SourceLocation → Option String → List Alias → ℕ → Node
    -- name, arguments, body, decorators, returns, type parameters
    function_def : SourceLocation → String → Node → Nodes → Nodes → Maybe → Nodes → Node
    async_function_def : SourceLocation → String → Node → Nodes → Nodes → Maybe → Nodes → Node
    -- name, bases, keywords, body, decorators, type parameters
    class_def : SourceLocation → String → Nodes → Nodes → Nodes → Nodes → Nodes → Node
    -- function, arguments, keywords
    call : SourceLocation → Node → Nodes → Nodes → Node
    keyword : SourceLocation → Option String → Node → Node
    attribute : SourceLocation → Node → String → Node
    name : SourceLocation → String → NameContext → Node
    assign : SourceLocation → Nodes → Node → Node
    aug_assign : SourceLocation → Node → Node → Node
    named_expr : SourceLocation → Node → Node → Node
    -- target, annotation, value
    ann_assign : SourceLocation → Node → Node → Maybe → Node
    arg : SourceLocation → String → Maybe → Node
    tuple : SourceLocation → Nodes → Node
    list : SourceLocation → Nodes → Node
    constant : SourceLocation → Literal → Node
    other : SourceLocation → Nodes → Node

  pub data Nodes : Type 0 where
    nil : Nodes
    cons : Node → Nodes → Nodes

  -- A field that may be None.
  pub data Maybe : Type 0 where
    absent : Maybe
    present : Node → Maybe

unfoldable pub append : Nodes → Nodes → Nodes
append nil ns = ns
append (cons n ms) ns = cons n (append ms ns)

abbrev pub one : Node → Nodes
one n = cons n nil

abbrev pub at_most_one : Maybe → Nodes
at_most_one absent = nil
at_most_one (present n) = one n

-- `ast.iter_child_nodes`
unfoldable pub children : Node → Nodes
unfolding append
children (import_names at names) = nil
children (import_from at from_module names level) = nil
children (function_def at id arguments body decorators returns params) =
    cons arguments (append body (append decorators (append (at_most_one returns) params)))
children (async_function_def at id arguments body decorators returns params) =
    cons arguments (append body (append decorators (append (at_most_one returns) params)))
children (class_def at id bases keywords body decorators params) =
    append bases (append keywords (append body (append decorators params)))
children (call at function arguments keywords) = cons function (append arguments keywords)
children (keyword at id value) = one value
children (attribute at value attr) = one value
children (name at id context) = nil
children (assign at targets value) = append targets (one value)
children (aug_assign at target value) = cons target (one value)
children (named_expr at target value) = cons target (one value)
children (ann_assign at target annotation value) = cons target (cons annotation (at_most_one value))
children (arg at id annotation) = at_most_one annotation
children (tuple at elements) = elements
children (list at elements) = elements
children (constant at value) = nil
children (other at nodes) = nodes

-- `SourceLocation.from_node`
unfoldable pub location : Node → SourceLocation
location (import_names at names) = at
location (import_from at from_module names level) = at
location (function_def at id arguments body decorators returns params) = at
location (async_function_def at id arguments body decorators returns params) = at
location (class_def at id bases keywords body decorators params) = at
location (call at function arguments keywords) = at
location (keyword at id value) = at
location (attribute at value attr) = at
location (name at id context) = at
location (assign at targets value) = at
location (aug_assign at target value) = at
location (named_expr at target value) = at
location (ann_assign at target annotation value) = at
location (arg at id annotation) = at
location (tuple at elements) = at
location (list at elements) = at
location (constant at value) = at
location (other at nodes) = at

-- The expression that the rules see.
unfoldable mutual
  pub expr_of : Node → Parsed.Expr
  expr_of (name at id context) = Parsed.Expr.name id
  expr_of (attribute at value attr) = Parsed.Expr.attribute (expr_of value) attr
  expr_of (call at function arguments keywords) =
      Parsed.Expr.call (expr_of function) (exprs_of arguments)
  expr_of n = Parsed.Expr.other

  pub exprs_of : Nodes → Parsed.Exprs
  exprs_of nil = Parsed.Exprs.nil
  exprs_of (cons n ns) = Parsed.Exprs.cons (expr_of n) (exprs_of ns)
