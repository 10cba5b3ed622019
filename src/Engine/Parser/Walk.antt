-- ===== src/Engine/Parser/Walk.antt =====
-- The walk over the tree: `_Builder._record` and `_Builder._walk` of
-- cryptiq/app/engine/parser/python.py.
use Prim.Native.String.{◌++◌ as join_text}
use cryptiq.Shared.{ℕ, zero, suc, ◌+◌, String, Option, none, some, List, [], ◌∷◌, ◌++◌, string_eq}
use cryptiq.Engine.Parsed.{SymbolKind}
use cryptiq.Engine.Parser.{
  Node, Nodes, Maybe, nil, cons, absent, present, import_names, import_from, function_def,
  async_function_def, class_def, call, keyword, attribute, name, assign, aug_assign, named_expr,
  ann_assign, arg, tuple, list, constant, other, children, append, one,
}
use cryptiq.Engine.Parser.Records.{Scope, scope_within, Builder, target_names}
use cryptiq.Engine.Parser.Recorder.{
  record_import, dots, record_import_from, record_function, record_class, build_call,
  record_attribute, record_assignment, build_annotation, add_annotation, first_name,
}

abbrev pub or_empty : Option String → String
or_empty none = ""
or_empty (some text) = text

-- `_record`, after the context: nothing is recorded for any other class of node.
unfoldable pub record_kind : String → Node → Scope → Builder → Builder
record_kind path (import_names at names) scope b = record_import at names b
record_kind path (import_from at from_module names level) scope b =
    record_import_from at (join_text (dots level) (or_empty from_module)) names b
record_kind path (function_def at id arguments body decorators returns params) scope b =
    record_function at SymbolKind.function id arguments returns scope b
record_kind path (async_function_def at id arguments body decorators returns params) scope b =
    record_function at SymbolKind.async_function id arguments returns scope b
record_kind path (class_def at id bases keywords body decorators params) scope b =
    record_class at id scope b
record_kind path (call at function arguments keywords) scope b = record b {
  calls = b.calls ++ (at, build_call path at function arguments keywords scope) ∷ [];
}
record_kind path (attribute at value attr) scope b = record_attribute at value attr scope b
record_kind path (name at id context) scope b = record b {
  names =
      b.names
      ++ (at, record { name = id; context = context; enclosing_function = scope.function }) ∷ [];
}
record_kind path (assign at targets value) scope b =
    record_assignment at targets (present value) scope b
record_kind path (aug_assign at target value) scope b =
    record_assignment at (one target) (present value) scope b
record_kind path (named_expr at target value) scope b =
    record_assignment at (one target) (present value) scope b
record_kind path (ann_assign at target annotation value) scope b =
    record_assignment at (one target) value scope (
      add_annotation at (build_annotation (first_name (target_names (one target))) annotation scope)
        b)
record_kind path (arg at id (present annotation)) scope b =
    add_annotation at (build_annotation (some id) annotation scope) b
record_kind path n scope b = b

-- `_record`
unfoldable pub record_node : String → Node → Option Node → Scope → Builder → Builder
record_node path n parent scope b = record_kind path n scope (record b {
  contexts =
      b.contexts
      ++ record {
        node = n;
        parent = parent;
        function = scope.function;
        class_name = scope.class_name;
      }
        ∷ [];
})

-- An element of the stack.
pub record Frame : Type 0 where
  pub node : Node
  pub parent : Option Node
  pub scope : Scope

unfoldable pub reversed : Nodes → Nodes
reversed nil = nil
reversed (cons n ns) = append (reversed ns) (one n)

-- The pushes of the inner loop.
unfoldable pub push_all : Nodes → Node → Scope → List Frame → List Frame
push_all nil parent scope stack = stack
push_all (cons n ns) parent scope stack =
    push_all ns parent scope (record { node = n; parent = some parent; scope = scope } ∷ stack)

-- `_walk`, with fuel: none if it runs out.
unfoldable pub walk : String → ℕ → List Frame → Builder → Option Builder
walk path fuel [] b = some b
walk path zero (frame ∷ stack) b = none
walk path (suc fuel) (frame ∷ stack) b =
    walk path fuel
      (push_all (reversed (children frame.node)) frame.node (scope_within frame.node frame.scope)
        stack)
      (record_node path frame.node frame.parent frame.scope b)

-- The number of the nodes.
unfoldable mutual
  pub size : Node → ℕ
  size (import_names at names) = 1
  size (import_from at from_module names level) = 1
  size (function_def at id arguments body decorators returns params) = suc (
      size arguments
      + (size_all body + (size_all decorators + (size_maybe returns + size_all params))))
  size (async_function_def at id arguments body decorators returns params) = suc (
      size arguments
      + (size_all body + (size_all decorators + (size_maybe returns + size_all params))))
  size (class_def at id bases keywords body decorators params) = suc (
      size_all bases
      + (size_all keywords + (size_all body + (size_all decorators + size_all params))))
  size (call at function arguments keywords) =
      suc (size function + (size_all arguments + size_all keywords))
  size (keyword at id value) = suc (size value)
  size (attribute at value attr) = suc (size value)
  size (name at id context) = 1
  size (assign at targets value) = suc (size_all targets + size value)
  size (aug_assign at target value) = suc (size target + size value)
  size (named_expr at target value) = suc (size target + size value)
  size (ann_assign at target annotation value) =
      suc (size target + (size annotation + size_maybe value))
  size (arg at id annotation) = suc (size_maybe annotation)
  size (tuple at elements) = suc (size_all elements)
  size (list at elements) = suc (size_all elements)
  size (constant at value) = 1
  size (other at nodes) = suc (size_all nodes)

  pub size_all : Nodes → ℕ
  size_all nil = 0
  size_all (cons n ns) = size n + size_all ns

  pub size_maybe : Maybe → ℕ
  size_maybe absent = 0
  size_maybe (present n) = size n
