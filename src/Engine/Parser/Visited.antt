-- ===== src/Engine/Parser/Visited.antt =====
-- The walk with its stack visits the tree as a recursion over it does: `_walk` of
-- cryptiq/app/engine/parser/python.py.
use cryptiq.Shared.{String, Option, some, ◌≡◌, refl, sym, ◌∙◌}
use cryptiq.Engine.Parser.{
  Node, Nodes, Maybe, nil, cons, absent, present, import_names, import_from, function_def,
  async_function_def, class_def, call, keyword, attribute, name, assign, aug_assign, named_expr,
  ann_assign, arg, tuple, list, constant, other, children, append, one,
}
use cryptiq.Engine.Parser.Records.{Scope, scope_within, Builder}
use cryptiq.Engine.Parser.Walk.{record_node}

-- A node is recorded before its children, and these one after the other, in the scope that the node
-- opens.
module _ (path : String) where
  unfoldable mutual
    pub visit : Node → Option Node → Scope → Builder → Builder
    visit (import_names at names) parent scope b =
        record_node path (import_names at names) parent scope b
    visit (import_from at from_module names level) parent scope b =
        record_node path (import_from at from_module names level) parent scope b
    visit (function_def at id arguments body decorators returns params) parent scope b =
        let n = function_def at id arguments body decorators returns params in
        let inner = scope_within n scope in
        visit_all params n inner (
          visit_maybe returns n inner (
            visit_all decorators n inner (
              visit_all body n inner
                (visit arguments (some n) inner (record_node path n parent scope b)))))
    visit (async_function_def at id arguments body decorators returns params) parent scope b =
        let n = async_function_def at id arguments body decorators returns params in
        let inner = scope_within n scope in
        visit_all params n inner (
          visit_maybe returns n inner (
            visit_all decorators n inner (
              visit_all body n inner
                (visit arguments (some n) inner (record_node path n parent scope b)))))
    visit (class_def at id bases keywords body decorators params) parent scope b =
        let n = class_def at id bases keywords body decorators params in
        let inner = scope_within n scope in
        visit_all params n inner (
          visit_all decorators n inner (
            visit_all body n inner (
              visit_all keywords n inner
                (visit_all bases n inner (record_node path n parent scope b)))))
    visit (call at function arguments keywords) parent scope b =
        let n = call at function arguments keywords in
        visit_all keywords n scope (
          visit_all arguments n scope
            (visit function (some n) scope (record_node path n parent scope b)))
    visit (keyword at id value) parent scope b =
        let n = keyword at id value in
        visit value (some n) scope (record_node path n parent scope b)
    visit (attribute at value attr) parent scope b =
        let n = attribute at value attr in
        visit value (some n) scope (record_node path n parent scope b)
    visit (name at id context) parent scope b = record_node path (name at id context) parent scope b
    visit (assign at targets value) parent scope b =
        let n = assign at targets value in
        visit value (some n) scope (visit_all targets n scope (record_node path n parent scope b))
    visit (aug_assign at target value) parent scope b =
        let n = aug_assign at target value in
        visit value (some n) scope (visit target (some n) scope (record_node path n parent scope b))
    visit (named_expr at target value) parent scope b =
        let n = named_expr at target value in
        visit value (some n) scope (visit target (some n) scope (record_node path n parent scope b))
    visit (ann_assign at target annotation value) parent scope b =
        let n = ann_assign at target annotation value in
        visit_maybe value n scope (
          visit annotation (some n) scope
            (visit target (some n) scope (record_node path n parent scope b)))
    visit (arg at id annotation) parent scope b =
        let n = arg at id annotation in
        visit_maybe annotation n scope (record_node path n parent scope b)
    visit (tuple at elements) parent scope b =
        let n = tuple at elements in visit_all elements n scope (record_node path n parent scope b)
    visit (list at elements) parent scope b =
        let n = list at elements in visit_all elements n scope (record_node path n parent scope b)
    visit (constant at value) parent scope b = record_node path (constant at value) parent scope b
    visit (other at nodes) parent scope b =
        let n = other at nodes in visit_all nodes n scope (record_node path n parent scope b)

    pub visit_all : Nodes → Node → Scope → Builder → Builder
    visit_all nil parent scope b = b
    visit_all (cons n ns) parent scope b = visit_all ns parent scope (visit n (some parent) scope b)

    pub visit_maybe : Maybe → Node → Scope → Builder → Builder
    visit_maybe absent parent scope b = b
    visit_maybe (present n) parent scope b = visit n (some parent) scope b

  visit_all-append :
      (ms ns : Nodes) (parent : Node) (scope : Scope) (b : Builder)
      → visit_all (append ms ns) parent scope b
        ≡ visit_all ns parent scope (visit_all ms parent scope b)
  unfolding append visit_all
  visit_all-append nil ns parent scope b = refl
  visit_all-append (cons n ms) ns parent scope b =
      visit_all-append ms ns parent scope (visit n (some parent) scope b)

  visit_all-append_each :
      (a c d e : Nodes) (parent : Node) (scope : Scope) (b : Builder)
      → visit_all (append a (append c (append d e))) parent scope b
        ≡ visit_all e parent scope
            (visit_all d parent scope (visit_all c parent scope (visit_all a parent scope b)))
  visit_all-append_each a c d e parent scope b =
      visit_all-append a (append c (append d e)) parent scope b
      ∙ visit_all-append c (append d e) parent scope (visit_all a parent scope b)
      ∙ visit_all-append d e parent scope (visit_all c parent scope (visit_all a parent scope b))

  -- What follows the record of a node are its children.
  pub visit-children :
      (n : Node) (parent : Option Node) (scope : Scope) (b : Builder)
      → visit n parent scope b
        ≡ visit_all (children n) n (scope_within n scope) (record_node path n parent scope b)
  unfolding visit visit_all visit_maybe children scope_within
  visit-children (import_names at names) parent scope b = refl
  visit-children (import_from at from_module names level) parent scope b = refl
  visit-children (function_def at id arguments body decorators absent params) parent scope b = sym (
      visit_all-append_each body decorators nil params
        (function_def at id arguments body decorators absent params)
        (scope_within (function_def at id arguments body decorators absent params) scope)
        (visit arguments (some (function_def at id arguments body decorators absent params))
          (scope_within (function_def at id arguments body decorators absent params) scope)
          (record_node path (function_def at id arguments body decorators absent params) parent
            scope b)))
  visit-children (function_def at id arguments body decorators (present r) params) parent scope b =
      sym (
        visit_all-append_each body decorators (one r) params
          (function_def at id arguments body decorators (present r) params)
          (scope_within (function_def at id arguments body decorators (present r) params) scope)
          (visit arguments (some (function_def at id arguments body decorators (present r) params))
            (scope_within (function_def at id arguments body decorators (present r) params) scope)
            (record_node path (function_def at id arguments body decorators (present r) params)
              parent scope b)))
  visit-children (async_function_def at id arguments body decorators absent params) parent scope b =
      sym (
        visit_all-append_each body decorators nil params
          (async_function_def at id arguments body decorators absent params)
          (scope_within (async_function_def at id arguments body decorators absent params) scope)
          (visit arguments (some (async_function_def at id arguments body decorators absent params))
            (scope_within (async_function_def at id arguments body decorators absent params) scope)
            (record_node path (async_function_def at id arguments body decorators absent params)
              parent scope b)))
  visit-children (async_function_def at id arguments body decorators (present r) params) parent
        scope b =
      sym (
        visit_all-append_each body decorators (one r) params
          (async_function_def at id arguments body decorators (present r) params)
          (scope_within (async_function_def at id arguments body decorators (present r) params)
            scope)
          (visit arguments
            (some (async_function_def at id arguments body decorators (present r) params))
            (scope_within (async_function_def at id arguments body decorators (present r) params)
              scope)
            (record_node path
              (async_function_def at id arguments body decorators (present r) params) parent scope
              b)))
  visit-children (class_def at id bases keywords body decorators params) parent scope b = sym (
      visit_all-append bases (append keywords (append body (append decorators params)))
        (class_def at id bases keywords body decorators params)
        (scope_within (class_def at id bases keywords body decorators params) scope)
        (record_node path (class_def at id bases keywords body decorators params) parent scope b)
      ∙ visit_all-append_each keywords body decorators params
          (class_def at id bases keywords body decorators params)
          (scope_within (class_def at id bases keywords body decorators params) scope)
          (visit_all bases (class_def at id bases keywords body decorators params)
            (scope_within (class_def at id bases keywords body decorators params) scope)
            (record_node path (class_def at id bases keywords body decorators params) parent scope
              b)))
  visit-children (call at function arguments keywords) parent scope b = sym (
      visit_all-append arguments keywords (call at function arguments keywords) scope (
        visit function (some (call at function arguments keywords)) scope
          (record_node path (call at function arguments keywords) parent scope b)))
  visit-children (keyword at id value) parent scope b = refl
  visit-children (attribute at value attr) parent scope b = refl
  visit-children (name at id context) parent scope b = refl
  visit-children (assign at targets value) parent scope b = sym (
      visit_all-append targets (one value) (assign at targets value) scope
        (record_node path (assign at targets value) parent scope b))
  visit-children (aug_assign at target value) parent scope b = refl
  visit-children (named_expr at target value) parent scope b = refl
  visit-children (ann_assign at target annotation absent) parent scope b = refl
  visit-children (ann_assign at target annotation (present n)) parent scope b = refl
  visit-children (arg at id absent) parent scope b = refl
  visit-children (arg at id (present n)) parent scope b = refl
  visit-children (tuple at elements) parent scope b = refl
  visit-children (list at elements) parent scope b = refl
  visit-children (constant at value) parent scope b = refl
  visit-children (other at nodes) parent scope b = refl
