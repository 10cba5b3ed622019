-- ===== src/Engine/Parser/Sizes.antt =====
-- The fuel of the walk: a node counts one more than its children, in
-- cryptiq/app/engine/parser/python.py.
use cryptiq.Shared.{suc, ◌+◌, ◌≡◌, refl, arith}
use cryptiq.Engine.Parser.{
  Node, Nodes, Maybe, nil, cons, absent, present, import_names, import_from, function_def,
  async_function_def, class_def, call, keyword, attribute, name, assign, aug_assign, named_expr,
  ann_assign, arg, tuple, list, constant, other, children, append, one, at_most_one,
}
use cryptiq.Engine.Parser.Walk.{size, size_all, size_maybe}

size_all-append : (ms ns : Nodes) → size_all (append ms ns) ≡ size_all ms + size_all ns
unfolding append size_all
size_all-append nil ns = omega arith
size_all-append (cons n ms) ns = let rest = size_all-append ms ns in omega arith

size_all-append_each :
    (a c d e : Nodes)
    → size_all (append a (append c (append d e)))
      ≡ size_all a + (size_all c + (size_all d + size_all e))
size_all-append_each a c d e =
    let first = size_all-append a (append c (append d e)) in
    let second = size_all-append c (append d e) in let third = size_all-append d e in omega arith

size_all-at_most_one : (m : Maybe) → size_all (at_most_one m) ≡ size_maybe m
unfolding size_all size_maybe
size_all-at_most_one absent = refl
size_all-at_most_one (present n) = omega arith

size_all-one : (n : Node) → size_all (one n) ≡ size n
unfolding size_all
size_all-one n = omega arith

size_all-pair : (m n : Node) → size_all (cons m (one n)) ≡ size m + size n
unfolding size_all
size_all-pair m n = omega arith

pub size-children : (n : Node) → size n ≡ suc (size_all (children n))
unfolding size size_all size_maybe children
size-children (import_names at names) = refl
size-children (import_from at from_module names level) = refl
size-children (function_def at id arguments body decorators returns params) =
    let whole = size_all-append_each body decorators (at_most_one returns) params in
    let option = size_all-at_most_one returns in omega arith
size-children (async_function_def at id arguments body decorators returns params) =
    let whole = size_all-append_each body decorators (at_most_one returns) params in
    let option = size_all-at_most_one returns in omega arith
size-children (class_def at id bases keywords body decorators params) =
    let first = size_all-append bases (append keywords (append body (append decorators params))) in
    let whole = size_all-append_each keywords body decorators params in omega arith
size-children (call at function arguments keywords) =
    let whole = size_all-append arguments keywords in omega arith
size-children (keyword at id value) = omega arith
size-children (attribute at value attr) = omega arith
size-children (name at id context) = refl
size-children (assign at targets value) =
    let whole = size_all-append targets (one value) in omega arith
size-children (aug_assign at target value) = omega arith
size-children (named_expr at target value) = omega arith
size-children (ann_assign at target annotation value) =
    let option = size_all-at_most_one value in omega arith
size-children (arg at id annotation) = let option = size_all-at_most_one annotation in omega arith
size-children (tuple at elements) = refl
size-children (list at elements) = refl
size-children (constant at value) = refl
size-children (other at nodes) = refl
