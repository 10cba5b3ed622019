-- ===== src/Engine/Parser/Walked.antt =====
-- The walk with its stack reaches its end, and comes to what the recursion over the tree does:
-- `_Builder._walk`, `_Builder.build` and `parse` of cryptiq/app/engine/parser/python.py.
use cryptiq.Shared.{
  ℕ, zero, suc, ◌+◌, ◌≤◌, String, none, some, List, [], ◌∷◌, ◌≡◌, refl, sym, ap, ◌∙◌, arith,
}
use cryptiq.Engine.Parser.{Node, Nodes, nil, cons, children, append, one}
use cryptiq.Engine.Parser.Records.{Scope, module_scope, scope_within, Builder, empty_builder}
use cryptiq.Engine.Parser.Walk.{record_node, Frame, reversed, push_all, walk, size, size_all}
use cryptiq.Engine.Parser.Visited.{visit, visit_all, visit-children}
use cryptiq.Engine.Parser.Sizes.{size-children}
use cryptiq.Engine.Parser.File.{finished, build, parse, failed}

abbrev frame_of : Node → Node → Scope → Frame
frame_of n parent scope = record { node = n; parent = some parent; scope = scope }

-- The frames of the children, the first on top.
frames : Nodes → Node → Scope → List Frame → List Frame
frames nil parent scope stack = stack
frames (cons n ns) parent scope stack = frame_of n parent scope ∷ frames ns parent scope stack

push_all-append :
    (ms ns : Nodes) (parent : Node) (scope : Scope) (stack : List Frame)
    → push_all (append ms ns) parent scope stack
      ≡ push_all ns parent scope (push_all ms parent scope stack)
unfolding append push_all
push_all-append nil ns parent scope stack = refl
push_all-append (cons n ms) ns parent scope stack =
    push_all-append ms ns parent scope (frame_of n parent scope ∷ stack)

push_all-reversed :
    (ns : Nodes) (parent : Node) (scope : Scope) (stack : List Frame)
    → push_all (reversed ns) parent scope stack ≡ frames ns parent scope stack
unfolding push_all reversed frames
push_all-reversed nil parent scope stack = refl
push_all-reversed (cons n ns) parent scope stack =
    push_all-append (reversed ns) (one n) parent scope stack
    ∙ ap (λ rest. frame_of n parent scope ∷ rest) (push_all-reversed ns parent scope stack)

total : List Frame → ℕ
total [] = 0
total (frame ∷ stack) = size frame.node + total stack

total-frames :
    (ns : Nodes) (parent : Node) (scope : Scope) (stack : List Frame)
    → total (frames ns parent scope stack) ≡ size_all ns + total stack
unfolding total frames size_all
total-frames nil parent scope stack = omega arith
total-frames (cons n ns) parent scope stack =
    let rest = total-frames ns parent scope stack in omega arith

visit_frames : String → List Frame → Builder → Builder
visit_frames path [] b = b
visit_frames path (frame ∷ stack) b =
    visit_frames path stack (visit path frame.node frame.parent frame.scope b)

visit_frames-frames :
    (path : String) (ns : Nodes) (parent : Node) (scope : Scope) (stack : List Frame) (b : Builder)
    → visit_frames path (frames ns parent scope stack) b
      ≡ visit_frames path stack (visit_all path ns parent scope b)
unfolding visit_frames frames visit_all
visit_frames-frames path nil parent scope stack b = refl
visit_frames-frames path (cons n ns) parent scope stack b =
    visit_frames-frames path ns parent scope stack (visit path n (some parent) scope b)

abbrev pushed : Frame → List Frame → List Frame
pushed frame stack =
    push_all (reversed (children frame.node)) frame.node (scope_within frame.node frame.scope) stack

abbrev recorded : String → Frame → Builder → Builder
recorded path frame b = record_node path frame.node frame.parent frame.scope b

-- One step pops a frame and pushes those of its children.
visit_frames-step :
    (path : String) (frame : Frame) (stack : List Frame) (b : Builder)
    → visit_frames path (pushed frame stack) (recorded path frame b)
      ≡ visit_frames path (frame ∷ stack) b
unfolding visit_frames
visit_frames-step path frame stack b =
    let n = frame.node in
    let inner = scope_within n frame.scope in
    let rest = recorded path frame b in
    ap (λ frames. visit_frames path frames rest) (push_all-reversed (children n) n inner stack)
    ∙ visit_frames-frames path (children n) n inner stack rest
    ∙ ap (visit_frames path stack) (sym (visit-children path n frame.parent frame.scope b))

total-step :
    (n : Node) (scope : Scope) (stack : List Frame)
    → suc (total (push_all (reversed (children n)) n scope stack)) ≡ size n + total stack
total-step n scope stack =
    let pushed = ap total (push_all-reversed (children n) n scope stack) in
    let counted = total-frames (children n) n scope stack in
    let whole = size-children n in omega arith

walk-visits :
    (path : String) (fuel : ℕ) (stack : List Frame) (b : Builder)
    → total stack ≤ fuel
    → walk path fuel stack b ≡ some (visit_frames path stack b)
unfolding walk visit_frames total
walk-visits path fuel [] b enough = refl
walk-visits path zero (frame ∷ stack) b enough =
    let counted = size-children frame.node in absurd (omega arith)
walk-visits path (suc fuel) (frame ∷ stack) b enough =
    let left = total-step frame.node (scope_within frame.node frame.scope) stack in
    walk-visits path fuel (pushed frame stack) (recorded path frame b) (omega arith)
    ∙ ap some (visit_frames-step path frame stack b)

abbrev top_of : Node → List Frame
top_of tree = record { node = tree; parent = none; scope = module_scope } ∷ []

size-enough : (tree : Node) → total (top_of tree) ≤ size tree
unfolding total
size-enough tree = omega arith

-- Parsing a tree ends, whatever the tree: the number of its nodes is fuel enough for the walk with
-- its stack, and the parsed file is made of what the recursion over the tree records, a node before its
-- children and these in order, each in the scope that its parent opens. If the source has no tree, the
-- file has nothing in it and is marked as not parsed.
pub parse-visits :
    (path : String) (tree : Node)
    → parse path none ≡ some (failed path)
      × parse path (some tree)
        ≡ some (finished path (visit path tree none module_scope empty_builder))
unfolding parse build visit_frames
parse-visits path tree =
    (refl, rw (walk-visits path (size tree) (top_of tree) empty_builder (size-enough tree)) refl)
