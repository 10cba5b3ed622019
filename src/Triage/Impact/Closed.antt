-- ===== src/Triage/Impact/Closed.antt =====
-- Every match has a bounded impact: `analyze` of cryptiq/app/engine/impact/analyzer.py.
use cryptiq.Shared.{
  ℕ, suc, ◌≤◌, String, Bool, true, false, Option, none, some, List, [], ◌∷◌, map, ◌==◌, ◌≡◌, refl,
  string_eq, if◌then◌else◌, Bool-cases, inl, inr, arith, ◌>>=◌,
}
use cryptiq.Shared.Dict.{lookup, set_default, length, IsDict}
use cryptiq.Engine.Match.{MatchConfidence, RuleMatch}
use cryptiq.Triage.Impact.{
  ImpactNodeType, ImpactRelationship, ImpactScope, ImpactNode, ImpactEdge, ImpactResult,
  ImpactGraph, EdgeKey, node_count, add_node, to_result, node_of, link_file, analyze,
}
use cryptiq.Triage.Impact.Graph.{
  Nodes, HaveIds, IsIn, EdgesIn, IsGraph, IsLinked, add_node-IsGraph, add_edge-IsGraph,
  link_if-IsLinked, IsIn-new, IsIn-set_default,
}

-- Whether a node of the list has the identifier.
unfoldable pub has_node : String → List ImpactNode → Bool
has_node id [] = false
has_node id (node ∷ nodes) = if node.id == id then true else has_node id nodes

-- No two nodes have one identifier.
unfoldable pub AreDistinct : List ImpactNode → Type 0
AreDistinct [] = Unit
AreDistinct (node ∷ nodes) = (has_node node.id nodes ≡ false) × AreDistinct nodes

-- Both ends of each edge are nodes of the list.
unfoldable pub AreClosed : List ImpactNode → List ImpactEdge → Type 0
AreClosed nodes [] = Unit
AreClosed nodes (edge ∷ edges) =
    (has_node edge.source_id nodes ≡ true)
    × ((has_node edge.target_id nodes ≡ true) × AreClosed nodes edges)

unfoldable pub IsBounded : ImpactResult → Type 0
IsBounded result =
    AreClosed result.nodes result.relationships
    × (AreDistinct result.nodes × (node_count result ≤ 6))

abbrev values : Nodes → List ImpactNode
values nodes = map (λ entry. entry.1) nodes

has_node-values :
    (id : String) (nodes : Nodes)
    → HaveIds nodes
    → has_node id (values nodes) ≡ elim (lookup id nodes) [ none ↦ false | some _ ↦ true ]
unfolding has_node lookup HaveIds
has_node-values id [] h = refl
has_node-values id ((j, node) ∷ nodes) (h, k) = ground (arith, has_node-values id nodes k)

values-AreDistinct : (nodes : Nodes) → HaveIds nodes → IsDict nodes → AreDistinct (values nodes)
unfolding AreDistinct HaveIds
values-AreDistinct [] h d = tt
values-AreDistinct ((j, node) ∷ nodes) (h, k) (d, e) =
    (ground (arith, has_node-values node.id nodes k), values-AreDistinct nodes k e)

has_node-IsIn :
    (id : String) (nodes : Nodes)
    → HaveIds nodes
    → IsIn id nodes
    → has_node id (values nodes) ≡ true
unfolding IsIn
has_node-IsIn id nodes h i = ground (arith, has_node-values id nodes h)

values-AreClosed :
    (nodes : Nodes) (edges : List (EdgeKey × ImpactEdge))
    → HaveIds nodes
    → EdgesIn nodes edges
    → AreClosed (values nodes) (map (λ entry. entry.1) edges)
unfolding AreClosed EdgesIn
values-AreClosed nodes [] h e = tt
values-AreClosed nodes ((key, edge) ∷ edges) h (s, (t, e)) = (
  has_node-IsIn edge.source_id nodes h s,
  (has_node-IsIn edge.target_id nodes h t, values-AreClosed nodes edges h e),
)

length-values : (nodes : Nodes) → length (values nodes) ≡ length nodes
length-values [] = refl
length-values (node ∷ nodes) = omega (arith, length-values nodes)

to_result-IsBounded :
    (scope : ImpactScope) (c : MatchConfidence) (graph : ImpactGraph)
    → IsGraph 6 graph
    → IsBounded (to_result scope c graph)
unfolding IsBounded to_result IsGraph node_count
to_result-IsBounded scope c graph (d, (h, (e, l))) = (
  values-AreClosed graph.nodes graph.edges h e,
  (values-AreDistinct graph.nodes h d, omega (arith, length-values graph.nodes)),
)

unfoldable HasResult : Option ImpactResult → Type 0
HasResult outcome = (result : ImpactResult) × ((outcome ≡ some result) × IsBounded result)

-- The next steps need a graph that holds the innermost element.
then-HasResult :
    (bound : ℕ) (outcome : Option (ImpactGraph × String))
    (next : ImpactGraph × String → Option ImpactResult)
    → IsLinked bound outcome
    → ((graph : ImpactGraph) (id : String)
        → IsGraph bound graph
        → IsIn id graph.nodes
        → HasResult (next (graph, id)))
    → HasResult (outcome >>= next)
unfolding IsLinked
then-HasResult bound outcome next (state, (e, (g, i))) rest = rw e (rest state.0 state.1 g i)

IsGraph-weaken : (bound : ℕ) (graph : ImpactGraph) → IsGraph bound graph → IsGraph (suc bound) graph
unfolding IsGraph
IsGraph-weaken bound graph (d, (h, (e, l))) = (d, (h, (e, omega arith)))

link_file-HasResult :
    (path : String) (c d : MatchConfidence) (scope : ImpactScope) (graph : ImpactGraph)
    (id : String)
    → IsGraph 5 graph
    → IsIn id graph.nodes
    → HasResult (link_file path c (graph, id) >>= λ done. some (to_result scope d done))
unfolding link_file HasResult add_node
link_file-HasResult path c d scope graph id g i = elim (Bool-cases (path == "")) [
  | inl e ↦ rw e (_, (refl, to_result-IsBounded scope d graph (IsGraph-weaken 5 graph g)))
  | inr e ↦
      let node = node_of ImpactNodeType.file path (some ImpactRelationship.defined_in) c in
      let new =
        add_edge-IsGraph 6 id node.id ImpactRelationship.defined_in c (add_node node graph)
          (add_node-IsGraph 5 node graph g) (IsIn-set_default node.id node id graph.nodes i)
          (IsIn-new node.id node graph.nodes) in
      rw e (rw (new.1.0, link_file) (_, (refl, to_result-IsBounded scope d new.0 new.1.1.0)))
]

root-IsGraph : (node : ImpactNode) → IsGraph 1 (add_node node (record { nodes = []; edges = [] }))
unfolding IsGraph add_node set_default HaveIds EdgesIn lookup
root-IsGraph node = ((refl, tt), ((refl, tt), (tt, omega arith)))

-- Whatever the match, `analyze` raises no KeyError and its graph is bounded: both ends of each edge
-- are nodes of the graph, no two nodes share an identifier, and there are at most six nodes.
pub analyze-IsBounded :
    (found : RuleMatch) (module_path : Option String)
    → (result : ImpactResult) × ((analyze found module_path ≡ some result) × IsBounded result)
unfolding analyze HasResult add_node set_default
analyze-IsBounded found module_path =
    let c = found.confidence in
    let root = node_of ImpactNodeType.algorithm found.algorithm none c in
    let empty : ImpactGraph = record { nodes = []; edges = [] } in
    then-HasResult 2 _ _
      (link_if-IsLinked 1 ImpactNodeType.api (some found.api) ImpactRelationship.uses c
        (add_node root empty) root.id (root-IsGraph root) (IsIn-new root.id root []))
      (λ graph id g i.
        then-HasResult 3 _ _
          (link_if-IsLinked 2 ImpactNodeType.function found.enclosing_function
            ImpactRelationship.calls c graph id g i)
          (λ graph id g i.
            then-HasResult 4 _ _
              (link_if-IsLinked 3 ImpactNodeType.class_type found.enclosing_class
                ImpactRelationship.contains c graph id g i)
              (λ graph id g i.
                then-HasResult 5 _ _
                  (link_if-IsLinked 4 ImpactNodeType.module_type module_path
                    ImpactRelationship.contains c graph id g i)
                  (link_file-HasResult found.file_path c c ImpactScope.statically_observed))))
