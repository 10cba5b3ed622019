-- ===== src/Triage/Impact/Graph.antt =====
-- The graph of `analyze` (cryptiq/app/engine/impact/analyzer.py) is always built, and is closed.
use cryptiq.Shared.{
  ℕ, suc, ◌≤◌, String, false, Option, none, some, List, [], ◌∷◌, ◌==◌, ◌≡◌, refl, string_eq,
  pair_eq, Bool-cases, inl, inr, arith, beq_refl,
}
use cryptiq.Shared.Dict.{
  lookup, set_default, length, IsDict, lookup-set_default, set_default-IsDict,
}
use cryptiq.Engine.Match.{MatchConfidence}
use cryptiq.Triage.Impact.{
  ImpactNodeType, ImpactRelationship, ImpactNode, ImpactEdge, ImpactGraph, EdgeKey, add_node,
  is_missing, add_edge, node_of, link, link_if, relationship_value,
}

abbrev pub Nodes : Type 0
Nodes = List (String × ImpactNode)

unfoldable pub HaveIds : Nodes → Type 0
HaveIds [] = Unit
HaveIds ((id, node) ∷ nodes) = (id ≡ node.id) × HaveIds nodes

unfoldable pub IsIn : String → Nodes → Type 0
IsIn id nodes = is_missing (lookup id nodes) ≡ false

unfoldable pub EdgesIn : Nodes → List (EdgeKey × ImpactEdge) → Type 0
EdgesIn nodes [] = Unit
EdgesIn nodes ((_, edge) ∷ edges) =
    IsIn edge.source_id nodes × (IsIn edge.target_id nodes × EdgesIn nodes edges)

unfoldable pub IsGraph : ℕ → ImpactGraph → Type 0
IsGraph bound graph =
    IsDict graph.nodes
    × (HaveIds graph.nodes × (EdgesIn graph.nodes graph.edges × (length graph.nodes ≤ bound)))

-- A step has a result, a graph that holds the innermost element.
unfoldable pub IsLinked : ℕ → Option (ImpactGraph × String) → Type 0
IsLinked bound outcome =
    (state : ImpactGraph × String) × ((outcome ≡ some state)
      × (IsGraph bound state.0 × IsIn state.1 state.0.nodes))

pub IsIn-set_default :
    (id : String) (node : ImpactNode) (j : String) (nodes : Nodes)
    → IsIn j nodes
    → IsIn j (set_default id node nodes)
unfolding IsIn lookup
IsIn-set_default id node j nodes h =
    ground (arith, lookup-set_default id j node nodes, string_eq.beq_iff id j)

pub IsIn-new :
    (id : String) (node : ImpactNode) (nodes : Nodes) → IsIn id (set_default id node nodes)
unfolding IsIn lookup
IsIn-new id node nodes =
    ground (arith, lookup-set_default id id node nodes, beq_refl {A = String} id)

EdgesIn-set_default :
    (id : String) (node : ImpactNode) (nodes : Nodes) (edges : List (EdgeKey × ImpactEdge))
    → EdgesIn nodes edges
    → EdgesIn (set_default id node nodes) edges
unfolding EdgesIn
EdgesIn-set_default id node nodes [] h = tt
EdgesIn-set_default id node nodes ((key, edge) ∷ edges) (h, (i, k)) = (
  IsIn-set_default id node edge.source_id nodes h,
  (IsIn-set_default id node edge.target_id nodes i, EdgesIn-set_default id node nodes edges k),
)

EdgesIn-edge :
    (nodes : Nodes) (key : EdgeKey) (edge : ImpactEdge) (edges : List (EdgeKey × ImpactEdge))
    → IsIn edge.source_id nodes
    → IsIn edge.target_id nodes
    → EdgesIn nodes edges
    → EdgesIn nodes (set_default key edge edges)
unfolding EdgesIn set_default
EdgesIn-edge nodes key edge [] s t h = (s, (t, tt))
EdgesIn-edge nodes key edge ((j, other) ∷ edges) s t (h, (i, k)) = elim (Bool-cases (j == key)) [
  | inl e ↦ rw e (h, (i, k))
  | inr e ↦ rw e (h, (i, EdgesIn-edge nodes key edge edges s t k))
]

HaveIds-set_default :
    (node : ImpactNode) (nodes : Nodes) → HaveIds nodes → HaveIds (set_default node.id node nodes)
unfolding HaveIds set_default
HaveIds-set_default node [] h = (refl, tt)
HaveIds-set_default node ((j, other) ∷ nodes) (h, k) = elim (Bool-cases (j == node.id)) [
  | inl e ↦ rw e (h, k)
  | inr e ↦ rw e (h, HaveIds-set_default node nodes k)
]

length-set_default_le :
    (id : String) (node : ImpactNode) (nodes : Nodes)
    → length (set_default id node nodes) ≤ suc (length nodes)
unfolding set_default
length-set_default_le id node [] = omega arith
length-set_default_le id node ((j, other) ∷ nodes) =
    ground (arith, length-set_default_le id node nodes)

pub add_node-IsGraph :
    (bound : ℕ) (node : ImpactNode) (graph : ImpactGraph)
    → IsGraph bound graph
    → IsGraph (suc bound) (add_node node graph)
unfolding IsGraph add_node
add_node-IsGraph bound node graph (d, (h, (e, l))) = (
  set_default-IsDict node.id node graph.nodes d,
  (
    HaveIds-set_default node graph.nodes h,
    (
      EdgesIn-set_default node.id node graph.nodes graph.edges e,
      omega (arith, length-set_default_le node.id node graph.nodes),
    ),
  ),
)

-- An edge between nodes of the graph raises no error.
pub add_edge-IsGraph :
    (bound : ℕ) (source target : String) (r : ImpactRelationship) (c : MatchConfidence)
    (graph : ImpactGraph)
    → IsGraph bound graph
    → IsIn source graph.nodes
    → IsIn target graph.nodes
    → (after : ImpactGraph) × ((add_edge source target r c graph ≡ some after)
        × (IsGraph bound after × (after.nodes ≡ graph.nodes)))
unfolding IsGraph add_edge IsIn
add_edge-IsGraph bound source target r c graph (d, (h, (e, l))) s t =
    rw (s, t)
      (
        _,
        (
          refl,
          (
            (
              d,
              (
                h,
                (
                  EdgesIn-edge graph.nodes (source, (target, relationship_value r)) _ graph.edges s
                      t e,
                  l,
                ),
              ),
            ),
            refl,
          ),
        ),
      )

link-IsLinked :
    (bound : ℕ) (t : ImpactNodeType) (label : String) (r : ImpactRelationship) (c : MatchConfidence)
    (graph : ImpactGraph) (target : String)
    → IsGraph bound graph
    → IsIn target graph.nodes
    → IsLinked (suc bound) (link t label r c (graph, target))
unfolding link IsLinked add_node
link-IsLinked bound t label r c graph target g i =
    let node = node_of t label (some r) c in
    let new =
      add_edge-IsGraph (suc bound) node.id target r c (add_node node graph)
        (add_node-IsGraph bound node graph g) (IsIn-new node.id node graph.nodes)
        (IsIn-set_default node.id node target graph.nodes i) in
    rw (new.1.0, link)
      ((new.0, node.id), (refl, (new.1.1.0, rw new.1.1.1 (IsIn-new node.id node graph.nodes))))

IsLinked-weaken :
    (bound : ℕ) (graph : ImpactGraph) (target : String)
    → IsGraph bound graph
    → IsIn target graph.nodes
    → IsLinked (suc bound) (some (graph, target))
unfolding IsLinked IsGraph
IsLinked-weaken bound graph target (d, (h, (e, l))) i =
    ((graph, target), (refl, ((d, (h, (e, omega arith))), i)))

pub link_if-IsLinked :
    (bound : ℕ) (t : ImpactNodeType) (label : Option String) (r : ImpactRelationship)
    (c : MatchConfidence) (graph : ImpactGraph) (target : String)
    → IsGraph bound graph
    → IsIn target graph.nodes
    → IsLinked (suc bound) (link_if t label r c (graph, target))
unfolding link_if
link_if-IsLinked bound t none r c graph target g i = IsLinked-weaken bound graph target g i
link_if-IsLinked bound t (some label) r c graph target g i = elim (Bool-cases (label == "")) [
  | inl e ↦ rw e (IsLinked-weaken bound graph target g i)
  | inr e ↦ rw e (link-IsLinked bound t label r c graph target g i)
]
