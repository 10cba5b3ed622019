-- ===== src/Triage/Impact.antt =====
-- The bounded impact graph: models.py and analyzer.py of cryptiq/app/engine/impact.
pub mod Graph
pub mod Closed
use cryptiq.Shared.{
  ℕ, String, Bool, true, false, Option, none, some, List, [], ◌∷◌, map, ◌==◌, string_eq, pair_eq,
  ◌>>=◌, if◌then◌else◌, not,
}
use cryptiq.Shared.Dict.{lookup, set_default, length}
use cryptiq.Shared.Parts.{format}
use cryptiq.Engine.Match.{MatchConfidence, RuleMatch}

pub data ImpactNodeType : Type 0 where
  algorithm api function class_type module_type file : ImpactNodeType

pub data ImpactRelationship : Type 0 where
  uses calls defined_in contains imports : ImpactRelationship

pub data ImpactScope : Type 0 where
  statically_observed scanned_repository : ImpactScope

-- `node_type.value`
unfoldable pub type_value : ImpactNodeType → String
type_value algorithm = "ALGORITHM"
type_value api = "API"
type_value function = "FUNCTION"
type_value class_type = "CLASS"
type_value module_type = "MODULE"
type_value file = "FILE"

-- `relationship.value`
unfoldable pub relationship_value : ImpactRelationship → String
relationship_value uses = "USES"
relationship_value calls = "CALLS"
relationship_value defined_in = "DEFINED_IN"
relationship_value contains = "CONTAINS"
relationship_value imports = "IMPORTS"

pub record ImpactNode : Type 0 where
  pub id : String
  pub node_type : ImpactNodeType
  pub label : String
  pub relationship : Option ImpactRelationship
  pub confidence : MatchConfidence

pub record ImpactEdge : Type 0 where
  pub source_id : String
  pub target_id : String
  pub relationship : ImpactRelationship
  pub confidence : MatchConfidence

pub record ImpactResult : Type 0 where
  pub scope : ImpactScope
  pub confidence : MatchConfidence
  pub nodes : List ImpactNode
  pub relationships : List ImpactEdge

-- `ImpactResult.node_count`
unfoldable pub node_count : ImpactResult → ℕ
node_count result = length result.nodes

abbrev pub EdgeKey : Type 0
EdgeKey = String × (String × String)

pub record ImpactGraph : Type 0 where
  pub nodes : List (String × ImpactNode)
  pub edges : List (EdgeKey × ImpactEdge)

-- `ImpactGraph.add_node`; the identifier that it returns is the node's.
unfoldable pub add_node : ImpactNode → ImpactGraph → ImpactGraph
add_node node graph = record graph { nodes = set_default node.id node graph.nodes }

abbrev pub is_missing : {A : Type 0} → Option A → Bool
is_missing none = true
is_missing (some _) = false

-- `ImpactGraph.add_edge`, with `none` for the `KeyError`.
unfoldable pub add_edge :
    String → String → ImpactRelationship → MatchConfidence → ImpactGraph → Option ImpactGraph
add_edge source_id target_id relationship confidence graph =
    if is_missing (lookup source_id graph.nodes)
    then none
    else if is_missing (lookup target_id graph.nodes)
    then none
    else let key : EdgeKey = (source_id, (target_id, relationship_value relationship)) in
      some (record graph {
        edges =
            set_default key
              (record {
                source_id = source_id;
                target_id = target_id;
                relationship = relationship;
                confidence = confidence;
              })
              graph.edges;
      })

-- `ImpactGraph.to_result`
unfoldable pub to_result : ImpactScope → MatchConfidence → ImpactGraph → ImpactResult
to_result scope confidence graph = record {
  scope = scope;
  confidence = confidence;
  nodes = map (λ entry. entry.1) graph.nodes;
  relationships = map (λ entry. entry.1) graph.edges;
}

-- `_node_id`
unfoldable pub node_id : ImpactNodeType → String → String
node_id node_type label = format (type_value node_type ∷ ":" ∷ label ∷ [])

abbrev pub node_of :
    ImpactNodeType → String → Option ImpactRelationship → MatchConfidence → ImpactNode
node_of node_type label relationship confidence = record {
  id = node_id node_type label;
  node_type = node_type;
  label = label;
  relationship = relationship;
  confidence = confidence;
}

-- `_link`: the graph and the identifier of the innermost element afterwards.
unfoldable pub link :
    ImpactNodeType
    → String
    → ImpactRelationship
    → MatchConfidence
    → ImpactGraph × String
    → Option (ImpactGraph × String)
link node_type label relationship confidence (graph, target_id) =
    let node = node_of node_type label (some relationship) confidence in
    elim (add_edge node.id target_id relationship confidence (add_node node graph)) [
      | none ↦ none
      | some linked ↦ some (linked, node.id)
    ]

-- `if label: innermost = _link(...)`, where the text may be missing or empty.
unfoldable pub link_if :
    ImpactNodeType
    → Option String
    → ImpactRelationship
    → MatchConfidence
    → ImpactGraph × String
    → Option (ImpactGraph × String)
link_if node_type none relationship confidence state = some state
link_if node_type (some label) relationship confidence state =
    if label == "" then some state else link node_type label relationship confidence state

-- The last step of `analyze`: the edge goes from the element to the file.
unfoldable pub link_file : String → MatchConfidence → ImpactGraph × String → Option ImpactGraph
link_file path confidence (graph, innermost) =
    let node = node_of ImpactNodeType.file path (some ImpactRelationship.defined_in) confidence in
    if path == ""
    then some graph
    else add_edge innermost node.id ImpactRelationship.defined_in confidence (add_node node graph)

-- `analyze`
unfoldable pub analyze : RuleMatch → Option String → Option ImpactResult
analyze found module_path =
    let root = node_of ImpactNodeType.algorithm found.algorithm none found.confidence in
    let empty : ImpactGraph = record { nodes = []; edges = [] } in
    do
      with_api ←
          link_if ImpactNodeType.api (some found.api) ImpactRelationship.uses found.confidence
            (add_node root empty, root.id)
      with_function ←
          link_if ImpactNodeType.function found.enclosing_function ImpactRelationship.calls
            found.confidence with_api
      with_class ←
          link_if ImpactNodeType.class_type found.enclosing_class ImpactRelationship.contains
            found.confidence with_function
      with_module ←
          link_if ImpactNodeType.module_type module_path ImpactRelationship.contains
            found.confidence with_class
      graph ← link_file found.file_path found.confidence with_module
      some (to_result ImpactScope.statically_observed found.confidence graph)
