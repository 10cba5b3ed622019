-- ===== src/Engine/Rules/Marker.antt =====
-- The rules whose evidence is an algorithm argument: cryptiq/app/engine/rules/marker.py.
use cryptiq.Shared.{
  String, Bool, true, false, Option, none, some, List, [], ◌∷◌, ◌==◌, ◌&&◌, string_eq, option_eq,
  pair_eq, if◌then◌else◌,
}
use cryptiq.Shared.Parts.{format}
use cryptiq.Shared.Dict.{lookup}
use cryptiq.Engine.Parsed.{ParsedFile, Call, CallArgument, Expr, attribute_chain}
use cryptiq.Engine.Match.{EvidenceBasis, MatchConfidence, CryptoOperation, RuleMatch}
use cryptiq.Engine.Resolution.{Scope, BindingKey, resolve_chain}
use cryptiq.Engine.Resolution.Index.{is_identifier}
use cryptiq.Engine.Resolution.Assigned.{names_assigned_from}

pub record MarkerRule : Type 0 where
  pub rule_id : String
  pub algorithm : String
  pub primitive : String
  pub marker : String
  pub method_operations : List (String × CryptoOperation)

-- What the callee of a call expression resolves to.
unfoldable pub resolved_callee : ParsedFile → Expr → Option String
resolved_callee file (Expr.call callee arguments) = resolve_chain file (attribute_chain callee)
resolved_callee file _ = none

-- `_is_direct_marker`
unfoldable pub is_direct_marker : MarkerRule → ParsedFile → CallArgument → Bool
is_direct_marker rule file argument = resolved_callee file argument.node == some rule.marker

unfoldable pub any_direct : MarkerRule → ParsedFile → List CallArgument → Bool
any_direct rule file [] = false
any_direct rule file (argument ∷ arguments) =
    if is_direct_marker rule file argument then true else any_direct rule file arguments

abbrev pub is_assigned : Option Bool → Bool
is_assigned none = false
is_assigned (some b) = b

-- An argument is a name that only the marker is assigned to.
unfoldable pub is_named : Scope → List (BindingKey × Bool) → CallArgument → Bool
is_named scope assigned argument = elim argument.expression [
  | none ↦ false
  | some name ↦ is_identifier name && is_assigned (lookup (scope, name) assigned)
]

unfoldable pub any_named : Scope → List (BindingKey × Bool) → List CallArgument → Bool
any_named scope assigned [] = false
any_named scope assigned (argument ∷ arguments) =
    if is_named scope assigned argument then true else any_named scope assigned arguments

-- `_evidence`
unfoldable pub evidence : MarkerRule → ParsedFile → Call → Option (MatchConfidence × EvidenceBasis)
evidence rule file call =
    if any_direct rule file call.arguments
    then some (MatchConfidence.high, EvidenceBasis.direct_module_api)
    else if any_named call.enclosing_function (names_assigned_from file rule.marker) call.arguments
    then some (MatchConfidence.medium, EvidenceBasis.constructor_assignment)
    else none

-- `evaluate`, for a call whose attribute is known.
unfoldable pub marked : String → MarkerRule → ParsedFile → Call → String → Option RuleMatch
marked version rule file call attribute = elim (lookup attribute rule.method_operations) [
  | none ↦ none
  | some operation ↦ elim (evidence rule file call) [
    | none ↦ none
    | some (confidence, basis) ↦ some (record {
      rule_id = rule.rule_id;
      ruleset_version = version;
      algorithm = rule.algorithm;
      primitive = rule.primitive;
      library = "cryptography";
      api = format (rule.algorithm ∷ "." ∷ attribute ∷ []);
      operation = operation;
      file_path = call.path;
      location = call.location;
      confidence = confidence;
      evidence_basis = basis;
      enclosing_function = call.enclosing_function;
      enclosing_class = call.enclosing_class;
    })
  ]
]

-- `evaluate`
unfoldable pub evaluate_marker : String → MarkerRule → ParsedFile → Option Call → Option RuleMatch
evaluate_marker version rule file none = none
evaluate_marker version rule file (some call) = elim call.attribute [
  | none ↦ none
  | some attribute ↦ marked version rule file call attribute
]
