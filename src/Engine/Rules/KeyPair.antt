-- ===== src/Engine/Rules/KeyPair.antt =====
-- The key-class rules: cryptiq/app/engine/rules/keypair.py, and RsaRule of
-- cryptiq/app/engine/rules/rsa.py, which has the same methods.
use cryptiq.Shared.{String, Option, none, some, List, [], ◌∷◌, ◌==◌, string_eq, if◌then◌else◌}
use cryptiq.Shared.Text.{has_char}
use cryptiq.Shared.Parts.{format, partition}
use cryptiq.Shared.Dict.{lookup}
use cryptiq.Engine.Parsed.{ParsedFile, Call}
use cryptiq.Engine.Match.{
  KeyKind, kind_eq, EvidenceBasis, MatchConfidence, CryptoOperation, RuleMatch,
}
use cryptiq.Engine.Resolution.{NamespaceSpec, member, class_kind, lookup_binding}
use cryptiq.Engine.Resolution.Assigned.{build_index}

pub record KeyPairRule : Type 0 where
  pub rule_id : String
  pub algorithm : String
  pub primitive : String
  pub prefix : String
  pub spec : NamespaceSpec
  pub module_operations : List (String × CryptoOperation)
  pub method_operations : List (String × (CryptoOperation × KeyKind))
  pub canonical_class : List (KeyKind × String)

-- `_match`
unfoldable pub make_match :
    String
    → KeyPairRule
    → Call
    → String
    → CryptoOperation
    → MatchConfidence
    → EvidenceBasis
    → RuleMatch
make_match version rule call api operation confidence basis = record {
  rule_id = rule.rule_id;
  ruleset_version = version;
  algorithm = rule.algorithm;
  primitive = rule.primitive;
  library = "cryptography";
  api = api;
  operation = operation;
  file_path = call.path;
  location = call.location;
  confidence = confidence;
  evidence_basis = basis;
  enclosing_function = call.enclosing_function;
  enclosing_class = call.enclosing_class;
}

-- `_api`
unfoldable pub api_name : KeyPairRule → String → String
api_name rule m = if has_char b'.' m then m else format (rule.prefix ∷ "." ∷ m ∷ [])

-- `_imported_api`, once the member is known.
unfoldable pub member_match : String → KeyPairRule → Call → String → Option RuleMatch
member_match version rule call m = elim (lookup m rule.module_operations) [
  | some operation ↦ some (
      make_match version rule call (api_name rule m) operation MatchConfidence.high
        EvidenceBasis.direct_module_api)
  | none ↦
      let (class_name, method) = partition b'.' m in
      elim (class_kind rule.spec (some class_name)) [
        | none ↦ none
        | some kind ↦ elim (lookup method rule.method_operations) [
          | none ↦ none
          | some (operation, required) ↦
              if required == kind
              then some (
                  make_match version rule call (format (class_name ∷ "." ∷ method ∷ [])) operation
                    MatchConfidence.high EvidenceBasis.class_import)
              else none
        ]
      ]
]

-- `_imported_api`
unfoldable pub imported_api : String → KeyPairRule → ParsedFile → Call → Option RuleMatch
imported_api version rule file call = elim (member rule.spec file call.chain) [
  | none ↦ none
  | some m ↦ member_match version rule call m
]

-- `_receiver_api` on a chain of two names; a kind with no canonical class is a `KeyError`, which no
-- table of the program lets happen: it is `none` here.
unfoldable pub receiver_match :
    String → KeyPairRule → ParsedFile → Call → String → String → Option RuleMatch
receiver_match version rule file call receiver method =
    elim (lookup method rule.method_operations) [
      | none ↦ none
      | some (operation, required) ↦
          elim (lookup_binding (build_index file rule.spec) call.enclosing_function receiver) [
            | none ↦ none
            | some binding ↦
                if binding.kind == required
                then elim (lookup binding.kind rule.canonical_class) [
                  | none ↦ none
                  | some class_name ↦ some (
                      make_match version rule call (format (class_name ∷ "." ∷ method ∷ []))
                        operation binding.confidence binding.basis)
                ]
                else none
          ]
    ]

-- `_receiver_api`
unfoldable pub receiver_api :
    String → KeyPairRule → ParsedFile → Call → Option (List String) → Option RuleMatch
receiver_api version rule file call (some (receiver ∷ method ∷ [])) =
    receiver_match version rule file call receiver method
receiver_api version rule file call chain = none

-- `evaluate`
unfoldable pub evaluate_key_pair :
    String → KeyPairRule → ParsedFile → Option Call → Option RuleMatch
evaluate_key_pair version rule file none = none
evaluate_key_pair version rule file (some call) = elim call.chain [
  | none ↦ none
  | some _ ↦ elim (imported_api version rule file call) [
    | none ↦ receiver_api version rule file call call.chain
    | some found ↦ some found
  ]
]
