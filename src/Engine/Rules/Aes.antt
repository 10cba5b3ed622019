-- ===== src/Engine/Rules/Aes.antt =====
-- The AES rule: cryptiq/app/engine/rules/aes.py.
use cryptiq.Shared.{
  String, Bool, true, false, Option, none, some, List, [], ◌∷◌, ◌==◌, string_eq, option_eq, pair_eq,
  if◌then◌else◌, contains,
}
use cryptiq.Shared.Parts.{format}
use cryptiq.Shared.Dict.{lookup, put}
use cryptiq.Engine.Parsed.{ParsedFile, Call, Assignment, Expr, Exprs}
use cryptiq.Engine.Match.{
  KeyKind, kind_eq, EvidenceBasis, MatchConfidence, CryptoOperation, RuleMatch,
}
use cryptiq.Engine.Resolution.{Scope, BindingKey, resolve_chain, resolve_dotted, member_of}
use cryptiq.Engine.Resolution.Assigned.{bound_name}
use cryptiq.Engine.Rules.Marker.{resolved_callee}

abbrev pub ciphers_module : String
ciphers_module = "cryptography.hazmat.primitives.ciphers"

abbrev pub algorithms_module : String
algorithms_module = "cryptography.hazmat.primitives.ciphers.algorithms"

abbrev pub aead_module : String
aead_module = "cryptography.hazmat.primitives.ciphers.aead"

abbrev pub cipher_class : String
cipher_class = "cryptography.hazmat.primitives.ciphers.Cipher"

abbrev pub block_algorithms : List String
block_algorithms = "AES" ∷ "AES128" ∷ "AES256" ∷ []

abbrev pub aead_algorithms : List String
aead_algorithms = "AESGCM" ∷ "AESGCMSIV" ∷ "AESCCM" ∷ "AESSIV" ∷ "AESOCB3" ∷ []

abbrev pub cipher_methods : List (String × CryptoOperation)
cipher_methods =
    ("encryptor", CryptoOperation.encrypt) ∷ ("decryptor", CryptoOperation.decrypt) ∷ []

abbrev pub aead_methods : List (String × CryptoOperation)
aead_methods = ("encrypt", CryptoOperation.encrypt) ∷ ("decrypt", CryptoOperation.decrypt) ∷ []

-- The member of a module that a path names, if it is one of a set.
unfoldable pub member_among : String → List String → Option String → Option String
member_among module_name names path = elim (member_of module_name path) [
  | none ↦ none
  | some m ↦ if contains names m then some m else none
]

-- `_match`
unfoldable pub aes_match :
    String → Call → String → CryptoOperation → MatchConfidence → EvidenceBasis → RuleMatch
aes_match version call api operation confidence basis = record {
  rule_id = "PY-CRYPTO-AES";
  ruleset_version = version;
  algorithm = "AES";
  primitive = "AES";
  library = "cryptography";
  api = api;
  operation = operation;
  file_path = call.path;
  location = call.location;
  confidence = confidence;
  evidence_basis = basis;
  enclosing_function = call.enclosing_function;
  enclosing_class = call.enclosing_class;
}

-- `_construction`
unfoldable pub construction : String → ParsedFile → Call → Option RuleMatch
construction version file call =
    let resolved = resolve_chain file call.chain in
    elim (member_among algorithms_module block_algorithms resolved) [
      | some m ↦ some (
          aes_match version call (format ("algorithms." ∷ m ∷ [])) CryptoOperation.construction
            MatchConfidence.high EvidenceBasis.direct_module_api)
      | none ↦ elim (member_among aead_module aead_algorithms resolved) [
        | some m ↦ some (
            aes_match version call (format ("aead." ∷ m ∷ [])) CryptoOperation.construction
              MatchConfidence.high EvidenceBasis.direct_module_api)
        | none ↦ none
      ]
    ]

unfoldable pub is_aes_call : ParsedFile → Expr → Bool
is_aes_call file argument =
    elim (member_among algorithms_module block_algorithms (resolved_callee file argument)) [
      | none ↦ false
      | some _ ↦ true
    ]

unfoldable pub any_aes_call : ParsedFile → Exprs → Bool
any_aes_call file Exprs.nil = false
any_aes_call file (Exprs.cons argument arguments) =
    if is_aes_call file argument then true else any_aes_call file arguments

-- `_uses_aes_algorithm`
unfoldable pub uses_aes_algorithm : ParsedFile → Option Expr → Bool
uses_aes_algorithm file (some (Expr.call callee arguments)) = any_aes_call file arguments
uses_aes_algorithm file _ = false

-- `_context_kind`
unfoldable pub context_kind : ParsedFile → Assignment → Option KeyKind
context_kind file assignment = elim (resolve_dotted file assignment.value_call) [
  | none ↦ none
  | some resolved ↦
      if resolved == cipher_class
      then if uses_aes_algorithm file assignment.value then some KeyKind.cipher else none
      else elim (member_among aead_module aead_algorithms (some resolved)) [
        | none ↦ none
        | some _ ↦ some KeyKind.aead
      ]
]

-- What the table holds for a name after one more assignment.
unfoldable pub next_context : Option (Option KeyKind) → Option KeyKind → Option KeyKind
next_context none kind = kind
next_context (some so_far) kind = if so_far == kind then kind else none

-- The loop of `_build_contexts`; the entries that hold nothing are dropped by the caller.
unfoldable pub contexts_from :
    ParsedFile
    → List Assignment
    → List (BindingKey × Option KeyKind)
    → List (BindingKey × Option KeyKind)
contexts_from file [] established = established
contexts_from file (assignment ∷ rest) established =
    contexts_from file rest (elim (bound_name assignment assignment.targets) [
      | none ↦ established
      | some key ↦
          put key (next_context (lookup key established) (context_kind file assignment)) established
    ])

unfoldable pub build_contexts : ParsedFile → List (BindingKey × Option KeyKind)
build_contexts file = contexts_from file file.assignments []

abbrev pub found_kind : Option (Option KeyKind) → Option KeyKind
found_kind none = none
found_kind (some kind) = kind

-- `index.get((function, receiver)) or index.get((None, receiver))`
unfoldable pub context_of : ParsedFile → Scope → String → Option KeyKind
context_of file scope receiver =
    elim (found_kind (lookup (scope, receiver) (build_contexts file))) [
      | some kind ↦ some kind
      | none ↦ found_kind (lookup (none, receiver) (build_contexts file))
    ]

-- `_context_method`, once the kind of the receiver is known.
unfoldable pub context_match : String → Call → KeyKind → String → Option RuleMatch
context_match version call kind method =
    let is_cipher = kind == KeyKind.cipher in
    elim (lookup method (if is_cipher then cipher_methods else aead_methods)) [
      | none ↦ none
      | some operation ↦ some (
          aes_match version call
            (format ((if is_cipher then "Cipher" else "AESAEAD") ∷ "." ∷ method ∷ [])) operation
            MatchConfidence.medium EvidenceBasis.constructor_assignment)
    ]

-- `_context_method`
unfoldable pub context_method : String → ParsedFile → Call → Option (List String) → Option RuleMatch
context_method version file call (some (receiver ∷ method ∷ [])) =
    elim (context_of file call.enclosing_function receiver) [
      | none ↦ none
      | some kind ↦ context_match version call kind method
    ]
context_method version file call chain = none

-- `AesRule.evaluate`
unfoldable pub evaluate_aes : String → ParsedFile → Option Call → Option RuleMatch
evaluate_aes version file none = none
evaluate_aes version file (some call) = elim (construction version file call) [
  | none ↦ context_method version file call call.chain
  | some found ↦ some found
]
