-- ===== src/Engine/Rules/Hashes.antt =====
-- The hash rule: cryptiq/app/engine/rules/hashes.py.
use cryptiq.Shared.{String, Option, none, some, List, [], ◌∷◌, string_eq}
use cryptiq.Shared.Parts.{format}
use cryptiq.Engine.Parsed.{ParsedFile, Call}
use cryptiq.Engine.Match.{EvidenceBasis, MatchConfidence, CryptoOperation, RuleMatch}
use cryptiq.Engine.Resolution.{resolve_chain, member_of, get_named}

abbrev pub hashes_module : String
hashes_module = "cryptography.hazmat.primitives.hashes"

-- `HASH_ALGORITHMS`
abbrev pub hash_names : List (String × String)
hash_names =
    ("MD5", "MD5")
    ∷ ("SHA1", "SHA-1")
    ∷ ("SHA224", "SHA-224")
    ∷ ("SHA256", "SHA-256")
    ∷ ("SHA384", "SHA-384")
    ∷ ("SHA512", "SHA-512")
    ∷ ("SHA512_224", "SHA-512/224")
    ∷ ("SHA512_256", "SHA-512/256")
    ∷ ("SHA3_224", "SHA3-224")
    ∷ ("SHA3_256", "SHA3-256")
    ∷ ("SHA3_384", "SHA3-384")
    ∷ ("SHA3_512", "SHA3-512")
    ∷ ("SHAKE128", "SHAKE128")
    ∷ ("SHAKE256", "SHAKE256")
    ∷ ("BLAKE2b", "BLAKE2b")
    ∷ ("BLAKE2s", "BLAKE2s")
    ∷ ("SM3", "SM3")
    ∷ []

-- `_match`
unfoldable pub hash_match : String → Call → String → String → RuleMatch
hash_match version call algorithm m = record {
  rule_id = "PY-CRYPTO-HASH";
  ruleset_version = version;
  algorithm = algorithm;
  primitive = "HASH";
  library = "cryptography";
  api = format ("hashes." ∷ m ∷ []);
  operation = CryptoOperation.hash;
  file_path = call.path;
  location = call.location;
  confidence = MatchConfidence.high;
  evidence_basis = EvidenceBasis.direct_module_api;
  enclosing_function = call.enclosing_function;
  enclosing_class = call.enclosing_class;
}

unfoldable pub named_hash : String → Call → Option String → Option RuleMatch
named_hash version call none = none
named_hash version call (some m) = elim (get_named hash_names (some m)) [
  | none ↦ none
  | some algorithm ↦ some (hash_match version call algorithm m)
]

-- `HashRule.evaluate`
unfoldable pub evaluate_hash : String → ParsedFile → Option Call → Option RuleMatch
evaluate_hash version file none = none
evaluate_hash version file (some call) = elim call.chain [
  | none ↦ none
  | some chain ↦ named_hash version call (member_of hashes_module (resolve_chain file (some chain)))
]
