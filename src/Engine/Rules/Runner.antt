-- ===== src/Engine/Rules/Runner.antt =====
-- The registry and the runner: registry.py and runner.py of cryptiq/app/engine/rules.
use cryptiq.Shared.{String, Option, none, some, List, [], ◌∷◌, ◌++◌, if◌then◌else◌}
use cryptiq.Shared.Sort.{sort_by, text_cmp, nat_cmp, then_cmp, Ordering}
use cryptiq.Engine.Parsed.{ParsedFile, Call}
use cryptiq.Engine.Match.{RuleMatch, operation_value}
use cryptiq.Engine.Rules.KeyPair.{KeyPairRule, evaluate_key_pair}
use cryptiq.Engine.Rules.Marker.{MarkerRule, evaluate_marker}
use cryptiq.Engine.Rules.Aes.{evaluate_aes}
use cryptiq.Engine.Rules.Hashes.{evaluate_hash}
use cryptiq.Engine.Rules.Tables.{rsa_rule, ecdsa_rule, ecdh_rule, ed25519_rule, x25519_rule}

-- The classes of rules.
pub data CryptoRule : Type 0 where
  key_pair : KeyPairRule → CryptoRule
  marker : MarkerRule → CryptoRule
  aes hashes : CryptoRule

unfoldable pub evaluate : String → CryptoRule → ParsedFile → Option Call → Option RuleMatch
evaluate version (key_pair rule) file call = evaluate_key_pair version rule file call
evaluate version (marker rule) file call = evaluate_marker version rule file call
evaluate version aes file call = evaluate_aes version file call
evaluate version hashes file call = evaluate_hash version file call

-- `all_rules()`: the registered rules in the order of their identifiers.
abbrev pub all_rules : List CryptoRule
all_rules =
    aes
    ∷ marker ecdh_rule
    ∷ marker ecdsa_rule
    ∷ key_pair ed25519_rule
    ∷ hashes
    ∷ key_pair rsa_rule
    ∷ key_pair x25519_rule
    ∷ []

-- `RuleMatch.sort_key`, as a comparison of two matches.
unfoldable pub compare_matches : RuleMatch → RuleMatch → Ordering
compare_matches a b = then_cmp (text_cmp a.file_path b.file_path) (
    then_cmp (nat_cmp a.location.start_line b.location.start_line) (
      then_cmp (nat_cmp a.location.start_column b.location.start_column) (
        then_cmp (text_cmp a.rule_id b.rule_id) (
          then_cmp (text_cmp a.api b.api)
            (text_cmp (operation_value a.operation) (operation_value b.operation))))))

-- The observations of the rules about one call.
unfoldable pub matches_of_call : String → List CryptoRule → ParsedFile → Call → List RuleMatch
matches_of_call version [] file call = []
matches_of_call version (rule ∷ rules) file call = elim (evaluate version rule file (some call)) [
  | none ↦ matches_of_call version rules file call
  | some found ↦ found ∷ matches_of_call version rules file call
]

unfoldable pub matches_of_calls : String → List CryptoRule → ParsedFile → List Call → List RuleMatch
matches_of_calls version rules file [] = []
matches_of_calls version rules file (call ∷ calls) =
    matches_of_call version rules file call ++ matches_of_calls version rules file calls

-- `evaluate_file`
unfoldable pub evaluate_file : String → List CryptoRule → ParsedFile → List RuleMatch
evaluate_file version rules file =
    if file.parsed
    then sort_by compare_matches (matches_of_calls version rules file file.calls)
    else []

unfoldable pub gather : String → List CryptoRule → List ParsedFile → List RuleMatch
gather version rules [] = []
gather version rules (file ∷ files) = evaluate_file version rules file ++ gather version rules files

-- `evaluate_files`
unfoldable pub evaluate_files : String → List CryptoRule → List ParsedFile → List RuleMatch
evaluate_files version rules files = sort_by compare_matches (gather version rules files)
