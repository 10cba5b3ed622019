-- ===== src/Advisor/Extractor.antt =====
-- `extract_context` of cryptiq/app/engine/context/extractor.py, as the advisor calls it: with no
-- module name and no root to read from, so that the text around the finding is the excerpt.
use cryptiq.Shared.{
  ℕ, zero, suc, String, Bool, ◌||◌, Option, none, some, List, [], ◌∷◌, ◌++◌, ◌==◌, string_eq,
  if◌then◌else◌, contains,
}
use cryptiq.Shared.Text.{upper, has_text}
use cryptiq.Shared.Parts.{join, format}
use cryptiq.Shared.Sort.{sort_by, text_cmp}
use cryptiq.Advisor.Models.{
  ContextualRole, ExtractedContext, content_addressing, data_integrity, hashing,
  password_derivation,
}
use cryptiq.Advisor.Tokens.{tokenize}
use cryptiq.Advisor.Clues.{
  content_addressing_clues, data_integrity_clues, firmware_signing_clues, key_establishment_clues,
  password_clues,
}

-- `name or ''`
abbrev pub or_empty : Option String → String
or_empty none = ""
or_empty (some name) = name

unfoldable pub is_hash : String → String → Bool
is_hash role algorithm =
    upper role == "HASH"
    || (has_text "SHA" (upper algorithm)
        || (has_text "MD5" (upper algorithm) || has_text "BLAKE" (upper algorithm)))

unfoldable pub is_signing : String → String → Bool
is_signing role algorithm =
    upper role == "DIGITAL_SIGNATURE"
    || (has_text "ECDSA" (upper algorithm)
        || (has_text "ED25519" (upper algorithm) || has_text "RSA" (upper algorithm)))

unfoldable pub is_agreement : String → String → Bool
is_agreement role algorithm =
    upper role == "KEY_ESTABLISHMENT"
    || (has_text "ECDH" (upper algorithm) || has_text "X25519" (upper algorithm))

-- The clues among the tokens.
unfoldable pub found_among : List String → List String → List String
found_among tokens [] = []
found_among tokens (clue ∷ clues) =
    let rest = found_among tokens clues in if contains tokens clue then clue ∷ rest else rest

-- `sorted(tokens & clues)`
unfoldable pub matches_of : List String → List String → List String
unfolding found_among
matches_of tokens clues = sort_by text_cmp (found_among tokens clues)

unfoldable pub labelled : String → List String → List String
labelled label [] = []
labelled label (clue ∷ clues) = format (label ∷ ":" ∷ clue ∷ []) ∷ labelled label clues

-- The first of the three purposes of a hash that has clues.
unfoldable pub hash_purpose : List String → ContextualRole × List String
unfolding matches_of labelled
hash_purpose tokens = elim (matches_of tokens content_addressing_clues) [
  | clue ∷ clues ↦ (content_addressing, labelled "content_addressing" (clue ∷ clues))
  | [] ↦ elim (matches_of tokens data_integrity_clues) [
    | clue ∷ clues ↦ (data_integrity, labelled "data_integrity" (clue ∷ clues))
    | [] ↦ elim (matches_of tokens password_clues) [
      | clue ∷ clues ↦ (password_derivation, labelled "password_derivation" (clue ∷ clues))
      | [] ↦ (hashing, [])
    ]
  ]
]

-- `inferred_role` and `semantic_clues`.
unfoldable pub inferred : List String → String → String → ContextualRole × List String
unfolding is_hash is_agreement is_signing hash_purpose
inferred tokens role algorithm =
    if is_hash role algorithm
    then hash_purpose tokens
    else if is_agreement role algorithm
    then (
      ContextualRole.key_establishment,
      labelled "key_establishment" (matches_of tokens key_establishment_clues),
    )
    else if is_signing role algorithm
    then (
      ContextualRole.digital_signature,
      labelled "firmware_signing" (matches_of tokens firmware_signing_clues),
    )
    else (ContextualRole.unknown, [])

-- `clues[:n]`
abbrev pub take {ℓ} : {A : Type ℓ} → ℕ → List A → List A
take zero xs = []
take (suc n) [] = []
take (suc n) (x ∷ xs) = x ∷ take n xs

abbrev pub named : String → Option String → List String
named label none = []
named label (some name) = if name == "" then [] else format (label ∷ name ∷ []) ∷ []

unfoldable pub summary : String → Option String → Option String → List String → String
summary file_path function class clues = join "; " (
    format ("File: " ∷ file_path ∷ [])
    ∷ (named "Function: " function
        ++ (named "Class: " class ++ elim clues [
          | [] ↦ []
          | clue ∷ others ↦
              format ("Semantic clues: " ∷ join ", " (take 5 (clue ∷ others)) ∷ []) ∷ []
        ])))

unfoldable pub extract_context :
    String → String → Option String → Option String → String → String → String → ExtractedContext
unfolding inferred summary
extract_context fingerprint file_path function class excerpt role algorithm =
    let corpus = join " " (file_path ∷ or_empty function ∷ or_empty class ∷ "" ∷ excerpt ∷ []) in
    let (purpose, clues) = inferred (tokenize corpus) role algorithm in
    record {
      finding_fingerprint = fingerprint;
      file_path = file_path;
      enclosing_function = function;
      enclosing_class = class;
      module_name = none;
      semantic_clues = clues;
      inferred_role_candidate = purpose;
      context_summary = summary file_path function class clues;
    }
