-- ===== src/Report/Fingerprint.antt =====
-- The identities of the findings: cryptiq/app/engine/fingerprints. The hash (SHA-256, in hexadecimal)
-- is an argument.
pub mod Payload
use cryptiq.Shared.{
  String, Bool, true, false, Option, none, some, List, [], ◌∷◌, if◌then◌else◌, map,
}
use cryptiq.Shared.Text.{strip, upper, lower, has_char}
use cryptiq.Shared.Parts.{join, format}

-- The code of `_SEPARATOR`.
abbrev pub separator : String
separator = "\u{1f}"

unfoldable pub any_separator : List String → Bool
any_separator [] = false
any_separator (part ∷ parts) = if has_char 31 part then true else any_separator parts

-- The text that `fingerprint` hashes, with `none` for its errors.
unfoldable pub payload : List String → Option String
payload [] = none
payload (part ∷ parts) =
    if any_separator (part ∷ parts) then none else some (join separator (part ∷ parts))

-- `fingerprint`
unfoldable pub fingerprint : (String → String) → List String → Option String
fingerprint digest parts = elim (payload parts) [ none ↦ none | some text ↦ some (digest text) ]

abbrev pub or_empty : Option String → String
or_empty none = ""
or_empty (some text) = text

pub record Labels : Type 0 where
  pub repository : String
  pub file_path : String
  pub rule_id : String
  pub algorithm : String
  pub api : String
  pub operation : String
  pub enclosing_function : Option String
  pub enclosing_class : Option String

-- The labelled parts of `finding_fingerprint`.
unfoldable pub labelled : Labels → List String
labelled l =
    format ("repository=" ∷ lower (strip l.repository) ∷ [])
    ∷ format ("file_path=" ∷ strip l.file_path ∷ [])
    ∷ format ("rule_id=" ∷ strip l.rule_id ∷ [])
    ∷ format ("algorithm=" ∷ upper (strip l.algorithm) ∷ [])
    ∷ format ("api=" ∷ strip l.api ∷ [])
    ∷ format ("operation=" ∷ upper (strip l.operation) ∷ [])
    ∷ format ("function=" ∷ strip (or_empty l.enclosing_function) ∷ [])
    ∷ format ("class=" ∷ strip (or_empty l.enclosing_class) ∷ [])
    ∷ []

-- `finding_fingerprint`
unfoldable pub finding_fingerprint : (String → String) → Labels → Option String
finding_fingerprint digest l = fingerprint digest (labelled l)
