-- ===== src/Report/Evidence.antt =====
-- The source span behind a match: cryptiq/app/engine/evidence. The reading of a file of the snapshot is
-- an argument; it has no lines for a file that it cannot read, or that lies outside the root.
pub mod Span
use cryptiq.Shared.{
  ℕ, ◌+◌, ◌-◌, ltb, max, min, String, Bool, Option, none, some, List, [], ◌∷◌, if◌then◌else◌,
}
use cryptiq.Shared.Dict.{length}
use cryptiq.Shared.Parts.{join}
use cryptiq.Engine.Match.{RuleMatch}

abbrev pub max_excerpt_lines : ℕ
max_excerpt_lines = 40

pub record Evidence : Type 0 where
  pub repository_sha : String
  pub file_path : String
  pub start_line : ℕ
  pub end_line : ℕ
  pub source_excerpt : String
  pub rule_id : String
  pub parser_version : String
  pub ruleset_version : String
  pub truncated : Bool

-- `lines[:n]`
unfoldable pub take : ℕ → List String → List String
take ℕ.zero lines = []
take (ℕ.suc n) [] = []
take (ℕ.suc n) (line ∷ lines) = line ∷ take n lines

-- `lines[n:]`
unfoldable pub drop : ℕ → List String → List String
drop ℕ.zero lines = lines
drop (ℕ.suc n) [] = []
drop (ℕ.suc n) (line ∷ lines) = drop n lines

-- `lines[start - 1 : end]`, where `start` is at least 1.
unfoldable pub span : ℕ → ℕ → List String → List String
span start end lines = take (end - (start - 1)) (drop (start - 1) lines)

unfoldable pub first_line : RuleMatch → ℕ
first_line found = max found.location.start_line 1

unfoldable pub is_truncated : RuleMatch → List String → Bool
is_truncated found lines =
    ltb (first_line found + max_excerpt_lines) (min found.location.end_line (length lines) + 1)

-- The last line of the excerpt: its end is `start + MAX_EXCERPT_LINES - 1` where it is truncated.
unfoldable pub last_line : RuleMatch → List String → ℕ
last_line found lines =
    if is_truncated found lines
    then first_line found + max_excerpt_lines - 1
    else min found.location.end_line (length lines)

-- `extract`, on the lines of the file; the last two texts are the versions of the engine.
unfoldable pub extract_from : RuleMatch → String → String → String → List String → Option Evidence
extract_from found commit_sha parser_version ruleset_version lines =
    if ltb (length lines) (first_line found)
    then none
    else some (record {
      repository_sha = commit_sha;
      file_path = found.file_path;
      start_line = first_line found;
      end_line = last_line found lines;
      source_excerpt = join "\n" (span (first_line found) (last_line found lines) lines);
      rule_id = found.rule_id;
      parser_version = parser_version;
      ruleset_version = ruleset_version;
      truncated = is_truncated found lines;
    })

-- `extract`
unfoldable pub extract :
    (String → Option (List String)) → RuleMatch → String → String → String → Option Evidence
extract read_lines found commit_sha parser_version ruleset_version =
    elim (read_lines found.file_path) [
      | none ↦ none
      | some lines ↦ extract_from found commit_sha parser_version ruleset_version lines
    ]
