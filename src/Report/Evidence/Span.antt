-- ===== src/Report/Evidence/Span.antt =====
-- How much source an excerpt holds (cryptiq/app/engine/evidence).
use cryptiq.Shared.{
  ℕ, suc, zero, ◌+◌, ◌-◌, ◌≤◌, ltb, min, String, true, false, none, some, List, [], ◌∷◌, ◌++◌, ◌≡◌,
  refl, sym, ap, ◌∙◌, max, arith, if◌then◌else◌, Bool-cases, inl, inr, subst,
}
use cryptiq.Shared.Dict.{length}
use cryptiq.Shared.Parts.{join}
use cryptiq.Engine.Match.{RuleMatch}
use cryptiq.Report.Evidence.{
  Evidence, take, drop, span, first_line, is_truncated, last_line, extract_from,
}

length-take : (n : ℕ) (lines : List String) → length (take n lines) ≡ min n (length lines)
unfolding take
length-take zero lines = omega arith
length-take (suc n) [] = omega arith
length-take (suc n) (line ∷ lines) = omega (arith, length-take n lines)

length-drop : (n : ℕ) (lines : List String) → length (drop n lines) ≡ length lines - n
unfolding drop
length-drop zero lines = omega arith
length-drop (suc n) [] = omega arith
length-drop (suc n) (line ∷ lines) = omega (arith, length-drop n lines)

last_line_le :
    (found : RuleMatch) (lines : List String)
    → (last_line found lines ≤ length lines) × (last_line found lines + 1 ≤ first_line found + 40)
unfolding last_line is_truncated
last_line_le found lines = ground arith

length-span :
    (start end : ℕ) (lines : List String)
    → 1 ≤ start
    → end ≤ length lines
    → length (span start end lines) ≡ end + 1 - start
unfolding span
length-span start end lines h k = omega (
  arith,
  h,
  k,
  length-take (end - (start - 1)) (drop (start - 1) lines),
  length-drop (start - 1) lines,
)

abbrev evidence_of : RuleMatch → String → String → String → List String → Evidence
evidence_of found commit_sha parser_version ruleset_version lines = record {
  repository_sha = commit_sha;
  file_path = found.file_path;
  start_line = first_line found;
  end_line = last_line found lines;
  source_excerpt = join "\n" (span (first_line found) (last_line found lines) lines);
  rule_id = found.rule_id;
  parser_version = parser_version;
  ruleset_version = ruleset_version;
  truncated = is_truncated found lines;
}

-- The excerpt is the lines of the file from one that is there on, at most 40 of them, up to the last
-- line of the match if they reach it; it is marked truncated only if it has 40.
pub record HasSpan (found : RuleMatch) (lines : List String) (evidence : Evidence) : Type 0 where
  pub before : List String
  pub shown : List String
  pub after : List String
  pub parted : lines ≡ before ++ (shown ++ after)
  pub excerpt : evidence.source_excerpt ≡ join "\n" shown
  pub start : evidence.start_line ≡ length before + 1
  pub inside : evidence.start_line ≤ length lines
  pub matched : evidence.start_line ≡ max found.location.start_line 1
  pub counted : length shown ≡ evidence.end_line + 1 - evidence.start_line
  pub few : length shown ≤ 40
  pub ended :
      if evidence.truncated
      then evidence.end_line + 1 ≡ evidence.start_line + 40
      else evidence.end_line ≡ min found.location.end_line (length lines)

length-before :
    (start : ℕ) (lines : List String)
    → 1 ≤ start
    → start ≤ length lines
    → start ≡ length (take (start - 1) lines) + 1
length-before start lines h k = omega (arith, h, k, length-take (start - 1) lines)

take-drop : (n : ℕ) (lines : List String) → take n lines ++ drop n lines ≡ lines
unfolding take drop
take-drop zero lines = refl
take-drop (suc n) [] = refl
take-drop (suc n) (line ∷ lines) = ap (λ rest. line ∷ rest) (take-drop n lines)

untruncated-last :
    (found : RuleMatch) (lines : List String)
    → is_truncated found lines ≡ false
    → last_line found lines ≡ min found.location.end_line (length lines)
unfolding last_line
untruncated-last found lines h = rw h refl

first_line_ge : (found : RuleMatch) → 1 ≤ first_line found
unfolding first_line
first_line_ge found = omega arith

truncated-last :
    (found : RuleMatch) (lines : List String)
    → is_truncated found lines ≡ true
    → last_line found lines + 1 ≡ first_line found + 40
unfolding last_line
truncated-last found lines h = ground (arith, h, first_line_ge found)

last_line-ended :
    (found : RuleMatch) (lines : List String)
    → if is_truncated found lines
      then last_line found lines + 1 ≡ first_line found + 40
      else last_line found lines ≡ min found.location.end_line (length lines)
last_line-ended found lines = elim (Bool-cases (is_truncated found lines)) [
  | inl e ↦ rw e (truncated-last found lines e)
  | inr e ↦ rw e (untruncated-last found lines e)
]

evidence_of-HasSpan :
    (found : RuleMatch) (commit_sha parser_version ruleset_version : String) (lines : List String)
    → ltb (length lines) (first_line found) ≡ false
    → HasSpan found lines (evidence_of found commit_sha parser_version ruleset_version lines)
unfolding first_line span
evidence_of-HasSpan found commit_sha parser_version ruleset_version lines e =
    let start = first_line found in
    let end = last_line found lines in
    let inside = last_line_le found lines in
    let count = length-span start end lines (first_line_ge found) inside.0 in
    record {
      before = take (start - 1) lines;
      shown = span start end lines;
      after = drop (end - (start - 1)) (drop (start - 1) lines);
      parted = sym (
          ap (λ rest. take (start - 1) lines ++ rest)
            (take-drop (end - (start - 1)) (drop (start - 1) lines))
          ∙ take-drop (start - 1) lines);
      excerpt = refl;
      start = length-before start lines (first_line_ge found) (ground (arith, e));
      inside = ground (arith, e);
      matched = refl;
      counted = count;
      few = omega (arith, count, inside.1);
      ended = last_line-ended found lines;
    }

some-injective : {x y : Evidence} → some x ≡ some y → x ≡ y
some-injective e = cc

-- An excerpt is the consecutive lines of the file from the first line of the match on, which is in the
-- file, at most 40 of them, joined by line ends. One that is marked truncated ends with the 40th line, any
-- other with the last line of the match or of the file, whichever comes first.
pub extract_from-span :
    (found : RuleMatch) (commit_sha parser_version ruleset_version : String) (lines : List String)
    (evidence : Evidence)
    → extract_from found commit_sha parser_version ruleset_version lines ≡ some evidence
    → HasSpan found lines evidence
unfolding extract_from
extract_from-span found commit_sha parser_version ruleset_version lines evidence h =
    elim (Bool-cases (ltb (length lines) (first_line found))) [
      | inl e ↦ absurd (ground (arith, e, h))
      | inr e ↦
          subst (HasSpan found lines)
            (some-injective (
              subst
                (λ b.
                  (if b
                    then none
                    else some (evidence_of found commit_sha parser_version ruleset_version lines))
                  ≡ some evidence)
                e h))
            (evidence_of-HasSpan found commit_sha parser_version ruleset_version lines e)
    ]
