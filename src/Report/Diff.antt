-- ===== src/Report/Diff.antt =====
-- The diff of the findings of two commits: cryptiq/app/cli/diff.py, over findings that have a
-- fingerprint, a rank, a place and a line, as cryptiq/app/cli/results.py gives them.
pub mod Keys
pub mod Compared
use cryptiq.Shared.{
  ℕ, String, Bool, true, false, not, Option, none, some, List, [], ◌∷◌, ◌==◌, string_eq,
  if◌then◌else◌,
}
use cryptiq.Shared.Sort.{sort_by, nat_cmp, text_cmp, then_cmp, Ordering}

-- What the comparison reads of a `CliFinding`. The rank is one more than `priority_rank`, which is at
-- least -1.
pub record CliFinding : Type 0 where
  pub fingerprint : Option String
  pub rank : ℕ
  pub file_path : Option String
  pub start_line : Option ℕ

abbrev pub text_or_empty : Option String → String
text_or_empty none = ""
text_or_empty (some text) = text

abbrev pub number_or_zero : Option ℕ → ℕ
number_or_zero none = 0
number_or_zero (some n) = n

unfoldable pub key_of : CliFinding → String
key_of finding = text_or_empty finding.fingerprint

-- `key in findings`, of the findings that `_dedupe_by_fingerprint` keeps by their keys.
unfoldable pub has_key : String → List CliFinding → Bool
has_key key [] = false
has_key key (finding ∷ findings) = if key_of finding == key then true else has_key key findings

-- The loop of `_dedupe_by_fingerprint`; the values of the dict, in its order, from those of `seen`.
unfoldable pub dedupe_from : List CliFinding → List CliFinding → List CliFinding
dedupe_from seen [] = []
dedupe_from seen (finding ∷ findings) =
    let skipped = dedupe_from seen findings in
    let kept = dedupe_from (finding ∷ seen) findings in
    if key_of finding == ""
    then skipped
    else if has_key (key_of finding) seen
    then skipped
    else finding ∷ kept

-- `_dedupe_by_fingerprint`
unfoldable pub dedupe : List CliFinding → List CliFinding
dedupe findings = dedupe_from [] findings

-- The key of `_ordered`: the highest rank first.
unfoldable pub compare_ordered : CliFinding → CliFinding → Ordering
compare_ordered a b = then_cmp (nat_cmp b.rank a.rank) (
    then_cmp (text_cmp (text_or_empty a.file_path) (text_or_empty b.file_path)) (
      then_cmp (nat_cmp (number_or_zero a.start_line) (number_or_zero b.start_line))
        (text_cmp (key_of a) (key_of b))))

-- `_ordered`
unfoldable pub ordered : List CliFinding → List CliFinding
ordered findings = sort_by compare_ordered findings

-- `[f for key, f in findings.items() if key in others]`
unfoldable pub shared_with : List CliFinding → List CliFinding → List CliFinding
shared_with others [] = []
shared_with others (finding ∷ findings) =
    let rest = shared_with others findings in
    if has_key (key_of finding) others then finding ∷ rest else rest

-- `[f for key, f in findings.items() if key not in others]`
unfoldable pub missing_from : List CliFinding → List CliFinding → List CliFinding
missing_from others [] = []
missing_from others (finding ∷ findings) =
    let rest = missing_from others findings in
    if has_key (key_of finding) others then rest else finding ∷ rest

pub record DiffResult : Type 0 where
  pub new : List CliFinding
  pub fixed : List CliFinding
  pub unchanged : List CliFinding

-- `run_diff`, on the findings of the two analyses.
unfoldable pub run_diff : List CliFinding → List CliFinding → DiffResult
run_diff base head =
    let base_findings = dedupe base in
    let head_findings = dedupe head in
    record {
      new = ordered (missing_from base_findings head_findings);
      fixed = ordered (missing_from head_findings base_findings);
      unchanged = ordered (shared_with base_findings head_findings);
    }
