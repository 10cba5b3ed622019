-- ===== src/Ingestion/Validation.antt =====
-- Commit identifiers: cryptiq/app/engine/ingestion/validation.py. An error is named by its class.
use cryptiq.Shared.{
  ℕ, String, Bool, true, false, Option, none, some, ◌==◌, leb, nat_eq, ◌&&◌, ◌||◌, if◌then◌else◌,
}
use Prim.Native.Char.{Char, code}
use cryptiq.Shared.Text.{strip, lower, strip_prefix}

pub data Error : Type 0 where
  invalid_commit_sha repository_unavailable : Error

pub data Checked (A : Type 0) : Type 0 where
  accepted : A → Checked A
  refused : Error → Checked A

abbrev pub full_sha_length : ℕ
full_sha_length = 40

abbrev pub min_sha_length : ℕ
min_sha_length = 7

unfoldable pub in_range : ℕ → ℕ → Char → Bool
in_range low high c = leb low (code c) && leb (code c) high

-- `[0-9a-f]`
unfoldable pub is_lower_hex : Char → Bool
is_lower_hex c = in_range 48 57 c || in_range 97 102 c

-- `[0-9a-fA-F]`
unfoldable pub is_hex : Char → Bool
is_hex c = is_lower_hex c || in_range 65 70 c

unfoldable pub all_chars : (Char → Bool) → String → Bool
all_chars test String.[] = true
all_chars test (String.◌∷◌ c s) = test c && all_chars test s

-- `len(s)`
unfoldable pub count_chars : String → ℕ
count_chars String.[] = 0
count_chars (String.◌∷◌ c s) = ℕ.suc (count_chars s)

-- `_SHA_PATTERN`, on a text without a line end at its end.
unfoldable pub is_sha : String → Bool
is_sha s =
    all_chars is_hex s
    && (leb min_sha_length (count_chars s) && leb (count_chars s) full_sha_length)

-- `_FULL_SHA_PATTERN`, on a text without a line end at its end.
unfoldable pub is_full_sha : String → Bool
is_full_sha s = all_chars is_lower_hex s && (count_chars s == full_sha_length)

-- `normalize_commit_sha`
unfoldable pub normalize_commit_sha : String → Checked String
normalize_commit_sha value =
    let candidate = strip value in
    if is_sha candidate then accepted (lower candidate) else refused invalid_commit_sha

-- `normalize_full_commit_sha`
unfoldable pub normalize_full_commit_sha : String → Checked String
normalize_full_commit_sha value =
    let candidate = lower (strip value) in
    if is_full_sha candidate then accepted candidate else refused repository_unavailable

unfoldable pub starts_with : String → String → Bool
starts_with prefix s = elim (strip_prefix prefix s) [ none ↦ false | some _ ↦ true ]

-- `verify_snapshot`, on the identifier of the snapshot: the error, if it raises one.
unfoldable pub verify_snapshot : String → String → Option Error
verify_snapshot snapshot_sha requested_sha = elim (normalize_full_commit_sha snapshot_sha) [
  | refused error ↦ some error
  | accepted resolved ↦
      let requested = lower (strip requested_sha) in
      if starts_with requested resolved then none else some repository_unavailable
]
