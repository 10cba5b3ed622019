-- ===== src/Ingestion/Archive.antt =====
-- The members of an archive and the checks of each: cryptiq/app/engine/ingestion/archive.py. The
-- members are what `infolist` gives; the content of one is the chunks that `read` gives.
use cryptiq.Shared.{
  ℕ, ◌*◌, ◌/◌, ◌%◌, String, Bool, true, false, not, ◌&&◌, ◌||◌, Option, none, some, List, [], ◌∷◌,
  ◌==◌, nat_eq, string_eq, list_eq, if◌then◌else◌, contains,
}
use cryptiq.Shared.Text.{ends_with}
use cryptiq.Ingestion.Outcome.{Result, refuse_if, unsafe}
use cryptiq.Ingestion.Paths.{is_empty, pure_parts}
use cryptiq.Ingestion.Disk.{Bytes}

-- `broken` is where a read raises BadZipFile or EOFError.
pub data Stream : Type 0 where
  end broken : Stream
  chunk : Bytes → Stream → Stream

-- A member; `link_text` is the text of its first 4096 bytes, none if reading them raises BadZipFile.
pub record ZipInfo : Type 0 where
  pub filename : String
  pub external_attr : ℕ
  pub file_size : ℕ
  pub link_text : Option String
  pub stream : Stream

-- `info.is_dir()`
unfoldable pub is_dir : ZipInfo → Bool
is_dir info = ends_with info.filename "/"

-- `stat.S_IFMT(info.external_attr >> 16)`
unfoldable pub file_type : ZipInfo → ℕ
file_type info = info.external_attr / 65536 / 4096 % 16 * 4096

abbrev pub s_ifreg : ℕ
s_ifreg = 0o100000

abbrev pub s_ifdir : ℕ
s_ifdir = 0o040000

abbrev pub s_iflnk : ℕ
s_iflnk = 0o120000

unfoldable pub is_symlink : ZipInfo → Bool
unfolding file_type
is_symlink info = file_type info == s_iflnk

unfoldable pub assert_supported_member : ZipInfo → Result (Unit {0})
unfolding file_type
assert_supported_member info =
    refuse_if (not (contains (0 ∷ s_ifreg ∷ s_ifdir ∷ s_iflnk ∷ []) (file_type info))) unsafe

-- `resolved_root in resolved_target.parents`, or the two are equal.
abbrev pub is_under : List String → List String → Bool
is_under [] target = true
is_under (part ∷ root) [] = false
is_under (part ∷ root) (next ∷ target) = if part == next then is_under root target else false

-- `_assert_within`, given both paths resolved.
unfoldable pub assert_within : List String → List String → Result (Unit {0})
assert_within root target = refuse_if (not (is_under root target)) unsafe

-- The first parts of the names, those without a part left out: the set `tops`.
unfoldable pub top_levels : List String → List String
top_levels [] = []
top_levels (name ∷ names) =
    let rest = top_levels names in
    elim (pure_parts name) [ [] ↦ rest | top ∷ _ ↦ if contains rest top then rest else top ∷ rest ]

unfoldable pub is_top_file : String → List String → Bool
is_top_file top [] = false
is_top_file top (name ∷ names) =
    (pure_parts name == pure_parts top) && not (ends_with name "/") || is_top_file top names

unfoldable pub common_top_level : List String → Option String
unfolding top_levels is_top_file
common_top_level names = elim (top_levels names) [
  | [] ↦ none
  | top ∷ others ↦
      if is_empty others then if is_top_file top names then none else some top else none
]
