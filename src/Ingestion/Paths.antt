-- ===== src/Ingestion/Paths.antt =====
-- Paths of archive members: safe_relative_path and _assert_symlink_stays_inside of
-- cryptiq/app/engine/ingestion/archive.py, with what they use of PurePosixPath and posixpath. A path
-- is the list of its parts.
pub mod Safe
pub mod Links
use Prim.Native.Char.{code}
use cryptiq.Shared.{
  ℕ, String, Bool, true, false, not, ◌&&◌, ◌||◌, List, [], ◌∷◌, ◌++◌, ◌==◌, string_eq, nat_eq, leb,
  if◌then◌else◌, contains,
}
use mathlib.Core.List.{reverse}
use cryptiq.Shared.Text.{has_char}
use cryptiq.Shared.Parts.{split}
use cryptiq.Ingestion.Validation.{starts_with}
use cryptiq.Ingestion.Outcome.{Result, ok, ◌>>=◌, ◌>>◌, refuse_if, unsafe}

abbrev pub slash : ℕ
slash = 47

abbrev pub is_empty {ℓ} : {A : Type ℓ} → List A → Bool
is_empty [] = true
is_empty (x ∷ xs) = false

-- The parts that count: `part not in {".", ""}`.
unfoldable pub visible : List String → List String
visible [] = []
visible (part ∷ parts) =
    let rest = visible parts in if part == "." || part == "" then rest else part ∷ rest

-- `PurePosixPath(text).root`
unfoldable pub root_of : String → List String
root_of text =
    if starts_with "///" text
    then "/" ∷ []
    else if starts_with "//" text
    then "//" ∷ []
    else if starts_with "/" text
    then "/" ∷ []
    else []

-- `PurePosixPath(text).parts`
unfoldable pub pure_parts : String → List String
unfolding visible root_of
pure_parts text = root_of text ++ visible (split slash text)

-- `_WINDOWS_DRIVE.match(text)`
unfoldable pub has_drive : String → Bool
has_drive String.[] = false
has_drive (String.◌∷◌ c String.[]) = false
has_drive (String.◌∷◌ c (String.◌∷◌ d s)) =
    (leb 65 (code c) && leb (code c) 90 || leb 97 (code c) && leb (code c) 122) && code d == 58

-- The parts of the member's path.
unfoldable pub safe_relative_path : String → Result (List String)
safe_relative_path member = do
  refuse_if (member == "" || (member == "." || member == "./")) unsafe
  refuse_if (has_char 92 member) unsafe
  refuse_if (starts_with "/" member || has_drive member) unsafe
  refuse_if (not (is_empty (root_of member))) unsafe
  let parts = visible (pure_parts member)
  refuse_if (contains parts "..") unsafe
  refuse_if (is_empty parts) unsafe
  ok parts

-- A component ".." after those that are kept.
unfoldable pub climb : List String → List String
climb [] = ".." ∷ []
climb (top ∷ below) = if top == ".." then ".." ∷ top ∷ below else below

-- The loop of `posixpath.normpath` on the components of a relative path; `kept` holds those that it
-- keeps, the last one first.
unfoldable pub norm_from : List String → List String → List String
unfolding climb
norm_from kept [] = kept
norm_from kept (comp ∷ comps) =
    norm_from
      (if comp == "" || comp == "." then kept else if comp == ".." then climb kept else comp ∷ kept)
      comps

-- `PurePosixPath(posixpath.normpath(path)).parts` of a relative path with these components.
unfoldable pub normpath : List String → List String
unfolding norm_from
normpath comps = reverse (norm_from [] comps)

-- `resolved.parts and resolved.parts[0] == ".."`
unfoldable pub escapes : List String → Bool
escapes [] = false
escapes (part ∷ parts) = part == ".."

-- `relative.parent.parts`
unfoldable pub parent : List String → List String
parent [] = []
parent (part ∷ []) = []
parent (part ∷ next ∷ parts) = part ∷ parent (next ∷ parts)

-- `_assert_symlink_stays_inside` on the text of the link. `posixpath.join` puts a separator between
-- its two arguments, so the components of its result are theirs.
unfoldable pub assert_symlink_stays_inside : List String → String → Result (Unit {0})
unfolding has_drive normpath escapes parent
assert_symlink_stays_inside relative target = do
  refuse_if (starts_with "/" target || has_drive target) unsafe
  let resolved = normpath (parent relative ++ split slash target)
  refuse_if (escapes resolved) unsafe
