-- ===== src/Ingestion/Extract.antt =====
-- The extraction of an archive: extract_zip of cryptiq/app/engine/ingestion/archive.py. What is on
-- disk stays there when an error is raised. `resolve` is `Path.resolve` of a path that is given
-- relative to the destination.
pub mod Writes
pub mod Directories
pub mod Placed
pub mod Contained
use cryptiq.Shared.{
  ℕ, ◌+◌, String, Bool, true, false, Option, none, some, List, [], ◌∷◌, map, ◌==◌, string_eq,
  if◌then◌else◌,
}
use cryptiq.Shared.Dict.{length}
use cryptiq.Ingestion.Outcome.{
  Result, ok, err, Error, unsafe, malformed, os_error, IngestionLimits, check_extracted_bytes,
  check_file_count,
}
use cryptiq.Ingestion.Paths.{safe_relative_path, assert_symlink_stays_inside, parent}
use cryptiq.Ingestion.Disk.{Disk, mkdir, open_file, write_chunk}
use cryptiq.Ingestion.Archive.{
  Stream, end, broken, chunk, ZipInfo, is_dir, is_symlink, assert_supported_member, assert_within,
  common_top_level,
}

-- What runs on the disk and can raise.
abbrev pub M : Type 0 → Type 0
M A = Disk → Result A × Disk

abbrev pub and_then : {A B : Type 0} → Result A × Disk → (A → M B) → Result B × Disk
and_then (ok a, disk) f = f a disk
and_then (err error, disk) f = (err error, disk)

infixl 5 ◌>>=◌ ◌>>◌
abbrev pub ◌>>=◌ : {A B : Type 0} → M A → (A → M B) → M B
m >>= f = λ disk. and_then (m disk) f

abbrev pub ◌>>◌ : {B : Type 0} → M (Unit {0}) → M B → M B
m >> k = m >>= λ _. k

abbrev pub lift : {A : Type 0} → Result A → M A
lift result disk = (result, disk)

-- A call of the file system that raises an OSError where it gives none.
abbrev pub call : (Disk → Option Disk) → M (Unit {0})
call change disk = elim (change disk) [ none ↦ (err os_error, disk) | some disk' ↦ (ok tt, disk') ]

-- The loop of `_write_member`: the number of bytes written.
unfoldable pub write_from : IngestionLimits → List String → ℕ → ℕ → Stream → M ℕ
write_from limits target already written end disk = (ok written, disk)
write_from limits target already written broken disk = (err malformed, disk)
write_from limits target already written (chunk [] stream) disk = (ok written, disk)
write_from limits target already written (chunk (byte ∷ bytes) stream) disk =
    let total = written + length (byte ∷ bytes) in
    let rest =
      write_from limits target already total stream (write_chunk target (byte ∷ bytes) disk) in
    elim (check_extracted_bytes limits (already + total)) [
      | err error ↦ (err error, disk)
      | ok _ ↦ rest
    ]

unfoldable pub write_member : IngestionLimits → ZipInfo → List String → ℕ → M ℕ
unfolding write_from
write_member limits info target already_extracted = do
  call (open_file target)
  write_from limits target already_extracted 0 info.stream

-- The path of a member below the top-level directory; `none` where the loop continues.
unfoldable pub below_prefix : Option String → List String → Result (Option (List String))
below_prefix none relative = ok (some relative)
below_prefix (some prefix) [] = err unsafe
below_prefix (some prefix) (top ∷ []) = if top == prefix then ok none else err unsafe
below_prefix (some prefix) (top ∷ part ∷ parts) =
    if top == prefix then ok (some (part ∷ parts)) else err unsafe

-- The text of a link is read, and judged.
unfoldable pub check_link : ZipInfo → List String → Result (Unit {0})
check_link info relative = elim info.link_text [
  | none ↦ err malformed
  | some target ↦ assert_symlink_stays_inside relative target
]

-- `file_size` of the members that are no directories.
unfoldable pub declared : List ZipInfo → ℕ
declared [] = 0
declared (info ∷ infos) = if is_dir info then declared infos else info.file_size + declared infos

unfoldable pub count_files : List ZipInfo → ℕ
count_files [] = 0
count_files (info ∷ infos) = if is_dir info then count_files infos else count_files infos + 1

-- `safe_relative_path` of each member that is no directory.
unfoldable pub check_names : List ZipInfo → Result (Unit {0})
check_names [] = ok tt
check_names (info ∷ infos) =
    let rest = check_names infos in
    if is_dir info
    then rest
    else elim (safe_relative_path info.filename) [ err error ↦ err error | ok _ ↦ rest ]

-- `prefix`, by the names of the members.
unfoldable pub top_level : List ZipInfo → Bool → Option String
top_level infos strip_top_level =
    if strip_top_level
    then common_top_level (map (λ (info : ZipInfo). info.filename) infos)
    else none

-- How the loop goes on after one member, with both counters.
unfoldable pub after_member : ℕ → ℕ → (ℕ → ℕ → M ℕ) → Result (Option ℕ) × Disk → Result ℕ × Disk
after_member extracted count continue (err error, disk) = (err error, disk)
after_member extracted count continue (ok none, disk) = continue extracted count disk
after_member extracted count continue (ok (some written), disk) =
    continue (extracted + written) (count + 1) disk

module _ (resolve : List String → List String) (limits : IngestionLimits) where
  -- A member that is no link: the number of bytes written if it is a file.
  unfoldable pub write_or_make : ZipInfo → ℕ → List String → M (Option ℕ)
  unfolding write_member
  write_or_make info extracted relative =
      if is_dir info
      then call (mkdir relative) >> lift (ok none)
      else call (mkdir (parent relative))
        >> (write_member limits info relative extracted >>= λ written. lift (ok (some written)))

  -- A member at its path below the top-level directory.
  unfoldable pub place_member : ZipInfo → ℕ → Option (List String) → M (Option ℕ)
  unfolding check_link write_or_make
  place_member info extracted none = lift (ok none)
  place_member info extracted (some relative) =
      if is_symlink info
      then lift (check_link info relative) >> lift (ok none)
      else lift (assert_within (resolve []) (resolve relative))
        >> write_or_make info extracted relative

  -- The body of the loop of `_extract_members`.
  unfoldable pub extract_member : Option String → ZipInfo → ℕ → M (Option ℕ)
  unfolding place_member below_prefix
  extract_member prefix info extracted = do
    lift (assert_supported_member info)
    relative ← lift (safe_relative_path info.filename)
    place ← lift (below_prefix prefix relative)
    place_member info extracted place

  -- The loop itself, from `extracted_total` and `file_count` on.
  unfoldable pub extract_from : Option String → List ZipInfo → ℕ → ℕ → M ℕ
  extract_from prefix [] extracted count disk = (ok count, disk)
  extract_from prefix (info ∷ infos) extracted count disk =
      after_member extracted count (extract_from prefix infos)
        (extract_member prefix info extracted disk)

  unfoldable pub extract_members : Option String → List ZipInfo → M ℕ
  extract_members prefix infos = do
    lift (check_file_count limits (count_files infos))
    lift (check_names infos)
    lift (check_extracted_bytes limits (declared infos))
    extract_from prefix infos 0 0

  -- `archive` is the list of the members, none if opening the file raises BadZipFile.
  unfoldable pub extract_zip : Option (List ZipInfo) → Bool → M ℕ
  extract_zip none strip_top_level = lift (err malformed)
  extract_zip (some infos) strip_top_level = extract_members (top_level infos strip_top_level) infos
