-- ===== src/Ingestion/Tests/Archives.antt =====
-- Archives at concrete members.
use cryptiq.Shared.{
  ℕ, ◌≤◌, String, true, false, not, ◌&&◌, ◌||◌, none, some, List, [], ◌∷◌, ◌≡◌, refl, if◌then◌else◌,
  contains,
}
use cryptiq.Shared.Dict.{length, lookup, put}
use cryptiq.Shared.Parts.{split, join}
use cryptiq.Ingestion.Outcome.{
  ok, err, unsafe, too_large, os_error, IngestionLimits, check_extracted_bytes, check_file_count,
}
use cryptiq.Ingestion.Paths.{
  slash, visible, root_of, pure_parts, has_drive, safe_relative_path, climb, norm_from, normpath,
  escapes, parent, assert_symlink_stays_inside,
}
use cryptiq.Ingestion.Paths.Safe.{IsSafePath, safe_relative_path-IsSafePath}
use cryptiq.Ingestion.Paths.Links.{stays, assert_symlink_stays_inside-stays}
use cryptiq.Ingestion.Disk.{empty_disk, total_bytes, mkdir_below, mkdir, open_file, write_chunk}
use cryptiq.Ingestion.Disk.Laws.{AreAll}
use cryptiq.Ingestion.Archive.{
  Stream, end, chunk, ZipInfo, is_dir, file_type, is_symlink, assert_supported_member,
  assert_within, top_levels, is_top_file, common_top_level,
}
use cryptiq.Ingestion.Extract.{
  write_from, write_member, below_prefix, check_link, count_files, check_names, declared, top_level,
  after_member, write_or_make, place_member, extract_member, extract_from, extract_members,
  extract_zip,
}
use cryptiq.Ingestion.Extract.Contained.{extract_zip-IsContained}
use cryptiq.Shared.Text.{strip_prefix, has_char, ends_with}
use cryptiq.Ingestion.Validation.{starts_with}

archives : Unit {0}
unfolding strip_prefix starts_with has_char ends_with contains lookup put split join visible root_of
    pure_parts has_drive safe_relative_path climb norm_from normpath escapes parent
    assert_symlink_stays_inside mkdir_below mkdir open_file write_chunk is_dir file_type is_symlink
    assert_supported_member assert_within top_levels is_top_file common_top_level write_from
    write_member below_prefix check_link count_files check_names declared top_level after_member
    write_or_make place_member extract_member extract_from extract_members extract_zip
    check_extracted_bytes check_file_count
archives = tt

abbrev limits : IngestionLimits
limits = record {
  max_archive_bytes = 100;
  max_extracted_bytes = 5;
  max_files = 2;
  max_file_bytes = 3;
}

abbrev unresolved : List String → List String
unresolved path = path

abbrev member : String → ℕ → Stream → ZipInfo
member name size stream = record {
  filename = name;
  external_attr = 0;
  file_size = size;
  link_text = none;
  stream = stream;
}

abbrev small_archive : List ZipInfo
small_archive =
    member "top/" 0 end
    ∷ member "top/a.py" 2 (chunk (1 ∷ 2 ∷ []) end)
    ∷ member "top/pkg/b.py" 1 (chunk (3 ∷ []) end)
    ∷ []

-- The common directory is stripped, and both files are written.
extract_small : extract_zip unresolved limits (some small_archive) true empty_disk ≡ (
  ok 2,
  record {
    dirs = ("pkg" ∷ []) ∷ [];
    files = ("a.py" ∷ [], 1 ∷ 2 ∷ []) ∷ ("pkg" ∷ "b.py" ∷ [], 3 ∷ []) ∷ [];
  },
)
unfolding archives
extract_small = refl

-- A member that is longer than its header says.
abbrev bomb : List ZipInfo
bomb = member "a" 1 (chunk (1 ∷ 2 ∷ 3 ∷ []) (chunk (4 ∷ 5 ∷ 6 ∷ []) end)) ∷ []

extract_bomb :
    extract_zip unresolved limits (some bomb) false empty_disk
    ≡ (err too_large, record { dirs = []; files = ("a" ∷ [], 1 ∷ 2 ∷ 3 ∷ []) ∷ [] })
unfolding archives
extract_bomb = refl

-- A file at the place of a directory raises an OSError, which extract_zip does not name.
extract_conflict :
    extract_zip unresolved limits
      (some (member "a" 0 end ∷ member "a/b" 0 end ∷ []))
      false
      empty_disk
    ≡ (err os_error, record { dirs = []; files = ("a" ∷ [], []) ∷ [] })
unfolding archives
extract_conflict = refl

escape : safe_relative_path "a/../../b" ≡ err unsafe
unfolding archives
escape = refl

extract_zip-IsContained_example :
    AreAll IsSafePath (extract_zip unresolved limits (some bomb) false empty_disk).1
    × (total_bytes (extract_zip unresolved limits (some bomb) false empty_disk).1.files ≤ 5)
    × (length (extract_zip unresolved limits (some bomb) false empty_disk).1.files ≤ 2)
extract_zip-IsContained_example = extract_zip-IsContained unresolved limits (some bomb) false

abbrev link_path : List String
link_path = "pkg" ∷ "link" ∷ []

link_path-IsSafePath : IsSafePath link_path
unfolding archives
link_path-IsSafePath = safe_relative_path-IsSafePath "pkg/link" link_path refl

assert_symlink_stays_inside-stays_example : assert_symlink_stays_inside link_path "../../etc" ≡ (
    if not (starts_with "/" "../../etc" || has_drive "../../etc")
      && stays (length (parent link_path)) (split slash "../../etc")
    then ok tt
    else err unsafe)
assert_symlink_stays_inside-stays_example =
    assert_symlink_stays_inside-stays link_path "../../etc" link_path-IsSafePath
