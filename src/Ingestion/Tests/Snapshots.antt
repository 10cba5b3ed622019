-- ===== src/Ingestion/Tests/Snapshots.antt =====
-- Snapshots at concrete files.
use cryptiq.Shared.{
  ℕ, ◌+◌, String, true, List, [], ◌∷◌, ◌≡◌, refl, if◌then◌else◌, ◌⊎◌, contains, arith, ltb,
}
use cryptiq.Shared.Dict.{length, lookup, put}
use cryptiq.Shared.Each.{Each}
use cryptiq.Shared.Parts.{join}
use cryptiq.Shared.Sort.{sort_by, insert_by}
use cryptiq.Shared.Names.{suffix, last_dot, last_part}
use cryptiq.Ingestion.Outcome.{IngestionLimits}
use cryptiq.Ingestion.Discovery.{
  Entry, regular, symlink, iter_files, regular_files, compare_entries, compare_parts, SkipReason,
  SkipReason-eq, or_zero, is_ignored, has_nul, looks_binary, skipped, classify_file, discover_files,
  count_supported, counted, count_reasons, build_result,
}
use cryptiq.Ingestion.Discovery.Accounted.{
  IsDecided, count_skipped, sum_counts, build_result-IsAccounted,
}
use cryptiq.Ingestion.Source.{hashed_files, hashed_text, compare_paths, compute_content_hash}
use cryptiq.Ingestion.Source.Hashed.{IsHashed, Collides, compute_content_hash-tells}
use cryptiq.Shared.Text.{strip_prefix, has_char}
use cryptiq.Ingestion.Validation.{starts_with}

abbrev limits : IngestionLimits
limits = record {
  max_archive_bytes = 100;
  max_extracted_bytes = 5;
  max_files = 2;
  max_file_bytes = 3;
}

abbrev snapshot : List Entry
snapshot =
    record { parts = "b.py" ∷ []; kind = regular (record { bytes = 1 ∷ []; is_utf8 = true }) }
    ∷ record { parts = "a.txt" ∷ []; kind = regular (record { bytes = 2 ∷ []; is_utf8 = true }) }
    ∷ record { parts = "c.py" ∷ []; kind = symlink }
    ∷ []

build_result-IsAccounted_example :
    Each (build_result snapshot limits).discovered_files IsDecided
    × ((build_result snapshot limits).total_files ≡ length (iter_files snapshot))
    × ((build_result snapshot limits).analyzed_files + (build_result snapshot limits).skipped_files
        ≡ (build_result snapshot limits).total_files)
    × (sum_counts (build_result snapshot limits).skipped_reasons
        ≡ (build_result snapshot limits).skipped_files)
    × ((reason : SkipReason)
        → or_zero (lookup reason (build_result snapshot limits).skipped_reasons)
          ≡ count_skipped reason (build_result snapshot limits).discovered_files)
build_result-IsAccounted_example = build_result-IsAccounted snapshot limits

discovery : Unit {0}
unfolding strip_prefix starts_with has_char contains lookup put join sort_by insert_by regular_files
    compare_parts compare_entries iter_files last_dot suffix last_part is_ignored has_nul
    looks_binary skipped classify_file discover_files count_supported counted count_reasons
    build_result hashed_files hashed_text compare_paths compute_content_hash
discovery = tt

small_counts : (build_result snapshot limits).analyzed_files ≡ 1
unfolding discovery
small_counts = refl

abbrev text_of : List ℕ → String
text_of bytes = if ltb (length bytes) 2 then "one" else "many"

abbrev other_snapshot : List Entry
other_snapshot =
    record { parts = "b.py" ∷ []; kind = regular (record { bytes = 1 ∷ 2 ∷ []; is_utf8 = true }) }
    ∷ []

abbrev same_digest : String → String
same_digest text = "0"

other_snapshot-IsHashed : Each (hashed_files text_of other_snapshot) IsHashed
unfolding discovery IsHashed Each has_char
other_snapshot-IsHashed = ground arith

snapshot-IsHashed : Each (hashed_files text_of snapshot) IsHashed
unfolding discovery IsHashed Each has_char
snapshot-IsHashed = ground arith

compute_content_hash-tells_example :
    (hashed_files text_of snapshot ≡ hashed_files text_of other_snapshot) ⊎ Collides same_digest
unfolding discovery
compute_content_hash-tells_example =
    compute_content_hash-tells same_digest text_of snapshot other_snapshot snapshot-IsHashed
      other_snapshot-IsHashed refl
