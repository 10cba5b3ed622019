-- ===== src/Ingestion/Discovery/Accounted.antt =====
-- Every file of a snapshot is accounted for, as cryptiq/app/engine/discovery/files.py says.
use cryptiq.Shared.{
  ℕ, ◌+◌, ◌≤◌, String, true, false, Option, none, some, List, [], ◌∷◌, map, ◌≡◌, refl, arith, ◌==◌,
  if◌then◌else◌,
}
use cryptiq.Shared.Each.{Each}
use cryptiq.Shared.Dict.{lookup, put, length, lookup-put}
use cryptiq.Ingestion.Outcome.{IngestionLimits}
use cryptiq.Ingestion.Discovery.{
  Entry, Content, SkipReason, SkipReason-eq, DiscoveredFile, classify_file, iter_files,
  discover_files, count_supported, or_zero, counted, count_reasons, build_result,
}

-- A file has a reason to be left out, or is supported; never both.
pub IsDecided : DiscoveredFile → Type 0
IsDecided file = file.is_supported ≡ elim file.skip_reason [ none ↦ true | some _ ↦ false ]

classify_file-IsDecided :
    (max_file_bytes : ℕ) (file : List String × Content)
    → IsDecided (classify_file max_file_bytes file)
unfolding classify_file IsDecided
classify_file-IsDecided max_file_bytes (parts, content) = ground arith

map-IsDecided :
    (max_file_bytes : ℕ) (files : List (List String × Content))
    → Each (map (classify_file max_file_bytes) files) IsDecided
unfolding Each
map-IsDecided max_file_bytes [] = tt
map-IsDecided max_file_bytes (file ∷ files) =
    (classify_file-IsDecided max_file_bytes file, map-IsDecided max_file_bytes files)

length-map :
    (max_file_bytes : ℕ) (files : List (List String × Content))
    → length (map (classify_file max_file_bytes) files) ≡ length files
length-map max_file_bytes [] = refl
length-map max_file_bytes (file ∷ files) = omega (arith, length-map max_file_bytes files)

-- How many of the files were left out for a reason.
pub count_skipped : SkipReason → List DiscoveredFile → ℕ
count_skipped reason [] = 0
count_skipped reason (file ∷ files) =
    (elim file.skip_reason [ none ↦ 0 | some other ↦ if other == reason then 1 else 0 ])
    + count_skipped reason files

abbrev pub sum_counts : List (SkipReason × ℕ) → ℕ
sum_counts [] = 0
sum_counts ((reason, count) ∷ counts) = count + sum_counts counts

sum_counts-put :
    (reason : SkipReason) (n : ℕ) (counts : List (SkipReason × ℕ))
    → sum_counts (put reason n counts) + or_zero (lookup reason counts) ≡ sum_counts counts + n
unfolding put lookup
sum_counts-put reason n [] = omega arith
sum_counts-put reason n ((other, count) ∷ counts) = ground (arith, sum_counts-put reason n counts)

lookup-counted :
    (reason : SkipReason) (first : Option SkipReason) (counts : List (SkipReason × ℕ))
    → or_zero (lookup reason (counted first counts))
      ≡ or_zero (lookup reason counts)
        + elim first [ none ↦ 0 | some other ↦ if other == reason then 1 else 0 ]
unfolding counted
lookup-counted reason none counts = omega arith
lookup-counted reason (some other) counts = ground (
  arith,
  lookup-put other reason (or_zero (lookup other counts) + 1) counts,
  SkipReason-eq.beq_iff other reason,
)

lookup-count_reasons :
    (reason : SkipReason) (files : List DiscoveredFile) (counts : List (SkipReason × ℕ))
    → or_zero (lookup reason (count_reasons counts files))
      ≡ or_zero (lookup reason counts) + count_skipped reason files
unfolding count_reasons count_skipped
lookup-count_reasons reason [] counts = omega arith
lookup-count_reasons reason (file ∷ files) counts = omega (
  arith,
  lookup-count_reasons reason files (counted file.skip_reason counts),
  lookup-counted reason file.skip_reason counts,
)

sum-counted :
    (first : Option SkipReason) (counts : List (SkipReason × ℕ))
    → sum_counts (counted first counts) ≡ sum_counts counts + elim first [ none ↦ 0 | some _ ↦ 1 ]
unfolding counted
sum-counted none counts = omega arith
sum-counted (some reason) counts =
    omega (arith, sum_counts-put reason (or_zero (lookup reason counts) + 1) counts)

supported-first :
    (file : DiscoveredFile) (files : List DiscoveredFile)
    → IsDecided file
    → count_supported (file ∷ files) + elim file.skip_reason [ none ↦ 0 | some _ ↦ 1 ]
      ≡ count_supported files + 1
unfolding count_supported IsDecided
supported-first file files d = ground (arith, d)

sum-count_reasons :
    (files : List DiscoveredFile) (counts : List (SkipReason × ℕ))
    → Each files IsDecided
    → sum_counts (count_reasons counts files) + count_supported files
      ≡ sum_counts counts + length files
unfolding count_reasons Each count_supported
sum-count_reasons [] counts h = omega arith
sum-count_reasons (file ∷ files) counts (d, h) = omega (
  arith,
  sum-count_reasons files (counted file.skip_reason counts) h,
  sum-counted file.skip_reason counts,
  supported-first file files d,
)

count_supported-le : (files : List DiscoveredFile) → count_supported files ≤ length files
unfolding count_supported
count_supported-le [] = omega arith
count_supported-le (file ∷ files) = ground (arith, count_supported-le files)

pub build_result-IsAccounted :
    (entries : List Entry) (limits : IngestionLimits)
    → Each (build_result entries limits).discovered_files IsDecided
      × ((build_result entries limits).total_files ≡ length (iter_files entries))
      × ((build_result entries limits).analyzed_files + (build_result entries limits).skipped_files
          ≡ (build_result entries limits).total_files)
      × (sum_counts (build_result entries limits).skipped_reasons
          ≡ (build_result entries limits).skipped_files)
      × ((reason : SkipReason)
          → or_zero (lookup reason (build_result entries limits).skipped_reasons)
            ≡ count_skipped reason (build_result entries limits).discovered_files)
unfolding build_result discover_files lookup
build_result-IsAccounted entries limits =
    let files = iter_files entries in
    let found = map (classify_file limits.max_file_bytes) files in
    let decided = map-IsDecided limits.max_file_bytes files in
    let few = count_supported-le found in
    (
      decided,
      length-map limits.max_file_bytes files,
      omega (arith, few),
      omega (arith, few, sum-count_reasons found [] decided),
      λ reason. omega (arith, lookup-count_reasons reason found []),
    )
