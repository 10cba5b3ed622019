-- ===== src/Ingestion/Discovery.antt =====
-- The files of a snapshot and what is decided about each: cryptiq/app/engine/tree.py,
-- cryptiq/app/engine/discovery/files.py, and build_result of cryptiq/app/engine/ingestion/service.py.
pub mod Accounted
use cryptiq.Shared.{
  ℕ, zero, suc, ◌+◌, ◌-◌, String, Bool, true, false, not, ◌&&◌, ◌||◌, Option, none, some, List, [],
  ◌∷◌, map, ◌==◌, nat_eq, string_eq, ltb, if◌then◌else◌, contains, Eq, enum_eq,
}
use cryptiq.Shared.Dict.{lookup, put, length}
use cryptiq.Shared.Parts.{join}
use cryptiq.Shared.Sort.{Ordering, sort_by, text_cmp, then_cmp}
use cryptiq.Shared.Names.{suffix, last_part}
use cryptiq.Ingestion.Outcome.{IngestionLimits}
use cryptiq.Ingestion.Disk.{Bytes}

-- What `rglob` finds. Whether the bytes of a file are UTF-8 is a field of their own.
pub record Content : Type 0 where
  pub bytes : Bytes
  pub is_utf8 : Bool

pub data Kind : Type 0 where
  symlink directory : Kind
  regular : Content → Kind

pub record Entry : Type 0 where
  pub parts : List String
  pub kind : Kind

-- Paths are compared part by part.
unfoldable pub compare_parts : List String → List String → Ordering
compare_parts [] [] = Ordering.eq
compare_parts [] (q ∷ qs) = Ordering.lt
compare_parts (p ∷ ps) [] = Ordering.gt
compare_parts (p ∷ ps) (q ∷ qs) = then_cmp (text_cmp p q) (compare_parts ps qs)

unfoldable pub compare_entries : Entry → Entry → Ordering
unfolding compare_parts
compare_entries a b = compare_parts a.parts b.parts

abbrev pub regular_before :
    List String → Kind → List (List String × Content) → List (List String × Content)
regular_before parts symlink files = files
regular_before parts directory files = files
regular_before parts (regular content) files = (parts, content) ∷ files

unfoldable pub regular_files : List Entry → List (List String × Content)
regular_files [] = []
regular_files (entry ∷ entries) = regular_before entry.parts entry.kind (regular_files entries)

-- `iter_files`, on what `root.rglob("*")` finds.
unfoldable pub iter_files : List Entry → List (List String × Content)
unfolding compare_entries regular_files
iter_files entries = regular_files (sort_by compare_entries entries)

pub data SkipReason : Type 0 where
  unsupported_language binary_file too_large_file invalid_encoding ignored_path : SkipReason

pub SkipReason-discrete : Discrete SkipReason
SkipReason-discrete = hlevel

instance abbrev pub SkipReason-eq : Eq SkipReason
SkipReason-eq = enum_eq SkipReason-discrete

pub record DiscoveredFile : Type 0 where
  pub path : String
  pub language : Option String
  pub size : ℕ
  pub is_binary : Bool
  pub is_supported : Bool
  pub skip_reason : Option SkipReason

abbrev pub python_suffix : String
python_suffix = ".py"

abbrev pub python_language : String
python_language = "python"

abbrev pub binary_probe_bytes : ℕ
binary_probe_bytes = 8192

abbrev pub ignored_directories : List String
ignored_directories = ".git" ∷ []

unfoldable pub is_ignored : List String → Bool
is_ignored [] = false
is_ignored (part ∷ parts) = contains ignored_directories part || is_ignored parts

-- `b"\x00" in handle.read(n)`
unfoldable pub has_nul : ℕ → Bytes → Bool
has_nul zero bytes = false
has_nul (suc n) [] = false
has_nul (suc n) (b ∷ bytes) = b == 0 || has_nul n bytes

unfoldable pub looks_binary : Bytes → Bool
unfolding has_nul
looks_binary bytes = has_nul binary_probe_bytes bytes

-- `skipped`, within `classify_file`.
unfoldable pub skipped : String → ℕ → SkipReason → Option String → Bool → DiscoveredFile
skipped path size reason language is_binary = record {
  path = path;
  language = language;
  size = size;
  is_binary = is_binary;
  is_supported = false;
  skip_reason = some reason;
}

unfoldable pub classify_file : ℕ → List String × Content → DiscoveredFile
unfolding skipped
classify_file max_file_bytes (parts, content) =
    let path = join "/" parts in
    let size = length content.bytes in
    if is_ignored parts
    then skipped path size ignored_path none false
    else if not (suffix (last_part parts) == python_suffix)
    then skipped path size unsupported_language none false
    else if ltb max_file_bytes size
    then skipped path size too_large_file (some python_language) false
    else if looks_binary content.bytes
    then skipped path size binary_file (some python_language) true
    else if not content.is_utf8
    then skipped path size invalid_encoding (some python_language) false
    else record {
      path = path;
      language = some python_language;
      size = size;
      is_binary = false;
      is_supported = true;
      skip_reason = none;
    }

unfoldable pub discover_files : List Entry → ℕ → List DiscoveredFile
discover_files entries max_file_bytes = map (classify_file max_file_bytes) (iter_files entries)

pub record IngestionResult : Type 0 where
  pub discovered_files : List DiscoveredFile
  pub total_files : ℕ
  pub analyzed_files : ℕ
  pub skipped_files : ℕ
  pub skipped_reasons : List (SkipReason × ℕ)

unfoldable pub count_supported : List DiscoveredFile → ℕ
count_supported [] = 0
count_supported (file ∷ files) =
    if file.is_supported then count_supported files + 1 else count_supported files

abbrev pub or_zero : Option ℕ → ℕ
or_zero none = 0
or_zero (some n) = n

-- The counts of a `Counter` after one file.
unfoldable pub counted : Option SkipReason → List (SkipReason × ℕ) → List (SkipReason × ℕ)
counted none counts = counts
counted (some reason) counts = put reason (or_zero (lookup reason counts) + 1) counts

-- `Counter` over the reasons of the files, from the counts so far on.
unfoldable pub count_reasons : List (SkipReason × ℕ) → List DiscoveredFile → List (SkipReason × ℕ)
count_reasons counts [] = counts
count_reasons counts (file ∷ files) = count_reasons (counted file.skip_reason counts) files

unfoldable pub build_result : List Entry → IngestionLimits → IngestionResult
build_result entries limits =
    let discovered = discover_files entries limits.max_file_bytes in
    let analyzed = count_supported discovered in
    record {
      discovered_files = discovered;
      total_files = length discovered;
      analyzed_files = analyzed;
      skipped_files = length discovered - analyzed;
      skipped_reasons = count_reasons [] discovered;
    }

unfoldable pub supported_files : List DiscoveredFile → List DiscoveredFile
supported_files [] = []
supported_files (file ∷ files) =
    if file.is_supported then file ∷ supported_files files else supported_files files
