-- ===== src/Jobs/Queue.antt =====
-- To ask for a scan: `create_scan` and its helpers in cryptiq/app/services/scans.py, and
-- `find_completed_scan` of cryptiq/app/services/scan_cache.py. The repository is what the parsed URL
-- names, the commit identifier is normalized already, and the rows that are made get the given
-- identifiers, which the database chooses anew. Two requests do not interleave here.
pub mod Capacity
use cryptiq.Shared.{
  ℕ, ◌+◌, leb, String, Bool, true, false, Option, none, some, List, [], ◌∷◌, ◌==◌, ◌&&◌, ◌||◌,
  string_eq, if◌then◌else◌,
}
use cryptiq.Shared.Dict.{lookup, put}
use cryptiq.Shared.Sort.{sort_by, nat_cmp, text_cmp, then_cmp, Ordering}
use cryptiq.Jobs.{ScanJobStatus, ScanStatus, scan_status_eq, SourceState, ScanJob, Scan}
use cryptiq.Jobs.Worker.{Database}

pub record Repository : Type 0 where
  pub provider : String
  pub owner : String
  pub name : String
  pub canonical_url : String

pub record Versions : Type 0 where
  pub parser_version : String
  pub ruleset_version : String
  pub pqc_ruleset_version : String

-- The tables of a request: the repositories besides the worker's.
pub record Store : Type 0 where
  pub repositories : List (String × Repository)
  pub db : Database

pub record ScanIdentity : Type 0 where
  pub provider : String
  pub owner : String
  pub name : String
  pub commit_sha : String
  pub versions : Versions

unfoldable pub is_same_repository : Repository → String → String → String → Bool
is_same_repository repository provider owner name =
    repository.provider == provider && (repository.owner == owner && repository.name == name)

-- The lookup of `_upsert_repository`.
unfoldable pub find_repository :
    Repository → List (String × Repository) → Option (String × Repository)
find_repository reference [] = none
find_repository reference ((id, repository) ∷ rest) =
    let later = find_repository reference rest in
    if is_same_repository repository reference.provider reference.owner reference.name
    then some (id, repository)
    else later

-- `_upsert_repository`: the repository's row with its identifier, and the table.
unfoldable pub upsert_repository :
    String
    → Repository
    → List (String × Repository)
    → (String × Repository) × List (String × Repository)
upsert_repository fresh reference repositories = elim (find_repository reference repositories) [
  | some found ↦ (found, repositories)
  | none ↦ ((fresh, reference), put fresh reference repositories)
]

unfoldable pub is_versions : Versions → Scan → Bool
is_versions versions scan =
    scan.parser_version == versions.parser_version
    && (scan.ruleset_version == versions.ruleset_version
        && scan.pqc_ruleset_version == versions.pqc_ruleset_version)

-- The conditions of the query in `find_completed_scan`.
unfoldable pub is_match : List (String × Repository) → ScanIdentity → Scan → Bool
is_match repositories identity scan = elim (lookup scan.repository_id repositories) [
  | none ↦ false
  | some repository ↦
      is_same_repository repository identity.provider identity.owner identity.name
      && (scan.commit_sha == identity.commit_sha
          && (is_versions identity.versions scan && scan.status == ScanStatus.scan_completed))
]

abbrev pub matching :
    List (String × Repository) → ScanIdentity → List (String × Scan) → List (String × Scan)
matching repositories identity [] = []
matching repositories identity ((id, scan) ∷ scans) =
    let rest = matching repositories identity scans in
    if is_match repositories identity scan then (id, scan) ∷ rest else rest

unfoldable pub older_scan : String × Scan → String × Scan → Ordering
older_scan (i, a) (j, b) = then_cmp (nat_cmp a.created_at b.created_at) (text_cmp i j)

abbrev pub first_scan : List (String × Scan) → Option (String × Scan)
first_scan [] = none
first_scan (scan ∷ scans) = some scan

-- `find_completed_scan`
unfoldable pub find_completed_scan :
    List (String × Repository) → ScanIdentity → List (String × Scan) → Option (String × Scan)
find_completed_scan repositories identity scans =
    first_scan (sort_by older_scan (matching repositories identity scans))

unfoldable pub is_in_flight : Scan → Bool
is_in_flight scan = scan.status == ScanStatus.scan_queued || scan.status == ScanStatus.scan_running

-- The count of `_assert_in_flight_capacity`.
unfoldable pub in_flight : List (String × Scan) → ℕ
in_flight [] = 0
in_flight ((_, scan) ∷ scans) = (if is_in_flight scan then 1 else 0) + in_flight scans

-- A `Scan` with its defaults.
unfoldable pub new_scan : ℕ → String → String → Versions → Scan
new_scan now repository_id sha versions = record {
  repository_id = repository_id;
  commit_sha = sha;
  parser_version = versions.parser_version;
  ruleset_version = versions.ruleset_version;
  pqc_ruleset_version = versions.pqc_ruleset_version;
  created_at = now;
  status = ScanStatus.scan_queued;
  source_state = SourceState.unavailable;
  file_count = 0;
  analyzed_file_count = 0;
  skipped_file_count = 0;
  finding_count = 0;
  started_at = none;
  completed_at = none;
  error_code = none;
  error_message = none;
}

abbrev pub default_max_attempts : ℕ
default_max_attempts = 3

-- A `ScanJob` with its defaults.
unfoldable pub new_job : ℕ → String → String → ScanJob
new_job now id scan_id = record {
  id = id;
  created_at = now;
  scan_id = scan_id;
  status = ScanJobStatus.queued;
  attempt_count = 0;
  max_attempts = default_max_attempts;
  locked_at = none;
  locked_by = none;
  started_at = none;
  completed_at = none;
  last_error = none;
}

-- `create_scan` answers a completed scan, refuses a new one (TooManyScansError), or queues one.
pub data Reply : Type 0 where
  cached : String × Scan → Reply
  too_many : Reply
  queued_scan : String × Scan → Reply

-- The identifiers that a request's new rows would get.
pub record Fresh : Type 0 where
  pub repository_id : String
  pub scan_id : String
  pub job_id : String

unfoldable pub identity_of : Repository → String → Versions → ScanIdentity
identity_of repository sha versions = record {
  provider = repository.provider;
  owner = repository.owner;
  name = repository.name;
  commit_sha = sha;
  versions = versions;
}

-- The rows once a scan and its job are added.
unfoldable pub enqueued : Fresh → ℕ → Scan → Database → Database
enqueued fresh now scan db = record {
  jobs = put fresh.job_id (new_job now fresh.job_id fresh.scan_id) db.jobs;
  scans = put fresh.scan_id scan db.scans;
}

-- `create_scan`, with the ceiling of the settings.
unfoldable pub create_scan : ℕ → Versions → Fresh → ℕ → Repository → String → Store → Reply × Store
create_scan limit versions fresh now reference sha store =
    let ((repository_id, repository), repositories) =
      upsert_repository fresh.repository_id reference store.repositories in
    let scan = new_scan now repository_id sha versions in
    elim (find_completed_scan repositories (identity_of repository sha versions) store.db.scans) [
      | some found ↦ (cached found, record { repositories = repositories; db = store.db })
      | none ↦
          if leb limit (in_flight store.db.scans)
          then (too_many, record { repositories = store.repositories; db = store.db })
          else (
            queued_scan (fresh.scan_id, scan),
            record { repositories = repositories; db = enqueued fresh now scan store.db },
          )
    ]
