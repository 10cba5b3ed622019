-- ===== src/Jobs/Worker.antt =====
-- The worker: cryptiq/app/worker.py. The engine's run of a scan is an argument; the logging, the
-- sleeping and the sessions are left out, a rollback gives back the rows as they were last committed.
use cryptiq.Shared.{
  ℕ, ◌+◌, String, Bool, true, false, Option, none, some, List, [], ◌∷◌, ◌==◌, string_eq,
  if◌then◌else◌,
}
use cryptiq.Shared.Dict.{lookup, put}
use cryptiq.Shared.Parts.{format}
use cryptiq.Shared.Sort.{sort_by, nat_cmp, text_cmp, then_cmp, Ordering}
use cryptiq.Jobs.{
  ScanJobStatus, job_status_eq, ScanStatus, scan_status_eq, SourceState, ScanJob, Scan,
  assert_transition, should_retry,
}

-- The tables of the jobs and of the scans, by their identifiers.
pub record Database : Type 0 where
  pub jobs : List (String × ScanJob)
  pub scans : List (String × Scan)

-- What the ingestion and the analysis of a scan come to: an IngestionError with its code and its
-- message, another exception, or a result with its counts.
pub data Analysis : Type 0 where
  refused : String → String → Analysis
  crashed : Analysis
  analysed : String → ℕ → ℕ → ℕ → ℕ → Analysis

-- A step has a result, or raises.
pub data Outcome (A : Type 0) : Type 0 where
  done : A → Outcome A
  raised : String → Outcome A

abbrev pub queued_jobs : List (String × ScanJob) → List ScanJob
queued_jobs [] = []
queued_jobs ((_, job) ∷ jobs) =
    let rest = queued_jobs jobs in if job.status == ScanJobStatus.queued then job ∷ rest else rest

unfoldable pub older : ScanJob → ScanJob → Ordering
older a b = then_cmp (nat_cmp a.created_at b.created_at) (text_cmp a.id b.id)

abbrev pub first : List ScanJob → Option ScanJob
first [] = none
first (job ∷ jobs) = some job

-- The query of `_claim_next_job`.
unfoldable pub next_job : Database → Option ScanJob
next_job db = first (sort_by older (queued_jobs db.jobs))

unfoldable pub started_scan : ℕ → Scan → Scan
started_scan now scan =
    if scan.status == ScanStatus.scan_queued
    then record scan { status = ScanStatus.scan_running; started_at = some now }
    else scan

-- `session.get(Scan, id)` and an update of the row, if there is one.
unfoldable pub update_scan : String → (Scan → Scan) → List (String × Scan) → List (String × Scan)
update_scan id change scans = elim (lookup id scans) [
  | none ↦ scans
  | some scan ↦ put id (change scan) scans
]

-- The row of a claimed job.
unfoldable pub claimed : ℕ → String → ScanJob → ScanJob
claimed now worker job = record job {
  status = ScanJobStatus.running;
  attempt_count = job.attempt_count + 1;
  locked_at = some now;
  locked_by = some worker;
  started_at = some now;
}

-- `_claim_next_job`
unfoldable pub claim_next_job : ℕ → String → Database → Outcome (Option ScanJob × Database)
claim_next_job now worker db = elim (next_job db) [
  | none ↦ done (none, db)
  | some job ↦ elim (assert_transition job.status ScanJobStatus.running) [
    | some message ↦ raised message
    | none ↦ done (
      some (claimed now worker job),
      record db {
        jobs = put job.id (claimed now worker job) db.jobs;
        scans = update_scan job.scan_id (started_scan now) db.scans;
      },
    )
  ]
]

-- The row of a job after an attempt that failed: the fields that `_fail` sets in both cases.
unfoldable pub stopped : ℕ → String → String → ScanJob → ScanJob
stopped now code message job = record job {
  completed_at = some now;
  last_error = some (format (code ∷ ": " ∷ message ∷ []));
}

abbrev pub requeued : ScanJob → ScanJob
requeued job = record job { status = ScanJobStatus.queued; locked_at = none; locked_by = none }

abbrev pub requeued_scan : Scan → Scan
requeued_scan scan = record scan { status = ScanStatus.scan_queued }

abbrev pub failed_scan : ℕ → String → String → Scan → Scan
failed_scan now code message scan = record scan {
  status = ScanStatus.scan_failed;
  completed_at = some now;
  error_code = some code;
  error_message = some message;
}

-- `_fail`
unfoldable pub fail : ℕ → ScanJob → String → String → Database → Outcome Database
fail now job code message db =
    if should_retry job
    then elim (assert_transition job.status ScanJobStatus.queued) [
      | some error ↦ raised error
      | none ↦ done (record db {
        jobs = put job.id (requeued (stopped now code message job)) db.jobs;
        scans = update_scan job.scan_id requeued_scan db.scans;
      })
    ]
    else elim (assert_transition job.status ScanJobStatus.failed) [
      | some error ↦ raised error
      | none ↦ done (record db {
        jobs =
            put job.id (record (stopped now code message job) { status = ScanJobStatus.failed })
              db.jobs;
        scans = update_scan job.scan_id (failed_scan now code message) db.scans;
      })
    ]

abbrev pub completed_scan : ℕ → String → ℕ → ℕ → ℕ → ℕ → Scan → Scan
completed_scan now sha total analyzed skipped findings scan = record scan {
  commit_sha = sha;
  source_state = SourceState.live;
  file_count = total;
  analyzed_file_count = analyzed;
  skipped_file_count = skipped;
  finding_count = findings;
  status = ScanStatus.scan_completed;
  completed_at = some now;
}

-- The end of `_execute`, once the analysis has a result.
unfoldable pub complete : ℕ → ScanJob → String → ℕ → ℕ → ℕ → ℕ → Database → Outcome Database
complete now job sha total analyzed skipped findings db =
    elim (assert_transition job.status ScanJobStatus.completed) [
      | some error ↦ raised error
      | none ↦ done (record db {
        jobs =
            put job.id (record job { status = ScanJobStatus.completed; completed_at = some now })
              db.jobs;
        scans =
            update_scan job.scan_id (completed_scan now sha total analyzed skipped findings)
              db.scans;
      })
    ]

abbrev pub failed_code : String
failed_code = "ANALYSIS_FAILED"

abbrev pub failed_message : String
failed_message = "The analysis did not complete."

-- `_execute` and the handlers around it, at the end of the attempt.
unfoldable pub execute : (Scan → Analysis) → ℕ → ScanJob → Database → Outcome Database
execute run now job db = elim (lookup job.scan_id db.scans) [
  | none ↦ fail now job failed_code failed_message db
  | some scan ↦ elim (run scan) [
    | refused code message ↦ fail now job code message db
    | crashed ↦ fail now job failed_code failed_message db
    | analysed sha total analyzed skipped findings ↦
        elim (complete now job sha total analyzed skipped findings db) [
          | done after ↦ done after
          | raised _ ↦ fail now job failed_code failed_message db
        ]
  ]
]

-- `run_next_job`: whether a job was processed, and the rows.
unfoldable pub run_next_job :
    (Scan → Analysis) → ℕ → ℕ → String → Database → Outcome (Bool × Database)
run_next_job run now later worker db = elim (claim_next_job now worker db) [
  | raised message ↦ raised message
  | done (none, after) ↦ done (false, after)
  | done (some job, claimed_db) ↦ elim (execute run later job claimed_db) [
    | raised message ↦ raised message
    | done after ↦ done (true, after)
  ]
]

-- An iteration of `worker_loop`: an error leaves the rows as they were last committed, and counts as
-- nothing processed.
unfoldable pub iterate : (Scan → Analysis) → ℕ → ℕ → String → Database → Bool × Database
iterate run now later worker db = elim (run_next_job run now later worker db) [
  | done after ↦ after
  | raised _ ↦ elim (claim_next_job now worker db) [
    | raised _ ↦ (false, db)
    | done (_, claimed_db) ↦ (false, claimed_db)
  ]
]
