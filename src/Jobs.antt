-- ===== src/Jobs.antt =====
-- The rows of the scan queue: cryptiq/app/db/models/scan.py, scan_job.py and enums.py, and the rules of
-- a job's life in cryptiq/app/services/scan_jobs.py. Times are numbers of ticks.
pub mod Worker
pub mod Steps
pub mod Attempts
pub mod Oldest
pub mod Drain
pub mod Queue
mod Tests
use cryptiq.Shared.{
  ℕ, String, Bool, true, false, Option, none, some, List, [], ◌∷◌, ◌==◌, ltb, Eq, enum_eq, pair_eq,
  if◌then◌else◌, contains,
}
use cryptiq.Shared.Parts.{format}

pub data ScanJobStatus : Type 0 where
  queued running completed failed cancelled : ScanJobStatus

unfoldable pub ScanJobStatus-discrete : Discrete ScanJobStatus
ScanJobStatus-discrete = hlevel

instance abbrev pub job_status_eq : Eq ScanJobStatus
job_status_eq = enum_eq ScanJobStatus-discrete

pub data ScanStatus : Type 0 where
  scan_queued scan_running scan_completed scan_failed scan_cancelled : ScanStatus

unfoldable pub ScanStatus-discrete : Discrete ScanStatus
ScanStatus-discrete = hlevel

instance abbrev pub scan_status_eq : Eq ScanStatus
scan_status_eq = enum_eq ScanStatus-discrete

pub data SourceState : Type 0 where
  live cached_real unavailable : SourceState

pub record ScanJob : Type 0 where
  pub id : String
  pub created_at : ℕ
  pub scan_id : String
  pub status : ScanJobStatus
  pub attempt_count : ℕ
  pub max_attempts : ℕ
  pub locked_at : Option ℕ
  pub locked_by : Option String
  pub started_at : Option ℕ
  pub completed_at : Option ℕ
  pub last_error : Option String

pub record Scan : Type 0 where
  pub repository_id : String
  pub commit_sha : String
  pub parser_version : String
  pub ruleset_version : String
  pub pqc_ruleset_version : String
  pub created_at : ℕ
  pub status : ScanStatus
  pub source_state : SourceState
  pub file_count : ℕ
  pub analyzed_file_count : ℕ
  pub skipped_file_count : ℕ
  pub finding_count : ℕ
  pub started_at : Option ℕ
  pub completed_at : Option ℕ
  pub error_code : Option String
  pub error_message : Option String

-- `status.value`
unfoldable pub status_value : ScanJobStatus → String
status_value queued = "QUEUED"
status_value running = "RUNNING"
status_value completed = "COMPLETED"
status_value failed = "FAILED"
status_value cancelled = "CANCELLED"

-- `LEGAL_TRANSITIONS`
abbrev pub legal_transitions : List (ScanJobStatus × ScanJobStatus)
legal_transitions =
    (queued, running)
    ∷ (queued, cancelled)
    ∷ (running, completed)
    ∷ (running, failed)
    ∷ (running, queued)
    ∷ (running, cancelled)
    ∷ []

-- `TERMINAL_STATUSES`
abbrev pub terminal_statuses : List ScanJobStatus
terminal_statuses = completed ∷ failed ∷ cancelled ∷ []

-- `assert_transition`: the message of the InvalidJobTransitionError, if it raises.
unfoldable pub assert_transition : ScanJobStatus → ScanJobStatus → Option String
assert_transition current target =
    if contains {A = ScanJobStatus × ScanJobStatus} legal_transitions (current, target)
    then none
    else some (
        format (
          "A scan job cannot move from "
          ∷ status_value current
          ∷ " to "
          ∷ status_value target
          ∷ "."
          ∷ []))

-- `should_retry`
unfoldable pub should_retry : ScanJob → Bool
should_retry job = ltb job.attempt_count job.max_attempts

-- `is_terminal`
unfoldable pub is_terminal : ScanJobStatus → Bool
is_terminal status = contains terminal_statuses status
