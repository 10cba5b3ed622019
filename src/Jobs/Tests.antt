-- ===== src/Jobs/Tests.antt =====
-- The queue and the worker at concrete rows, and their theorems at these.
use cryptiq.Shared.{
  ℕ, ◌≤◌, String, Bool, true, false, Option, none, some, List, [], ◌∷◌, ◌≡◌, refl, arith, contains,
  string_eq, inl, inr, pair_eq,
}
use cryptiq.Shared.Dict.{lookup, put}
use cryptiq.Shared.Sort.{sort_by, insert_by}
use cryptiq.Jobs.{
  ScanJobStatus, ScanJobStatus-discrete, ScanStatus-discrete, ScanJob, assert_transition,
  should_retry, is_terminal,
}
use cryptiq.Jobs.Worker.{
  Database, crashed, done, next_job, older, started_scan, update_scan, claimed, claim_next_job,
  stopped, fail, complete, execute, run_next_job, iterate,
}
use cryptiq.Jobs.Steps.{IsAttempted}
use cryptiq.Jobs.Oldest.{IsNext, run_next_job-takes}
use cryptiq.Jobs.Attempts.{AreSettled, IsSettled, total_left, attempts_left}
use cryptiq.Jobs.Drain.{work, AreFinished, work-AreFinished}
use cryptiq.Jobs.Queue.{
  Repository, Versions, Store, Reply, Fresh, find_repository, upsert_repository, is_same_repository,
  is_versions, is_match, find_completed_scan, is_in_flight, in_flight, new_scan, new_job,
  identity_of, enqueued, create_scan,
}
use cryptiq.Jobs.Queue.Capacity.{IsAnswered, create_scan-IsAnswered}

program : Unit {0}
unfolding contains lookup put sort_by insert_by ScanJobStatus-discrete ScanStatus-discrete
    assert_transition should_retry is_terminal next_job older started_scan update_scan claimed
    claim_next_job stopped fail complete execute run_next_job iterate AreSettled IsSettled
    total_left attempts_left work find_repository upsert_repository is_same_repository is_versions
    is_match find_completed_scan is_in_flight in_flight new_scan new_job identity_of enqueued
    create_scan
program = tt

abbrev versions : Versions
versions = record { parser_version = "1"; ruleset_version = "2"; pqc_ruleset_version = "3" }

abbrev reference : Repository
reference = record {
  provider = "github";
  owner = "ada";
  name = "keys";
  canonical_url = "https://github.com/ada/keys";
}

abbrev fresh : Fresh
fresh = record { repository_id = "p1"; scan_id = "s1"; job_id = "j1" }

abbrev empty : Store
empty = record { repositories = []; db = record { jobs = []; scans = [] } }

abbrev sha : String
sha = "0123abcdef0123abcdef0123abcdef0123abcdef"

-- The rows after the first request.
abbrev requested : Database
requested = (create_scan 4 versions fresh 10 reference sha empty).1.db

abbrev first_job : ScanJob
first_job = new_job 10 "j1" "s1"

create_scan-IsAnswered_example :
    IsAnswered 4 versions fresh 10 reference sha empty
      (create_scan 4 versions fresh 10 reference sha empty)
create_scan-IsAnswered_example = create_scan-IsAnswered 4 versions fresh 10 reference sha empty

-- At a ceiling of none, the request is refused.
full : (create_scan 0 versions fresh 10 reference sha empty).0 ≡ Reply.too_many
unfolding program
full = refl

-- Three attempts that crash fail the job.
three_crashes :
    (lookup "j1" (work (λ _. crashed) "w" ((11, 12) ∷ (13, 14) ∷ (15, 16) ∷ []) requested).jobs)
    ≡ some (record first_job {
      status = ScanJobStatus.failed;
      attempt_count = 3;
      locked_at = some 15;
      locked_by = some "w";
      started_at = some 15;
      completed_at = some 16;
      last_error = some "ANALYSIS_FAILED: The analysis did not complete.";
    })
unfolding program cryptiq.Shared.Parts.format
three_crashes = refl

run_next_job-takes_example :
    (job : ScanJob) × (((lookup job.id requested.jobs ≡ some job)
        × ((job.status ≡ ScanJobStatus.queued) × IsNext requested.jobs job))
      × ((after : Database) × ((row : ScanJob) × ((run_next_job (λ _. crashed) 11 12 "w" requested
                ≡ done (true, after))
              × ((after.jobs ≡ put job.id row requested.jobs) × IsAttempted job row)))))
unfolding program
run_next_job-takes_example =
    run_next_job-takes (λ _. crashed) 11 12 "w" requested "j1" first_job (refl, tt)
      (refl, ((refl, (omega arith, λ _. omega arith)), tt)) refl refl

work-AreFinished_example :
    AreFinished (work (λ _. crashed) "w" ((11, 12) ∷ (13, 14) ∷ (15, 16) ∷ []) requested).jobs
unfolding program
work-AreFinished_example =
    work-AreFinished (λ _. crashed) "w" ((11, 12) ∷ (13, 14) ∷ (15, 16) ∷ []) requested (refl, tt)
      (refl, ((refl, (omega arith, λ _. omega arith)), tt)) (omega arith)
