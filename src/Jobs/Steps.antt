-- ===== src/Jobs/Steps.antt =====
-- One attempt of the worker at one job: `run_next_job` of cryptiq/app/worker.py, by the rows.
use cryptiq.Shared.{
  ℕ, ◌+◌, ◌≤◌, ◌<◌, String, true, none, some, ◌≡◌, ◌⊎◌, inl, inr, refl, sym, subst, ◌∙◌, arith,
  string_eq, pair_eq, Bool-cases, Option-cases, ltb, contains,
}
use cryptiq.Shared.Dict.{lookup, put, put-put}
use cryptiq.Jobs.{
  ScanJobStatus, ScanJobStatus-discrete, job_status_eq, Scan, ScanJob, assert_transition,
  should_retry,
}
use cryptiq.Jobs.Worker.{
  Database, Analysis, Outcome, done, raised, refused, crashed, analysed, claimed, claim_next_job,
  next_job, stopped, fail, complete, execute, run_next_job, update_scan, started_scan, failed_code,
  failed_message,
}

-- What an attempt leaves of a job: it is completed, it failed for good with its attempts spent, or it
-- waits for another attempt, unlocked, with attempts left.
unfoldable pub IsAttempted : ScanJob → ScanJob → Type 0
IsAttempted job after =
    (after.id ≡ job.id)
    × ((after.attempt_count ≡ job.attempt_count + 1)
        × ((after.max_attempts ≡ job.max_attempts)
            × ((after.status ≡ ScanJobStatus.completed)
                ⊎ (((after.status ≡ ScanJobStatus.failed)
                      × (job.max_attempts ≤ job.attempt_count + 1))
                    ⊎ ((after.status ≡ ScanJobStatus.queued)
                        × ((job.attempt_count + 1 < job.max_attempts)
                            × ((after.locked_at ≡ none) × (after.locked_by ≡ none))))))))

-- Without an error, the rows of the jobs change at one job, as an attempt changes it.
unfoldable pub Ends : ScanJob → Database → Outcome Database → Type 0
Ends job db outcome =
    (after : Database) × ((row : ScanJob) × ((outcome ≡ done after)
        × ((after.jobs ≡ put job.id row db.jobs) × IsAttempted job row)))

transitions :
    (assert_transition ScanJobStatus.queued ScanJobStatus.running ≡ none)
    × ((assert_transition ScanJobStatus.running ScanJobStatus.queued ≡ none)
        × ((assert_transition ScanJobStatus.running ScanJobStatus.failed ≡ none)
            × (assert_transition ScanJobStatus.running ScanJobStatus.completed ≡ none)))
unfolding assert_transition contains ScanJobStatus-discrete
transitions = (refl, (refl, (refl, refl)))

fail-Ends :
    (now later : ℕ) (worker code message : String) (job : ScanJob) (db : Database)
    → Ends job db (fail later (claimed now worker job) code message db)
unfolding fail Ends IsAttempted should_retry claimed stopped
fail-Ends now later worker code message job db =
    elim (Bool-cases (ltb (job.attempt_count + 1) job.max_attempts)) [
      | inl e ↦
          rw (e, fail)
            (rw (transitions.1.0, fail)
              (
                _,
                (
                  _,
                  (
                    refl,
                    (refl, (refl, (refl, (refl, inr (inr (refl, (ground arith, (refl, refl)))))))),
                  ),
                ),
              ))
      | inr e ↦
          rw (e, fail)
            (rw (transitions.1.1.0, fail)
              (_, (_, (refl, (refl, (refl, (refl, (refl, inr (inl (refl, ground arith))))))))))
    ]

complete-Ends :
    (now later : ℕ) (worker sha : String) (total analyzed skipped findings : ℕ) (job : ScanJob)
    (db : Database)
    → Ends job db (complete later (claimed now worker job) sha total analyzed skipped findings db)
unfolding complete Ends IsAttempted claimed
complete-Ends now later worker sha total analyzed skipped findings job db =
    rw (transitions.1.1.1, complete) (_, (_, (refl, (refl, (refl, (refl, (refl, inl refl)))))))

module _ (run : Scan → Analysis) (now later : ℕ) (worker : String) (job : ScanJob) where
  handled-Ends :
      (db : Database) (outcome : Outcome Database)
      → Ends job db outcome
      → Ends job db (elim outcome [
        | done after ↦ done after
        | raised _ ↦ fail later (claimed now worker job) failed_code failed_message db
      ])
  handled-Ends db (done after) h = h
  handled-Ends db (raised message) h = fail-Ends now later worker failed_code failed_message job db

  analysis-Ends :
      (db : Database) (analysis : Analysis)
      → Ends job db (elim analysis [
        | refused code message ↦ fail later (claimed now worker job) code message db
        | crashed ↦ fail later (claimed now worker job) failed_code failed_message db
        | analysed sha total analyzed skipped findings ↦
            elim (complete later (claimed now worker job) sha total analyzed skipped findings db) [
              | done after ↦ done after
              | raised _ ↦ fail later (claimed now worker job) failed_code failed_message db
            ]
      ])
  analysis-Ends db (refused code message) = fail-Ends now later worker code message job db
  analysis-Ends db crashed = fail-Ends now later worker failed_code failed_message job db
  analysis-Ends db (analysed sha total analyzed skipped findings) =
      handled-Ends db _ (complete-Ends now later worker sha total analyzed skipped findings job db)

  execute-Ends : (db : Database) → Ends job db (execute run later (claimed now worker job) db)
  unfolding execute claimed
  execute-Ends db = elim (Option-cases (lookup job.scan_id db.scans)) [
    | inl e ↦ rw (e, execute) (fail-Ends now later worker failed_code failed_message job db)
    | inr (scan, e) ↦ rw (e, execute) (analysis-Ends db (run scan))
  ]

  claimed_db : Database → Database
  claimed_db db = record db {
    jobs = put job.id (claimed now worker job) db.jobs;
    scans = update_scan job.scan_id (started_scan now) db.scans;
  }

  claim-claimed :
      (db : Database)
      → next_job db ≡ some job
      → job.status ≡ ScanJobStatus.queued
      → claim_next_job now worker db ≡ done (some (claimed now worker job), claimed_db db)
  unfolding claim_next_job claimed_db
  claim-claimed db n q =
      let legal : assert_transition job.status ScanJobStatus.running ≡ none =
        subst (λ status. assert_transition status ScanJobStatus.running ≡ none) (sym q)
          transitions.0 in
      rw (n, claim_next_job) (rw legal refl)

  run_next_job-at :
      (db : Database)
      → claim_next_job now worker db ≡ done (some (claimed now worker job), claimed_db db)
      → Ends job (claimed_db db) (execute run later (claimed now worker job) (claimed_db db))
      → (after : Database) × ((row : ScanJob) × ((run_next_job run now later worker db
              ≡ done (true, after))
            × ((after.jobs ≡ put job.id row db.jobs) × IsAttempted job row)))
  unfolding run_next_job Ends claimed_db
  run_next_job-at db c (after, (row, (e, (f, g)))) = (
    after,
    (
      row,
      (
        rw (c, run_next_job) (rw e refl),
        (f ∙ put-put job.id row (claimed now worker job) db.jobs, g),
      ),
    ),
  )

  -- The worker at the job that its query answers: no error is raised, and of all jobs that one alone is
  -- changed, as an attempt does.
  pub run_next_job-Attempted :
      (db : Database)
      → next_job db ≡ some job
      → job.status ≡ ScanJobStatus.queued
      → (after : Database) × ((row : ScanJob) × ((run_next_job run now later worker db
              ≡ done (true, after))
            × ((after.jobs ≡ put job.id row db.jobs) × IsAttempted job row)))
  run_next_job-Attempted db n q =
      run_next_job-at db (claim-claimed db n q) (execute-Ends (claimed_db db))
