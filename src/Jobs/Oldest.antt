-- ===== src/Jobs/Oldest.antt =====
-- Which job the worker takes: `_claim_next_job` of cryptiq/app/worker.py.
use cryptiq.Shared.{
  ℕ, ◌≤◌, String, true, false, none, some, List, [], ◌∷◌, ◌==◌, ◌≡◌, ◌⊎◌, inl, inr, refl, ap, sym,
  subst, arith, string_eq, Bool-cases, Option-cases,
}
use cryptiq.Shared.Dict.{IsDict, lookup, put}
use cryptiq.Shared.Sort.{sort_by, insert_by, is_gt}
use cryptiq.Shared.Each.{Each, Each-weaken}
use cryptiq.Jobs.Steps.{IsAttempted, run_next_job-Attempted}
use cryptiq.Jobs.Attempts.{AreSettled, IsQueuedIn, next_job-IsQueuedIn}
use cryptiq.Jobs.{ScanJobStatus, job_status_eq, Scan, ScanJob}
use cryptiq.Jobs.Worker.{
  Database, Analysis, done, next_job, queued_jobs, first, older, run_next_job,
}

older-gt : (a b : ScanJob) → is_gt (older a b) ≡ true → b.created_at ≤ a.created_at
unfolding older
older-gt a b h = ground arith

older-le : (a b : ScanJob) → is_gt (older a b) ≡ false → a.created_at ≤ b.created_at
unfolding older
older-le a b h = ground arith

first-insert_by :
    (job : ScanJob) (jobs : List ScanJob) → first (insert_by older job jobs) ≡ none → ⊥
unfolding insert_by
first-insert_by job [] h = cc
first-insert_by job (other ∷ jobs) h = ground arith

first-sort_by : (jobs : List ScanJob) → first (sort_by older jobs) ≡ none → jobs ≡ []
unfolding sort_by
first-sort_by [] h = refl
first-sort_by (job ∷ jobs) h = absurd (first-insert_by job (sort_by older jobs) h)

pub next_job-none : (db : Database) → next_job db ≡ none → queued_jobs db.jobs ≡ []
unfolding next_job
next_job-none db e = first-sort_by (queued_jobs db.jobs) e

-- No job of the list was created before the given one.
unfoldable pub IsOldest : List ScanJob → ScanJob → Type 0
IsOldest jobs job = Each jobs (λ other. job.created_at ≤ other.created_at)

insert_by-IsOldest :
    (job top : ScanJob) (sorted jobs : List ScanJob)
    → (first sorted ≡ none → jobs ≡ [])
    → ((found : ScanJob) → first sorted ≡ some found → IsOldest jobs found)
    → first (insert_by older job sorted) ≡ some top
    → IsOldest (job ∷ jobs) top
unfolding insert_by IsOldest Each
insert_by-IsOldest job top [] jobs n h e =
    let same : job ≡ top = ground (arith, e) in
    subst (λ x. IsOldest x top) (ap (λ x. job ∷ x) (sym (n refl)))
      (subst (λ x. IsOldest (job ∷ []) x) same (omega arith, tt))
insert_by-IsOldest job top (other ∷ sorted) jobs n h e =
    elim (Bool-cases (is_gt (older job other))) [
      | inl g ↦
          let same : other ≡ top = ground (arith, g, e) in
          (
            subst (λ x. x.created_at ≤ job.created_at) same (older-gt job other g),
            h top (ap some same),
          )
      | inr g ↦
          let same : job ≡ top = ground (arith, g, e) in
          subst (λ x. IsOldest (job ∷ jobs) x) same
            (
              omega arith,
              Each-weaken jobs (λ x. other.created_at ≤ x.created_at)
                  (λ x. job.created_at ≤ x.created_at)
                  (λ x k. omega (arith, k, older-le job other g)) (h other refl),
            )
    ]

sort_by-IsOldest :
    (jobs : List ScanJob) (top : ScanJob)
    → first (sort_by older jobs) ≡ some top
    → IsOldest jobs top
unfolding sort_by
sort_by-IsOldest [] top e = absurd (ground (arith, e))
sort_by-IsOldest (job ∷ jobs) top e =
    insert_by-IsOldest job top (sort_by older jobs) jobs (first-sort_by jobs)
      (sort_by-IsOldest jobs) e

-- No queued row of the table was created before the job.
unfoldable pub IsNext : List (String × ScanJob) → ScanJob → Type 0
IsNext jobs job =
    Each jobs (λ row.
      ((row.1.status == ScanJobStatus.queued) ≡ false) ⊎ (job.created_at ≤ row.1.created_at))

queued_jobs-IsNext :
    (job : ScanJob) (jobs : List (String × ScanJob))
    → IsOldest (queued_jobs jobs) job
    → IsNext jobs job
unfolding IsNext IsOldest Each
queued_jobs-IsNext job [] h = tt
queued_jobs-IsNext job ((id, other) ∷ jobs) h =
    elim (Bool-cases (other.status == ScanJobStatus.queued)) [
      | inr q ↦ (inl q, queued_jobs-IsNext job jobs (ground (arith, q, h)))
      | inl q ↦
          let (old, rest) : IsOldest (other ∷ queued_jobs jobs) job = ground (arith, q, h) in
          (inr old, queued_jobs-IsNext job jobs rest)
    ]

queued_jobs-some :
    (id : String) (other : ScanJob) (jobs : List (String × ScanJob))
    → lookup id jobs ≡ some other
    → other.status ≡ ScanJobStatus.queued
    → queued_jobs jobs ≡ []
    → ⊥
unfolding lookup
queued_jobs-some id other [] l q e = ground (arith, l)
queued_jobs-some id other ((j, job) ∷ jobs) l q e =
    ground (arith, l, q, e, queued_jobs-some id other jobs)

next_job-some :
    (db : Database) (id : String) (other : ScanJob)
    → lookup id db.jobs ≡ some other
    → other.status ≡ ScanJobStatus.queued
    → (job : ScanJob) × ((next_job db ≡ some job) × IsNext db.jobs job)
unfolding next_job
next_job-some db id other l q = elim (Option-cases (next_job db)) [
  | inl e ↦ absurd (queued_jobs-some id other db.jobs l q (next_job-none db e))
  | inr (job, e) ↦
      (job, (e, queued_jobs-IsNext job db.jobs (sort_by-IsOldest (queued_jobs db.jobs) job e)))
]

module _ (run : Scan → Analysis) (now later : ℕ) (worker : String) where
  -- If the table has its jobs by their identifiers, none of them is running, each queued job has
  -- attempts left, and some job is queued, the worker takes a queued job of the table that no other
  -- queued one was created before: it never raises an error, and of all jobs it changes that one alone,
  -- as an attempt does. The job is completed, or failed with its attempts spent, or queued again,
  -- unlocked and with attempts left.
  pub run_next_job-takes :
      (db : Database) (id : String) (other : ScanJob)
      → IsDict db.jobs
      → AreSettled db.jobs
      → lookup id db.jobs ≡ some other
      → other.status ≡ ScanJobStatus.queued
      → (job : ScanJob) × (((lookup job.id db.jobs ≡ some job)
            × ((job.status ≡ ScanJobStatus.queued) × IsNext db.jobs job))
          × ((after : Database) × ((row : ScanJob) × ((run_next_job run now later worker db
                    ≡ done (true, after))
                  × ((after.jobs ≡ put job.id row db.jobs) × IsAttempted job row)))))
  unfolding IsQueuedIn
  run_next_job-takes db id other d h l q =
      let (job, (e, oldest)) = next_job-some db id other l q in
      let (queued, (there, _)) = next_job-IsQueuedIn db job d h e in
      (
        job,
        ((there, (queued, oldest)), run_next_job-Attempted run now later worker job db e queued),
      )
