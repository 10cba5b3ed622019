-- ===== src/Jobs/Attempts.antt =====
-- What an iteration of the worker (cryptiq/app/worker.py) keeps of the jobs, and what it takes from their
-- attempts.
use cryptiq.Shared.{
  ℕ, ◌+◌, ◌-◌, ◌≤◌, ◌<◌, String, true, false, none, some, List, [], ◌∷◌, ◌==◌, ◌≡◌, inl, inr, refl,
  sym, subst, ◌∙◌, arith, string_eq, if◌then◌else◌, Bool-cases,
}
use cryptiq.Shared.Dict.{lookup, put, IsDict, put-IsDict}
use cryptiq.Shared.Sort.{sort_by}
use cryptiq.Shared.Each.{Each, Each-weaken, Each-sort_by}
use cryptiq.Jobs.{ScanJobStatus, ScanJobStatus-discrete, job_status_eq, Scan, ScanJob}
use cryptiq.Jobs.Worker.{
  Database, Analysis, done, next_job, queued_jobs, first, older, claim_next_job, run_next_job,
  iterate,
}
use cryptiq.Jobs.Steps.{IsAttempted, run_next_job-Attempted}

abbrev pub Jobs : Type 0
Jobs = List (String × ScanJob)

-- A job between two iterations: no worker runs it, and a queued one has attempts left.
unfoldable pub IsSettled : ScanJob → Type 0
IsSettled job =
    ((job.status == ScanJobStatus.running) ≡ false)
    × ((job.attempt_count ≤ job.max_attempts)
        × ((job.status == ScanJobStatus.queued) ≡ true → job.attempt_count < job.max_attempts))

-- The table has its jobs by their identifiers, and all are settled.
unfoldable pub AreSettled : Jobs → Type 0
AreSettled [] = Unit
AreSettled ((id, job) ∷ jobs) = (id ≡ job.id) × (IsSettled job × AreSettled jobs)

-- The attempts that a job can still take.
unfoldable pub attempts_left : ScanJob → ℕ
attempts_left job =
    if job.status == ScanJobStatus.queued then job.max_attempts - job.attempt_count else 0

unfoldable pub total_left : Jobs → ℕ
total_left [] = 0
total_left ((_, job) ∷ jobs) = attempts_left job + total_left jobs

IsAttempted-IsSettled :
    (job row : ScanJob) → job.attempt_count < job.max_attempts → IsAttempted job row → IsSettled row
unfolding IsAttempted IsSettled ScanJobStatus-discrete
IsAttempted-IsSettled job row l h = ground arith

attempts_left-less :
    (job row : ScanJob)
    → job.status ≡ ScanJobStatus.queued
    → job.attempt_count < job.max_attempts
    → IsAttempted job row
    → attempts_left row < attempts_left job
unfolding IsAttempted attempts_left ScanJobStatus-discrete
attempts_left-less job row q l h = ground arith

pub AreSettled-put :
    (id : String) (row : ScanJob) (jobs : Jobs)
    → id ≡ row.id
    → IsSettled row
    → AreSettled jobs
    → AreSettled (put id row jobs)
unfolding AreSettled put
AreSettled-put id row [] e s h = (e, (s, tt))
AreSettled-put id row ((j, job) ∷ jobs) e s (f, (t, h)) = elim (Bool-cases (j == id)) [
  | inl g ↦ rw g ((string_eq.beq_iff j id).0 g ∙ e, (s, h))
  | inr g ↦ rw g (f, (t, AreSettled-put id row jobs e s h))
]

total_left-put :
    (id : String) (job row : ScanJob) (jobs : Jobs)
    → lookup id jobs ≡ some job
    → total_left (put id row jobs) + attempts_left job ≡ total_left jobs + attempts_left row
unfolding total_left put lookup
total_left-put id job row [] e = cc
total_left-put id job row ((j, other) ∷ jobs) e = ground (arith, total_left-put id job row jobs)

-- The jobs that the worker's query can answer are queued, and in the table.
unfoldable pub IsQueuedIn : Jobs → ScanJob → Type 0
IsQueuedIn jobs job =
    (job.status ≡ ScanJobStatus.queued) × ((lookup job.id jobs ≡ some job) × IsSettled job)

IsQueuedIn-cons :
    (id : String) (job : ScanJob) (jobs : Jobs)
    → lookup id jobs ≡ none
    → (other : ScanJob) → IsQueuedIn jobs other
    → IsQueuedIn ((id, job) ∷ jobs) other
unfolding IsQueuedIn lookup
IsQueuedIn-cons id job jobs n other (q, (l, s)) = elim (Bool-cases (id == other.id)) [
  | inl e ↦ absurd (
      none≢some
        (sym (subst (λ k. lookup k jobs ≡ none) ((string_eq.beq_iff id other.id).0 e) n) ∙ l))
  | inr e ↦ rw e (q, (l, s))
]
  where
    none≢some : none ≡ some other → ⊥
    none≢some e = cc

Each-queued :
    (id : String) (job : ScanJob) (jobs : Jobs)
    → id ≡ job.id
    → IsSettled job
    → Each (queued_jobs jobs) (IsQueuedIn ((id, job) ∷ jobs))
    → Each (queued_jobs ((id, job) ∷ jobs)) (IsQueuedIn ((id, job) ∷ jobs))
unfolding Each IsQueuedIn lookup
Each-queued id job jobs e s h = elim (Bool-cases (job.status == ScanJobStatus.queued)) [
  | inl q ↦ rw q (
    (
      (job_status_eq.beq_iff job.status ScanJobStatus.queued).0 q,
      (rw ((string_eq.beq_iff id job.id).1 e) refl, s),
    ),
    h,
  )
  | inr q ↦ rw q h
]

first-Each :
    (jobs : List ScanJob) (P : ScanJob → Type 0) (job : ScanJob)
    → Each jobs P
    → first jobs ≡ some job
    → P job
unfolding Each
first-Each [] P job h e = cc
first-Each (other ∷ jobs) P job (h, k) e = subst P (some-injective e) h
  where
    some-injective : {x y : ScanJob} → some x ≡ some y → x ≡ y
    some-injective p = cc

queued_jobs-Each :
    (jobs : Jobs) → IsDict jobs → AreSettled jobs → Each (queued_jobs jobs) (IsQueuedIn jobs)
unfolding Each AreSettled
queued_jobs-Each [] d h = tt
queued_jobs-Each ((id, job) ∷ jobs) (n, d) (e, (s, h)) = Each-queued id job jobs e s (
    Each-weaken (queued_jobs jobs) (IsQueuedIn jobs) (IsQueuedIn ((id, job) ∷ jobs))
      (IsQueuedIn-cons id job jobs n) (queued_jobs-Each jobs d h))

pub next_job-IsQueuedIn :
    (db : Database) (job : ScanJob)
    → IsDict db.jobs
    → AreSettled db.jobs
    → next_job db ≡ some job
    → IsQueuedIn db.jobs job
unfolding next_job
next_job-IsQueuedIn db job d h e =
    first-Each (sort_by older (queued_jobs db.jobs)) (IsQueuedIn db.jobs) job
      (Each-sort_by older (queued_jobs db.jobs) (IsQueuedIn db.jobs) (queued_jobs-Each db.jobs d h))
      e

IsQueuedIn-status :
    (job : ScanJob) (db : Database) → IsQueuedIn db.jobs job → job.status ≡ ScanJobStatus.queued
unfolding IsQueuedIn
IsQueuedIn-status job db h = h.0

IsAttempted-id : (job row : ScanJob) → IsAttempted job row → job.id ≡ row.id
unfolding IsAttempted
IsAttempted-id job row h = sym h.0

-- What an iteration keeps, and what it takes from the attempts that are left.
unfoldable pub IsSound : Database → Type 0
IsSound db = IsDict db.jobs × AreSettled db.jobs

pub IsSound-pair : (db : Database) → IsDict db.jobs → AreSettled db.jobs → IsSound db
unfolding IsSound
IsSound-pair db d h = (d, h)

pub IsSound-IsDict : (db : Database) → IsSound db → IsDict db.jobs
unfolding IsSound
IsSound-IsDict db h = h.0

pub IsSound-AreSettled : (db : Database) → IsSound db → AreSettled db.jobs
unfolding IsSound
IsSound-AreSettled db h = h.1

put-IsSound :
    (job row : ScanJob) (db after : Database)
    → IsSound db
    → IsQueuedIn db.jobs job
    → IsAttempted job row
    → after.jobs ≡ put job.id row db.jobs
    → IsSound after × (total_left after.jobs < total_left db.jobs)
unfolding IsSound IsQueuedIn IsSettled ScanJobStatus-discrete
put-IsSound job row db after (d, h) (q, (l, s)) a e =
    let left = s.1.1 ((job_status_eq.beq_iff job.status ScanJobStatus.queued).1 q) in
    (
      (
        subst IsDict (sym e) (put-IsDict job.id row db.jobs d),
        subst AreSettled (sym e) (
            AreSettled-put job.id row db.jobs (IsAttempted-id job row a)
              (IsAttempted-IsSettled job row left a) h),
      ),
      subst (λ jobs. total_left jobs < total_left db.jobs) (sym e)
          (omega
            (arith, total_left-put job.id job row db.jobs l, attempts_left-less job row q left a)),
    )

module _ (run : Scan → Analysis) (now later : ℕ) (worker : String) where
  iterate-done :
      (db after : Database)
      → run_next_job run now later worker db ≡ done (true, after)
      → (iterate run now later worker db).1 ≡ after
  unfolding iterate
  iterate-done db after e = rw (e, iterate) refl

  pub iterate-next :
      (db : Database) (job : ScanJob)
      → IsSound db
      → next_job db ≡ some job
      → IsSound (iterate run now later worker db).1
        × (total_left (iterate run now later worker db).1.jobs < total_left db.jobs)
  unfolding IsSound
  iterate-next db job (d, h) e =
      let place = next_job-IsQueuedIn db job d h e in
      let step =
        run_next_job-Attempted run now later worker job db e (IsQueuedIn-status job db place) in
      let after = step.0 in
      subst (λ x. IsSound x × (total_left x.jobs < total_left db.jobs))
        (sym (iterate-done db after step.1.1.0))
        (put-IsSound job step.1.0 db after (d, h) place step.1.1.1.1 step.1.1.1.0)

  pub iterate-idle :
      (db : Database) → next_job db ≡ none → iterate run now later worker db ≡ (false, db)
  unfolding iterate run_next_job claim_next_job
  iterate-idle db e = rw (e, iterate, run_next_job, claim_next_job) refl
