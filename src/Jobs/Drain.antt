-- ===== src/Jobs/Drain.antt =====
-- The worker drains its queue: `worker_loop` of cryptiq/app/worker.py.
use cryptiq.Shared.{
  ℕ, ◌≤◌, String, true, false, none, List, [], ◌∷◌, ◌==◌, ◌≡◌, inl, inr, refl, sym, subst, arith,
  string_eq, Bool-cases, Option-cases, contains,
}
use cryptiq.Shared.Dict.{IsDict, length}
use cryptiq.Jobs.{ScanJobStatus, ScanJobStatus-discrete, job_status_eq, Scan, ScanJob, is_terminal}
use cryptiq.Jobs.Worker.{Database, Analysis, next_job, queued_jobs, iterate}
use cryptiq.Jobs.Oldest.{next_job-none}
use cryptiq.Jobs.Attempts.{
  Jobs, IsSettled, AreSettled, attempts_left, total_left, IsSound-pair, IsSound-IsDict,
  IsSound-AreSettled, iterate-next, iterate-idle,
}

-- `worker_loop` at the given times of its iterations: each is the time of the claim and that of the
-- end of the attempt.
unfoldable pub work : (Scan → Analysis) → String → List (ℕ × ℕ) → Database → Database
work run worker [] db = db
work run worker ((now, later) ∷ times) db =
    work run worker times (iterate run now later worker db).1

-- Every job has come to its end.
unfoldable pub AreFinished : Jobs → Type 0
AreFinished [] = Unit
AreFinished ((_, job) ∷ jobs) = (is_terminal job.status ≡ true) × AreFinished jobs

settled-terminal :
    (job : ScanJob)
    → IsSettled job
    → (job.status == ScanJobStatus.queued) ≡ false
    → is_terminal job.status ≡ true
unfolding IsSettled is_terminal contains ScanJobStatus-discrete
settled-terminal job s q = ground arith

spent-queued :
    (job : ScanJob)
    → IsSettled job
    → attempts_left job ≡ 0
    → (job.status == ScanJobStatus.queued) ≡ false
unfolding IsSettled attempts_left
spent-queued job s e = ground arith

idle-AreFinished : (jobs : Jobs) → AreSettled jobs → queued_jobs jobs ≡ [] → AreFinished jobs
unfolding AreFinished AreSettled
idle-AreFinished [] h e = tt
idle-AreFinished ((id, job) ∷ jobs) (_, (s, h)) e =
    elim (Bool-cases (job.status == ScanJobStatus.queued)) [
      | inl q ↦ absurd (ground (arith, q, e))
      | inr q ↦ (settled-terminal job s q, idle-AreFinished jobs h (ground (arith, q, e)))
    ]

spent-AreFinished : (jobs : Jobs) → AreSettled jobs → total_left jobs ≡ 0 → AreFinished jobs
unfolding AreFinished AreSettled total_left
spent-AreFinished [] h e = tt
spent-AreFinished ((id, job) ∷ jobs) (_, (s, h)) e = (
  settled-terminal job s (spent-queued job s (omega (arith, e))),
  spent-AreFinished jobs h (omega (arith, e)),
)

work-idle :
    (run : Scan → Analysis) (worker : String) (times : List (ℕ × ℕ)) (db : Database)
    → next_job db ≡ none
    → work run worker times db ≡ db
unfolding work
work-idle run worker [] db e = refl
work-idle run worker ((now, later) ∷ times) db e =
    rw (iterate-idle run now later worker db e) (work-idle run worker times db e)

-- If the table has its jobs by their identifiers, none of them is running at the start, and each queued
-- job has attempts left, the worker brings every job to its end: once it has gone round as often as its
-- jobs have attempts left, whatever the analyses come to, each job is completed, failed or cancelled. A job
-- that a killed worker has left running is not covered.
pub work-AreFinished :
    (run : Scan → Analysis) (worker : String) (times : List (ℕ × ℕ)) (db : Database)
    → IsDict db.jobs
    → AreSettled db.jobs
    → total_left db.jobs ≤ length times
    → AreFinished (work run worker times db).jobs
unfolding work
work-AreFinished run worker [] db d h l = spent-AreFinished db.jobs h (omega (arith, l))
work-AreFinished run worker ((now, later) ∷ times) db d h l = elim (Option-cases (next_job db)) [
  | inl e ↦
      subst (λ x. AreFinished x.jobs) (sym (work-idle run worker ((now, later) ∷ times) db e))
        (idle-AreFinished db.jobs h (next_job-none db e))
  | inr (job, e) ↦
      let next = iterate-next run now later worker db job (IsSound-pair db d h) e in
      work-AreFinished run worker times (iterate run now later worker db).1
        (IsSound-IsDict _ next.0) (IsSound-AreSettled _ next.0) (omega (arith, l, next.1))
]
