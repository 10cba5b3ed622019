-- ===== src/Jobs/Queue/Capacity.antt =====
-- What a request for a scan (cryptiq/app/services/scans.py) may do to the queue.
use cryptiq.Shared.{
  ℕ, ◌+◌, ◌≤◌, ◌<◌, leb, beq_refl, String, true, false, some, List, [], ◌∷◌, ◌≡◌, inl, inr, refl,
  subst, arith, string_eq, Bool-cases, Option-cases, leb→lt,
}
use cryptiq.Shared.Dict.{put, put-IsDict}
use cryptiq.Shared.Each.{Each, Each-sort_by}
use cryptiq.Shared.Sort.{sort_by}
use cryptiq.Jobs.{ScanJobStatus, ScanJobStatus-discrete, ScanStatus, Scan, ScanJob}
use cryptiq.Jobs.Worker.{Database}
use cryptiq.Jobs.Attempts.{IsSound, IsSettled, AreSettled-put}
use cryptiq.Jobs.Queue.{
  Repository, Versions, Store, ScanIdentity, Reply, cached, too_many, queued_scan, Fresh, is_match,
  matching, older_scan, first_scan, find_completed_scan, in_flight, new_scan, new_job, enqueued,
  upsert_repository, identity_of, is_versions, create_scan,
}

new_job-IsSettled : (now : ℕ) (id scan_id : String) → IsSettled (new_job now id scan_id)
unfolding new_job IsSettled ScanJobStatus-discrete
new_job-IsSettled now id scan_id = (refl, (omega arith, λ _. omega arith))

new_job-id : (now : ℕ) (id scan_id : String) → id ≡ (new_job now id scan_id).id
unfolding new_job
new_job-id now id scan_id = refl

enqueued-IsSound :
    (fresh : Fresh) (now : ℕ) (scan : Scan) (db : Database)
    → IsSound db
    → IsSound (enqueued fresh now scan db)
unfolding IsSound enqueued
enqueued-IsSound fresh now scan db (d, h) = (
  put-IsDict fresh.job_id (new_job now fresh.job_id fresh.scan_id) db.jobs d,
  AreSettled-put fresh.job_id (new_job now fresh.job_id fresh.scan_id) db.jobs
      (new_job-id now fresh.job_id fresh.scan_id) (new_job-IsSettled now fresh.job_id fresh.scan_id)
      h,
)

in_flight-put :
    (id : String) (scan : Scan) (scans : List (String × Scan))
    → in_flight (put id scan scans) ≤ in_flight scans + 1
unfolding in_flight put
in_flight-put id scan [] = ground arith
in_flight-put id scan ((j, other) ∷ scans) = ground (arith, in_flight-put id scan scans)

enqueued-in_flight :
    (limit : ℕ) (fresh : Fresh) (now : ℕ) (scan : Scan) (db : Database)
    → leb limit (in_flight db.scans) ≡ false
    → in_flight (enqueued fresh now scan db).scans ≤ limit
unfolding enqueued
enqueued-in_flight limit fresh now scan db f =
    omega (arith, leb→lt limit (in_flight db.scans) f, in_flight-put fresh.scan_id scan db.scans)

matching-Each :
    (repositories : List (String × Repository)) (identity : ScanIdentity)
    (scans : List (String × Scan))
    → Each
        (matching repositories identity scans)
        (λ entry. is_match repositories identity entry.1 ≡ true)
unfolding Each
matching-Each repositories identity [] = tt
matching-Each repositories identity ((id, scan) ∷ scans) =
    elim (Bool-cases (is_match repositories identity scan)) [
      | inl e ↦ rw e (e, matching-Each repositories identity scans)
      | inr e ↦ rw e (matching-Each repositories identity scans)
    ]

first-match :
    (repositories : List (String × Repository)) (identity : ScanIdentity)
    (entries : List (String × Scan)) (found : String × Scan)
    → Each entries (λ entry. is_match repositories identity entry.1 ≡ true)
    → first_scan entries ≡ some found
    → is_match repositories identity found.1 ≡ true
unfolding Each
first-match repositories identity [] found h e = cc
first-match repositories identity (entry ∷ entries) found (h, k) e =
    subst (λ x. is_match repositories identity x.1 ≡ true) (some-injective e) h
  where
    some-injective : {x y : String × Scan} → some x ≡ some y → x ≡ y
    some-injective p = cc

pub find_completed_scan-match :
    (repositories : List (String × Repository)) (identity : ScanIdentity)
    (scans : List (String × Scan)) (found : String × Scan)
    → find_completed_scan repositories identity scans ≡ some found
    → is_match repositories identity found.1 ≡ true
unfolding find_completed_scan
find_completed_scan-match repositories identity scans found e =
    first-match repositories identity (sort_by older_scan (matching repositories identity scans))
      found
      (Each-sort_by older_scan (matching repositories identity scans)
        (λ entry. is_match repositories identity entry.1 ≡ true)
        (matching-Each repositories identity scans))
      e

-- A job that waits for its first attempt at the scan, with attempts ahead of it.
unfoldable pub IsWaiting : Fresh → ℕ → ScanJob → Type 0
IsWaiting fresh now job =
    (job.id ≡ fresh.job_id)
    × ((job.scan_id ≡ fresh.scan_id)
        × ((job.created_at ≡ now)
            × ((job.status ≡ ScanJobStatus.queued)
                × ((job.attempt_count ≡ 0) × (0 < job.max_attempts)))))

-- The row of a scan that was asked for: of the repository, the commit and the versions, and queued.
unfoldable pub IsRequested : String → String → Versions → ℕ → Scan → Type 0
IsRequested repository_id sha versions now scan =
    (scan.repository_id ≡ repository_id)
    × ((scan.commit_sha ≡ sha)
        × ((is_versions versions scan ≡ true)
            × ((scan.created_at ≡ now) × (scan.status ≡ ScanStatus.scan_queued))))

-- The rows after a scan is queued: those before, and a scan and a job that waits for it.
unfoldable pub IsQueued :
    String → String → Versions → Fresh → ℕ → Scan → Database → Database → Type 0
IsQueued repository_id sha versions fresh now scan before after =
    IsRequested repository_id sha versions now scan
    × ((after.scans ≡ put fresh.scan_id scan before.scans)
        × ((job : ScanJob) × (IsWaiting fresh now job
              × (after.jobs ≡ put fresh.job_id job before.jobs))))

-- What a reply says of the rows before and after the request.
unfoldable pub IsAnswered :
    ℕ → Versions → Fresh → ℕ → Repository → String → Store → Reply × Store → Type 0
IsAnswered limit versions fresh now reference sha store (cached found, after) =
    let row = (upsert_repository fresh.repository_id reference store.repositories).0.1 in
    (is_match after.repositories (identity_of row sha versions) found.1 ≡ true)
    × (after.db ≡ store.db)
IsAnswered limit versions fresh now reference sha store (too_many, after) =
    (limit ≤ in_flight store.db.scans) × (after.db ≡ store.db)
IsAnswered limit versions fresh now reference sha store (queued_scan (id, scan), after) =
    let repository_id = (upsert_repository fresh.repository_id reference store.repositories).0.0 in
    (id ≡ fresh.scan_id)
    × (IsQueued repository_id sha versions fresh now scan store.db after.db
        × ((in_flight after.db.scans ≤ limit) × (IsSound store.db → IsSound after.db)))

is_versions_refl :
    (now : ℕ) (repository_id sha : String) (versions : Versions)
    → is_versions versions (new_scan now repository_id sha versions) ≡ true
unfolding is_versions new_scan
is_versions_refl now repository_id sha versions =
    rw
      (
        beq_refl {A = String} versions.parser_version,
        beq_refl {A = String} versions.ruleset_version,
        beq_refl {A = String} versions.pqc_ruleset_version,
      )
      refl

enqueued-IsQueued :
    (fresh : Fresh) (now : ℕ) (repository_id sha : String) (versions : Versions) (db : Database)
    → IsQueued repository_id sha versions fresh now
        (new_scan now repository_id sha versions)
        db
        (enqueued fresh now (new_scan now repository_id sha versions) db)
unfolding IsQueued IsRequested IsWaiting enqueued new_scan new_job
enqueued-IsQueued fresh now repository_id sha versions db = (
  (refl, (refl, (is_versions_refl now repository_id sha versions, (refl, refl)))),
  (
    refl,
    (
      new_job now fresh.job_id fresh.scan_id,
      ((refl, (refl, (refl, (refl, (refl, omega arith))))), refl),
    ),
  ),
)

pub create_scan-IsAnswered :
    (limit : ℕ) (versions : Versions) (fresh : Fresh) (now : ℕ) (reference : Repository)
    (sha : String) (store : Store)
    → IsAnswered limit versions fresh now reference sha store
        (create_scan limit versions fresh now reference sha store)
unfolding create_scan IsAnswered
create_scan-IsAnswered limit versions fresh now reference sha store =
    let upserted = upsert_repository fresh.repository_id reference store.repositories in
    elim (Option-cases
      (find_completed_scan upserted.1 (identity_of upserted.0.1 sha versions) store.db.scans)) [
        | inr (found, e) ↦
            rw (e, create_scan)
              (
                find_completed_scan-match upserted.1 (identity_of upserted.0.1 sha versions)
                    store.db.scans found e,
                refl,
              )
        | inl e ↦ elim (Bool-cases (leb limit (in_flight store.db.scans))) [
          | inl f ↦ rw (e, create_scan) (rw f (ground arith, refl))
          | inr f ↦
              let scan = new_scan now upserted.0.0 sha versions in
              rw (e, create_scan)
                (rw f (
                  refl,
                  (
                    enqueued-IsQueued fresh now upserted.0.0 sha versions store.db,
                    (
                      enqueued-in_flight limit fresh now scan store.db f,
                      enqueued-IsSound fresh now scan store.db,
                    ),
                  ),
                ))
        ]
      ]
