-- ===== src/Ingestion/Extract/Contained.antt =====
-- Whatever an archive holds, extract_zip of cryptiq/app/engine/ingestion/archive.py keeps below its
-- destination and to its limits.
use cryptiq.Shared.{
  ℕ, ◌+◌, ◌≤◌, String, Bool, Option, none, some, List, [], ◌∷◌, ◌≡◌, arith, inl, inr,
}
use cryptiq.Shared.Each.{Each}
use cryptiq.Shared.Dict.{length}
use cryptiq.Ingestion.Outcome.{
  Result, ok, err, Error, Result-cases, IngestionLimits, check_extracted_bytes, check_file_count,
  malformed,
}
use cryptiq.Ingestion.Paths.Safe.{IsSafePath}
use cryptiq.Ingestion.Disk.{Disk, empty_disk, total_bytes}
use cryptiq.Ingestion.Disk.Laws.{AreAll}
use cryptiq.Ingestion.Archive.{ZipInfo}
use cryptiq.Ingestion.Extract.{
  extract_member, after_member, extract_from, count_files, check_names, declared, extract_members,
  extract_zip, top_level,
}
use cryptiq.Ingestion.Extract.Writes.{IsWithin}
use cryptiq.Ingestion.Extract.Placed.{Placed, new_files, extract_member-Placed}

module _ (resolve : List String → List String) (limits : IngestionLimits) where
  Within : ℕ → Result ℕ × Disk → Type 0
  Within files (result, disk) =
      IsWithin limits.max_extracted_bytes disk × (length disk.files ≤ files)

  -- What follows a member that is placed keeps to what the whole may add.
  continued :
      (info : ZipInfo) (infos : List ZipInfo) (disk disk' : Disk) (outcome : Result ℕ × Disk)
      → length disk'.files ≤ length disk.files + new_files info
      → Within (length disk'.files + count_files infos) outcome
      → Within (length disk.files + count_files (info ∷ infos)) outcome
  unfolding Within count_files
  continued info infos disk disk' outcome fewer (w, n) = (w, ground (arith, n, fewer))

  after_member-Within :
      (info : ZipInfo) (infos : List ZipInfo) (extracted count : ℕ) (disk : Disk)
      (continue : ℕ → ℕ → Disk → Result ℕ × Disk)
      → ((extracted' count' : ℕ) (disk' : Disk)
          → IsWithin limits.max_extracted_bytes disk'
          → total_bytes disk'.files ≤ extracted'
          → Within (length disk'.files + count_files infos) (continue extracted' count' disk'))
      → (outcome : Result (Option ℕ) × Disk)
      → Placed limits.max_extracted_bytes extracted (length disk.files + new_files info) outcome
      → Within
          (length disk.files + count_files (info ∷ infos))
          (after_member extracted count continue outcome)
  unfolding after_member Within Placed count_files
  after_member-Within info infos extracted count disk continue h (err error, disk') (w, t, n) =
      (w, ground (arith, n))
  after_member-Within info infos extracted count disk continue h (ok none, disk') (w, t, n) =
      continued info infos disk disk' (continue extracted count disk') n
        (h extracted count disk' w t)
  after_member-Within info infos extracted count disk continue h (ok (some written), disk')
        (w, t, n) =
      continued info infos disk disk' (continue (extracted + written) (count + 1) disk') n
        (h (extracted + written) (count + 1) disk' w t)

  extract_from-Within :
      (prefix : Option String) (infos : List ZipInfo) (extracted count : ℕ) (disk : Disk)
      → IsWithin limits.max_extracted_bytes disk
      → total_bytes disk.files ≤ extracted
      → Within
          (length disk.files + count_files infos)
          (extract_from resolve limits prefix infos extracted count disk)
  unfolding extract_from count_files Within
  extract_from-Within prefix [] extracted count disk w t = (w, omega arith)
  extract_from-Within prefix (info ∷ infos) extracted count disk w t =
      after_member-Within info infos extracted count disk (extract_from resolve limits prefix infos)
        (extract_from-Within prefix infos)
        (extract_member resolve limits prefix info extracted disk)
        (extract_member-Placed resolve limits info extracted disk w t prefix)

  empty-IsWithin : IsWithin limits.max_extracted_bytes empty_disk
  unfolding IsWithin AreAll Each
  empty-IsWithin = ((tt, tt), omega arith)

  refused-Within : (error : Error) → Within limits.max_files (err error, empty_disk)
  unfolding Within
  refused-Within error = (empty-IsWithin, omega arith)

  few :
      (infos : List ZipInfo) (outcome : Result ℕ × Disk) {u : Unit {0}}
      → check_file_count limits (count_files infos) ≡ ok u
      → Within (0 + count_files infos) outcome
      → Within limits.max_files outcome
  unfolding Within check_file_count
  few infos outcome e (w, n) = (w, ground (arith, e, n))

  extract_members-Within :
      (prefix : Option String) (infos : List ZipInfo)
      → Within limits.max_files (extract_members resolve limits prefix infos empty_disk)
  unfolding extract_members
  extract_members-Within prefix infos =
      elim (Result-cases (check_file_count limits (count_files infos))) [
        | inr (error, e) ↦ rw (e, extract_members) (refused-Within error)
        | inl (_, a) ↦ elim (Result-cases (check_names infos)) [
          | inr (error, e) ↦ rw (a, e, extract_members) (refused-Within error)
          | inl (_, b) ↦ elim (Result-cases (check_extracted_bytes limits (declared infos))) [
            | inr (error, e) ↦ rw (a, b, e, extract_members) (refused-Within error)
            | inl (_, c) ↦
                rw (a, b, c, extract_members)
                  (few infos (extract_from resolve limits prefix infos 0 0 empty_disk) a
                    (extract_from-Within prefix infos 0 0 empty_disk empty-IsWithin (omega arith)))
          ]
        ]
      ]

  -- Whatever the members of an archive are, and whether or not the extraction raises: each path on the
  -- disk is made of names that cannot lead out of the destination, the files there hold no more bytes
  -- than max_extracted_bytes, and there are at most max_files of them.
  pub extract_zip-IsContained :
      (archive : Option (List ZipInfo)) (strip_top_level : Bool)
      → AreAll IsSafePath (extract_zip resolve limits archive strip_top_level empty_disk).1
        × (total_bytes (extract_zip resolve limits archive strip_top_level empty_disk).1.files
            ≤ limits.max_extracted_bytes)
        × (length (extract_zip resolve limits archive strip_top_level empty_disk).1.files
            ≤ limits.max_files)
  unfolding extract_zip Within IsWithin
  extract_zip-IsContained none strip_top_level =
      let h = refused-Within malformed in (h.0.0, h.0.1, h.1)
  extract_zip-IsContained (some infos) strip_top_level =
      let h = extract_members-Within (top_level infos strip_top_level) infos in (h.0.0, h.0.1, h.1)
