-- ===== src/Ingestion/Extract/Placed.antt =====
-- The body of the loop of _extract_members in cryptiq/app/engine/ingestion/archive.py, on one member.
use cryptiq.Shared.{
  ℕ, ◌+◌, ◌≤◌, String, true, false, Option, none, some, List, [], ◌≡◌, refl, ◌∙◌, ap, subst, arith,
  Bool-cases, Option-cases, inl, inr, list_eq, string_eq, if◌then◌else◌,
}
use cryptiq.Shared.Dict.{length}
use cryptiq.Ingestion.Outcome.{Result, ok, err, Result-cases, IngestionLimits}
use cryptiq.Ingestion.Paths.{parent, safe_relative_path}
use cryptiq.Ingestion.Paths.Safe.{IsSafePath, safe_relative_path-IsSafePath, parent-Each}
use cryptiq.Ingestion.Disk.{Disk, total_bytes, mkdir}
use cryptiq.Ingestion.Disk.Laws.{AreAll, mkdir-files}
use cryptiq.Ingestion.Archive.{ZipInfo, is_dir, is_symlink, assert_supported_member, assert_within}
use cryptiq.Ingestion.Extract.{
  below_prefix, check_link, write_member, write_or_make, place_member, extract_member, call,
  and_then, lift,
}
use cryptiq.Ingestion.Extract.Directories.{mkdir-AreAll, below_prefix-IsSafePath}
use cryptiq.Ingestion.Extract.Writes.{IsWithin, Written, write_member-Written}

-- At most how many files a member adds.
abbrev pub new_files : ZipInfo → ℕ
new_files info = if is_dir info then 0 else 1

abbrev pub Sums : ℕ → Result (Option ℕ) → Disk → Type 0
Sums extracted (ok none) disk = total_bytes disk.files ≤ extracted
Sums extracted (ok (some written)) disk = total_bytes disk.files ≤ extracted + written
Sums extracted (err error) disk = Unit

-- The outcome for one member, whatever its result.
unfoldable pub Placed : ℕ → ℕ → ℕ → Result (Option ℕ) × Disk → Type 0
Placed limit extracted files (result, disk) =
    IsWithin limit disk × Sums extracted result disk × (length disk.files ≤ files)

module _ (resolve : List String → List String) (limits : IngestionLimits) where
  abbrev limit : ℕ
  limit = limits.max_extracted_bytes

  counted :
      (already files : ℕ) (outcome : Result ℕ × Disk)
      → Written limit already files outcome
      → Placed limit already files (and_then outcome (λ (n : ℕ). lift (ok (some n))))
  unfolding Written Placed
  counted already files (ok written, disk) h = h
  counted already files (err error, disk) h = h

  -- What is below the destination before a member is there after it.
  module _ (info : ZipInfo) (extracted : ℕ) (disk : Disk) (within : IsWithin limit disk)
      (sums : total_bytes disk.files ≤ extracted) where
    unchanged :
        (result : Result (Option ℕ))
        → Sums extracted result disk
        → Placed limit extracted (length disk.files + new_files info) (result, disk)
    unfolding Placed
    unchanged result s = (within, s, omega arith)

    directory-Placed :
        (path : List String)
        → IsSafePath path
        → is_dir info ≡ true
        → Placed limit extracted
            (length disk.files + new_files info)
            (write_or_make resolve limits info extracted path disk)
    unfolding Placed IsWithin IsSafePath write_or_make AreAll
    directory-Placed path p d = elim (Option-cases (mkdir path disk)) [
      | inl e ↦ rw (d, e, write_or_make, call) (within, tt, omega arith)
      | inr (disk', e) ↦
          let same = mkdir-files path disk disk' e in
          rw (d, e, write_or_make, call)
            (
              (mkdir-AreAll path disk disk' p.1 within.0 e, rw same within.1),
              rw same sums,
              rw same (omega arith),
            )
    ]

    file-Placed :
        (path : List String)
        → IsSafePath path
        → is_dir info ≡ false
        → Placed limit extracted
            (length disk.files + new_files info)
            (write_or_make resolve limits info extracted path disk)
    unfolding Placed IsWithin IsSafePath write_or_make AreAll
    file-Placed path p d = elim (Option-cases (mkdir (parent path) disk)) [
      | inl e ↦ rw (d, e, write_or_make, call) (within, tt, omega arith)
      | inr (disk', e) ↦
          let same = mkdir-files (parent path) disk disk' e in
          let safe = mkdir-AreAll (parent path) disk disk' (parent-Each path p.1) within.0 e in
          rw (d, e, write_or_make, call)
            (counted extracted (length disk.files + 1)
              (write_member limits info path extracted disk')
              (subst
                (λ n.
                  Written limit extracted (n + 1) (write_member limits info path extracted disk'))
                (ap length same)
                (write_member-Written limits info path extracted disk' p (safe, rw same within.1)
                  (rw same sums))))
    ]

    member-Placed :
        (path : List String)
        → IsSafePath path
        → Placed limit extracted
            (length disk.files + new_files info)
            (write_or_make resolve limits info extracted path disk)
    member-Placed path p = elim (Bool-cases (is_dir info)) [
      | inl d ↦ directory-Placed path p d
      | inr d ↦ file-Placed path p d
    ]

    place_member-Placed :
        (place : Option (List String))
        → ((path : List String) → place ≡ some path → IsSafePath path)
        → Placed limit extracted
            (length disk.files + new_files info)
            (place_member resolve limits info extracted place disk)
    unfolding place_member
    place_member-Placed none p = unchanged (ok none) sums
    place_member-Placed (some path) p = elim (Bool-cases (is_symlink info)) [
      | inl s ↦ elim (Result-cases (check_link info path)) [
        | inl (_, e) ↦ rw (s, e, place_member) (unchanged (ok none) sums)
        | inr (error, e) ↦ rw (s, e, place_member) (unchanged (err error) tt)
      ]
      | inr s ↦ elim (Result-cases (assert_within (resolve []) (resolve path))) [
        | inl (_, e) ↦ rw (s, e, place_member) (member-Placed path (p path refl))
        | inr (error, e) ↦ rw (s, e, place_member) (unchanged (err error) tt)
      ]
    ]

    pub extract_member-Placed :
        (prefix : Option String)
        → Placed limit extracted
            (length disk.files + new_files info)
            (extract_member resolve limits prefix info extracted disk)
    unfolding extract_member
    extract_member-Placed prefix = elim (Result-cases (assert_supported_member info)) [
      | inr (error, e) ↦ rw (e, extract_member) (unchanged (err error) tt)
      | inl (_, a) ↦ elim (Result-cases (safe_relative_path info.filename)) [
        | inr (error, e) ↦ rw (a, e, extract_member) (unchanged (err error) tt)
        | inl (path, b) ↦ elim (Result-cases (below_prefix prefix path)) [
          | inr (error, e) ↦ rw (a, b, e, extract_member) (unchanged (err error) tt)
          | inl (place, c) ↦
              rw (a, b, c, extract_member)
                (place_member-Placed place λ inside e.
                  below_prefix-IsSafePath prefix path inside
                    (safe_relative_path-IsSafePath info.filename path b) (c ∙ ap ok e))
        ]
      ]
    ]
