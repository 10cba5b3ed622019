-- ===== src/Ingestion/Extract/Writes.antt =====
-- `_write_member` of cryptiq/app/engine/ingestion/archive.py keeps to its file and to the limit.
use cryptiq.Shared.{
  ℕ, ◌+◌, ◌≤◌, String, some, List, [], ◌∷◌, ◌++◌, ◌≡◌, refl, arith, Bool-cases, Option-cases, inl,
  inr, ◌⊎◌, ltb, list_eq, string_eq,
}
use cryptiq.Shared.Dict.{lookup, length}
use cryptiq.Ingestion.Outcome.{Result, ok, err, IngestionLimits, check_extracted_bytes, too_large}
use cryptiq.Ingestion.Paths.Safe.{IsSafePath}
use cryptiq.Ingestion.Disk.{Bytes, Disk, total_bytes, open_file, write_chunk}
use cryptiq.Ingestion.Disk.Laws.{
  AreAll, open_file-AreAll, write_chunk-AreAll, open_file-bounds, write_chunk-bounds,
}
use cryptiq.Ingestion.Archive.{Stream, end, broken, chunk, ZipInfo}
use cryptiq.Ingestion.Extract.{write_from, write_member, call}

-- The paths on the disk lead below it, and its files hold no more than the limit.
unfoldable pub IsWithin : ℕ → Disk → Type 0
IsWithin limit disk = AreAll IsSafePath disk × (total_bytes disk.files ≤ limit)

-- What a result says of the bytes on the disk, if it is one.
abbrev pub Accounts : ℕ → Result ℕ → Disk → Type 0
Accounts already (ok written) disk = total_bytes disk.files ≤ already + written
Accounts already (err error) disk = Unit

-- The outcome of writing a file: the limit is kept, whatever the result, and no file is added.
unfoldable pub Written : ℕ → ℕ → ℕ → Result ℕ × Disk → Type 0
Written limit already files (result, disk) =
    IsWithin limit disk × Accounts already result disk × (length disk.files ≤ files)

check_extracted_bytes-cases :
    (limits : IngestionLimits) (n : ℕ)
    → ((check_extracted_bytes limits n ≡ ok tt) × (n ≤ limits.max_extracted_bytes))
      ⊎ (check_extracted_bytes limits n ≡ err too_large)
unfolding check_extracted_bytes
check_extracted_bytes-cases limits n = elim (Bool-cases (ltb limits.max_extracted_bytes n)) [
  | inl e ↦ inr (rw e refl)
  | inr e ↦ inl (rw e refl, ground (arith, e))
]

write_from-Written :
    (limits : IngestionLimits) (target : List String) (already written files : ℕ) (stream : Stream)
    (disk : Disk) (bytes : Bytes)
    → IsSafePath target
    → lookup target disk.files ≡ some bytes
    → IsWithin limits.max_extracted_bytes disk
    → total_bytes disk.files ≤ already + written
    → length disk.files ≤ files
    → Written limits.max_extracted_bytes already files
        (write_from limits target already written stream disk)
unfolding write_from Written IsWithin
write_from-Written limits target already written files end disk bytes p o w t n = (w, t, n)
write_from-Written limits target already written files broken disk bytes p o w t n = (w, tt, n)
write_from-Written limits target already written files (chunk [] stream) disk bytes p o w t n =
    (w, t, n)
write_from-Written limits target already written files (chunk (b ∷ bs) stream) disk bytes p o w t
      n =
    let total = written + length (b ∷ bs) in
    elim (check_extracted_bytes-cases limits (already + total)) [
      | inl (e, fits) ↦
          let (grown, as_many, opened) = write_chunk-bounds target (b ∷ bs) bytes disk o in
          let enough : total_bytes disk.files + length (b ∷ bs) ≤ already + total =
            omega (arith, t) in
          rw (e, write_from)
            (write_from-Written limits target already total files stream
              (write_chunk target (b ∷ bs) disk) (bytes ++ b ∷ bs) p opened
              (write_chunk-AreAll IsSafePath target (b ∷ bs) disk p w.0, omega arith) (omega arith)
              (omega arith))
      | inr e ↦ rw (e, write_from) (w, tt, n)
    ]

-- An opening that raises changes nothing; else at most the file itself is new.
pub write_member-Written :
    (limits : IngestionLimits) (info : ZipInfo) (target : List String) (already : ℕ) (disk : Disk)
    → IsSafePath target
    → IsWithin limits.max_extracted_bytes disk
    → total_bytes disk.files ≤ already
    → Written limits.max_extracted_bytes already
        (length disk.files + 1)
        (write_member limits info target already disk)
unfolding write_member IsWithin Written
write_member-Written limits info target already disk p w t =
    elim (Option-cases (open_file target disk)) [
      | inl e ↦ rw (e, write_member, call) (w, tt, omega arith)
      | inr (disk', e) ↦
          let (smaller, one_more, opened) = open_file-bounds target disk disk' e in
          rw (e, write_member, call)
            (write_from-Written limits target already 0 (length disk.files + 1) info.stream disk' []
              p opened (open_file-AreAll IsSafePath target disk disk' p (w.0) e, omega (arith, w.1))
              (omega arith) (omega arith))
    ]
