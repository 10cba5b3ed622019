-- ===== src/Ingestion/Disk/Laws.antt =====
-- What the calls of the file system leave as it is, and how much they add: the paths on the disk, the
-- bytes and the number of its files.
use cryptiq.Shared.{
  ℕ, ◌+◌, ◌≤◌, String, true, Option, none, some, List, [], ◌∷◌, ◌++◌, ◌≡◌, arith, list_beq,
  beq_refl, list_eq, string_eq, ◌==◌, Bool-cases, Option-cases, inl, inr,
}
use cryptiq.Shared.Each.{Each}
use cryptiq.Shared.Dict.{lookup, put, length, length-append, length-put, lookup-put}
use cryptiq.Ingestion.Disk.{
  Bytes, Disk, total_bytes, add_dir, mkdir_below, mkdir, open_file, write_chunk,
}

module _ (P : List String → Type 0) where
  -- Each path on the disk, of a directory or a file, is one of the paths in `P`.
  unfoldable pub AreAll : Disk → Type 0
  AreAll disk = Each disk.dirs P × Each disk.files (λ (f : List String × Bytes). P f.0)

  Each-put :
      (path : List String) (bytes : Bytes) (files : List (List String × Bytes))
      → P path
      → Each files (λ (f : List String × Bytes). P f.0)
      → Each (put path bytes files) (λ (f : List String × Bytes). P f.0)
  unfolding Each put
  Each-put path bytes [] p h = (p, tt)
  Each-put path bytes ((other, old) ∷ files) p (q, h) = elim (Bool-cases (other == path)) [
    | inl e ↦ rw e (q, h)
    | inr e ↦ rw e (q, Each-put path bytes files p h)
  ]

  pub open_file-AreAll :
      (path : List String) (disk disk' : Disk)
      → P path
      → AreAll disk
      → open_file path disk ≡ some disk'
      → AreAll disk'
  unfolding open_file AreAll
  open_file-AreAll path disk disk' p (ds, fs) h = ground (arith, Each-put path [] disk.files p fs)

  pub write_chunk-AreAll :
      (path : List String) (chunk : Bytes) (disk : Disk)
      → P path
      → AreAll disk
      → AreAll (write_chunk path chunk disk)
  unfolding write_chunk AreAll
  write_chunk-AreAll path chunk disk p (ds, fs) = elim (Option-cases (lookup path disk.files)) [
    | inl e ↦ rw (e, write_chunk) (ds, Each-put path chunk disk.files p fs)
    | inr (bytes, e) ↦ rw (e, write_chunk) (ds, Each-put path (bytes ++ chunk) disk.files p fs)
  ]

same : (path : List String) → list_beq string_eq path path ≡ true
same path = beq_refl path

abbrev held : Option Bytes → ℕ
held none = 0
held (some bytes) = length bytes

total_bytes-put :
    (path : List String) (bytes : Bytes) (files : List (List String × Bytes))
    → total_bytes (put path bytes files) + held (lookup path files)
      ≡ total_bytes files + length bytes
unfolding put lookup
total_bytes-put path bytes [] = omega arith
total_bytes-put path bytes ((other, old) ∷ files) = ground (arith, total_bytes-put path bytes files)

-- An opened file adds no bytes and at most itself.
pub open_file-bounds :
    (path : List String) (disk disk' : Disk)
    → open_file path disk ≡ some disk'
    → (total_bytes disk'.files ≤ total_bytes disk.files)
      × (length disk'.files ≤ length disk.files + 1)
      × (lookup path disk'.files ≡ some [])
unfolding open_file
open_file-bounds path disk disk' h = ground (
  arith,
  total_bytes-put path [] disk.files,
  length-put path [] disk.files,
  lookup-put path path [] disk.files,
  same path,
)

-- A chunk at the end of an opened file adds its bytes and no file.
pub write_chunk-bounds :
    (path : List String) (chunk bytes : Bytes) (disk : Disk)
    → lookup path disk.files ≡ some bytes
    → (total_bytes (write_chunk path chunk disk).files ≡ total_bytes disk.files + length chunk)
      × (length (write_chunk path chunk disk).files ≡ length disk.files)
      × (lookup path (write_chunk path chunk disk).files ≡ some (bytes ++ chunk))
unfolding write_chunk
write_chunk-bounds path chunk bytes disk h = ground (
  arith,
  total_bytes-put path (bytes ++ chunk) disk.files,
  length-append bytes chunk,
  length-put path (bytes ++ chunk) disk.files,
  lookup-put path path (bytes ++ chunk) disk.files,
  same path,
)

mkdir_below-files :
    (above parts : List String) (disk disk' : Disk)
    → mkdir_below above parts disk ≡ some disk'
    → disk'.files ≡ disk.files
unfolding mkdir_below
mkdir_below-files above [] disk disk' h = ground arith
mkdir_below-files above (part ∷ parts) disk disk' h =
    ground (
      arith,
      mkdir_below-files (above ++ part ∷ []) parts (add_dir (above ++ part ∷ []) disk) disk',
    )

-- A directory that is made changes no file.
pub mkdir-files :
    (path : List String) (disk disk' : Disk)
    → mkdir path disk ≡ some disk'
    → disk'.files ≡ disk.files
unfolding mkdir
mkdir-files path disk disk' h = mkdir_below-files [] path disk disk' h
