-- ===== src/Ingestion/Disk.antt =====
-- The directory that an archive is extracted into, as far as the calls of `Path` in
-- cryptiq/app/engine/ingestion/archive.py change it: paths are relative to that directory.
pub mod Laws
use cryptiq.Shared.{
  ℕ, zero, ◌+◌, String, Bool, Option, none, some, List, [], ◌∷◌, ◌++◌, ◌==◌, string_eq, list_eq,
  if◌then◌else◌, contains,
}
use cryptiq.Shared.Dict.{lookup, put, length}

abbrev pub Bytes : Type 0
Bytes = List ℕ

pub record Disk : Type 0 where
  pub dirs : List (List String)
  pub files : List (List String × Bytes)

abbrev pub empty_disk : Disk
empty_disk = record { dirs = []; files = [] }

-- The bytes that the files take.
abbrev pub total_bytes : List (List String × Bytes) → ℕ
total_bytes [] = 0
total_bytes ((path, bytes) ∷ files) = length bytes + total_bytes files

abbrev pub add_dir : List String → Disk → Disk
add_dir path disk = record disk {
  dirs = if contains disk.dirs path then disk.dirs else path ∷ disk.dirs;
}

-- The directories below `above`, one for each further part; none if there is a file at one.
unfoldable pub mkdir_below : List String → List String → Disk → Option Disk
mkdir_below above [] disk = some disk
mkdir_below above (part ∷ parts) disk =
    let here = above ++ part ∷ [] in
    let deeper = mkdir_below here parts (add_dir here disk) in
    elim (lookup here disk.files) [ some _ ↦ none | none ↦ deeper ]

-- `path.mkdir(parents=True, exist_ok=True)`: none if it raises, which changes nothing.
unfoldable pub mkdir : List String → Disk → Option Disk
unfolding mkdir_below
mkdir path disk = mkdir_below [] path disk

-- `path.open("wb")`: an empty file, or none if there is a directory.
unfoldable pub open_file : List String → Disk → Option Disk
open_file path disk =
    if contains disk.dirs path then none else some (record disk { files = put path [] disk.files })

-- `sink.write(chunk)`
unfoldable pub write_chunk : List String → Bytes → Disk → Disk
write_chunk path chunk disk = record disk {
  files = elim (lookup path disk.files) [
    | none ↦ put path chunk disk.files
    | some bytes ↦ put path (bytes ++ chunk) disk.files
  ];
}
