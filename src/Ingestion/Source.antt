-- ===== src/Ingestion/Source.antt =====
-- The reference to a repository and the hash of a snapshot: cryptiq/app/engine/ingestion/source.py.
pub mod Hashed
use Prim.Native.Char.{Char}
use Prim.Native.String.{◌++◌}
use cryptiq.Shared.{ℕ, String, List, [], ◌∷◌, map}
use cryptiq.Shared.Dict.{length}
use cryptiq.Shared.Parts.{join}
use cryptiq.Shared.Sort.{Ordering, sort_by, text_cmp}
use cryptiq.Ingestion.Disk.{Bytes}
use cryptiq.Ingestion.Discovery.{Entry, Content, iter_files}

pub record RepositoryReference : Type 0 where
  pub provider : String
  pub owner : String
  pub name : String
  pub canonical_url : String

unfoldable pub slug : RepositoryReference → String
slug repository = repository.owner ++ ("/" ++ repository.name)

-- `chr(0)` and the line end, which stand behind a path and behind a digest.
abbrev pub nul : Char
nul = "\0"

abbrev pub newline : Char
newline = "\n"

-- What the running digest is fed, for files with their digests.
unfoldable pub hashed_text : List (String × String) → String
hashed_text [] = ""
hashed_text ((path, digest) ∷ files) =
    path ++ String.◌∷◌ nul (digest ++ String.◌∷◌ newline (hashed_text files))

unfoldable pub compare_paths : String × Bytes → String × Bytes → Ordering
compare_paths a b = text_cmp a.0 b.0

abbrev pub with_posix_path : List String × Content → String × Bytes
with_posix_path (parts, content) = (join "/" parts, content.bytes)

-- `entries`, and `_file_digest` of each: `file_digest` is the hexadecimal SHA-256 of some bytes.
unfoldable pub hashed_files : (Bytes → String) → List Entry → List (String × String)
hashed_files file_digest entries =
    map (λ (file : String × Bytes). (file.0, file_digest file.1))
      (sort_by compare_paths (map with_posix_path (iter_files entries)))

-- `compute_content_hash`; `text_digest` is the hexadecimal SHA-256 of a text in UTF-8.
unfoldable pub compute_content_hash : (String → String) → (Bytes → String) → List Entry → String
compute_content_hash text_digest file_digest entries =
    text_digest (hashed_text (hashed_files file_digest entries))

-- `count_files`
unfoldable pub count_files : List Entry → ℕ
count_files entries = length (iter_files entries)
