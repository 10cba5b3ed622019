-- ===== src/Engine/Parser/Batched.antt =====
-- A snapshot is parsed file by file: `parse_all` of cryptiq/app/engine/parser/batch.py, with the walk of
-- cryptiq/app/engine/parser/python.py.
use mathlib.Core.List.{Perm}
use cryptiq.Shared.{
  String, Option, none, some, List, [], ◌∷◌, ◌≡◌, refl, Bool-cases, inl, inr, if◌then◌else◌,
}
use cryptiq.Shared.Sort.{sort_by, sort_by-perm}
use cryptiq.Ingestion.Discovery.{DiscoveredFile}
use cryptiq.Engine.Parsed.{ParsedFile}
use cryptiq.Engine.Parser.{Node}
use cryptiq.Engine.Parser.Records.{module_scope, empty_builder}
use cryptiq.Engine.Parser.File.{finished, parse, failed}
use cryptiq.Engine.Parser.Visited.{visit}
use cryptiq.Engine.Parser.Walked.{parse-visits}
use cryptiq.Engine.Parser.Batch.{parse_read, parse_each, compare_file_paths, parse_all}

-- What a file comes to, by the recursion over its tree.
abbrev pub visited : String → Option Node → ParsedFile
visited path none = failed path
visited path (some tree) = finished path (visit path tree none module_scope empty_builder)

abbrev pub visited_source : (String → Option Node) → String → Option String → ParsedFile
visited_source ast_parse path none = failed path
visited_source ast_parse path (some source) = visited path (ast_parse source)

unfoldable pub visited_files :
    (String → Option String) → (String → Option Node) → List DiscoveredFile → List ParsedFile
visited_files read ast_parse [] = []
visited_files read ast_parse (discovered ∷ files) =
    let rest = visited_files read ast_parse files in
    if discovered.is_supported
    then visited_source ast_parse discovered.path (read discovered.path) ∷ rest
    else rest

parse-visited : (path : String) (tree : Option Node) → parse path tree ≡ some (visited path tree)
unfolding parse
parse-visited path none = refl
parse-visited path (some tree) = (parse-visits path tree).1

parse_read-visited :
    (ast_parse : String → Option Node) (path : String) (source : Option String)
    → parse_read ast_parse path source ≡ some (visited_source ast_parse path source)
unfolding parse_read
parse_read-visited ast_parse path none = refl
parse_read-visited ast_parse path (some source) = parse-visited path (ast_parse source)

parse_each-visited :
    (read : String → Option String) (ast_parse : String → Option Node) (files : List DiscoveredFile)
    → parse_each read ast_parse files ≡ some (visited_files read ast_parse files)
unfolding parse_each visited_files
parse_each-visited read ast_parse [] = refl
parse_each-visited read ast_parse (discovered ∷ files) = elim (Bool-cases discovered.is_supported) [
  | inl e ↦
      rw
        (
          e,
          parse_read-visited ast_parse discovered.path (read discovered.path),
          parse_each-visited read ast_parse files,
        )
        refl
  | inr e ↦ rw e (parse_each-visited read ast_parse files)
]

-- Parsing a snapshot ends, whatever its files are, and gives one parsed file for each file that the
-- discovery supports and none for any other, in the order of their paths: a file that cannot be read, or
-- has no syntax tree, has nothing in it and is marked as not parsed, and any other holds what the
-- recursion over its tree records, a node before its children and these in order, each in the scope that
-- its parent opens.
pub parse_all-visits :
    (read : String → Option String) (ast_parse : String → Option Node) (files : List DiscoveredFile)
    → (parse_all read ast_parse files
        ≡ some (sort_by compare_file_paths (visited_files read ast_parse files)))
      × Perm
          (sort_by compare_file_paths (visited_files read ast_parse files))
          (visited_files read ast_parse files)
unfolding parse_all
parse_all-visits read ast_parse files = (
  rw (parse_each-visited read ast_parse files) refl,
  sort_by-perm compare_file_paths (visited_files read ast_parse files),
)
