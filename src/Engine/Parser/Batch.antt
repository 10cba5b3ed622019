-- ===== src/Engine/Parser/Batch.antt =====
-- The files of a snapshot: cryptiq/app/engine/parser/batch.py. The read of a file, none where it leads
-- out of the root or is not UTF-8, and ast.parse, none where it raises, are arguments.
use cryptiq.Shared.{String, Option, none, some, List, [], ◌∷◌, if◌then◌else◌, ◌>>=◌}
use cryptiq.Shared.Sort.{Ordering, sort_by, text_cmp}
use cryptiq.Ingestion.Discovery.{DiscoveredFile}
use cryptiq.Engine.Parsed.{ParsedFile}
use cryptiq.Engine.Parser.{Node}
use cryptiq.Engine.Parser.File.{parse, failed}

-- `_read_error`
abbrev pub read_error : String → ParsedFile
read_error path = failed path

unfoldable pub parse_read : (String → Option Node) → String → Option String → Option ParsedFile
parse_read ast_parse path none = some (read_error path)
parse_read ast_parse path (some source) = parse path (ast_parse source)

abbrev pub and_rest : Option ParsedFile → Option (List ParsedFile) → Option (List ParsedFile)
and_rest parsed rest = do file ← parsed; results ← rest; some (file ∷ results)

-- The loop of `parse_all`.
unfoldable pub parse_each :
    (String → Option String)
    → (String → Option Node)
    → List DiscoveredFile
    → Option (List ParsedFile)
unfolding parse_read
parse_each read ast_parse [] = some []
parse_each read ast_parse (discovered ∷ files) =
    let rest = parse_each read ast_parse files in
    if discovered.is_supported
    then and_rest (parse_read ast_parse discovered.path (read discovered.path)) rest
    else rest

unfoldable pub compare_file_paths : ParsedFile → ParsedFile → Ordering
compare_file_paths a b = text_cmp a.path b.path

-- `parse_all`
unfoldable pub parse_all :
    (String → Option String)
    → (String → Option Node)
    → List DiscoveredFile
    → Option (List ParsedFile)
unfolding parse_each compare_file_paths
parse_all read ast_parse files = do
  results ← parse_each read ast_parse files
  some (sort_by compare_file_paths results)
