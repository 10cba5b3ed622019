-- ===== src/Engine/Parser/File.antt =====
-- What the walk comes to: `_Builder.build` and `PythonParser.parse` of
-- cryptiq/app/engine/parser/python.py.
use cryptiq.Shared.{String, true, false, Option, none, some, List, [], ◌∷◌, map, string_eq, ◌>>=◌}
use cryptiq.Shared.Dict.{put}
use cryptiq.Shared.Sort.{Ordering, sort_by, nat_cmp, then_cmp}
use cryptiq.Ingestion.Paths.{pure_parts}
use cryptiq.Engine.Parsed.{SourceLocation, ParsedFile}
use cryptiq.Engine.Parser.{Node}
use cryptiq.Engine.Parser.Records.{
  module_scope, module_path_for, ImportedName, Located, Builder, empty_builder,
}
use cryptiq.Engine.Parser.Walk.{walk, size}

unfoldable pub compare_locations : SourceLocation → SourceLocation → Ordering
compare_locations a b = then_cmp (nat_cmp a.start_line b.start_line) (
    then_cmp (nat_cmp a.start_column b.start_column)
      (then_cmp (nat_cmp a.end_line b.end_line) (nat_cmp a.end_column b.end_column)))

-- `sorted(items, key=_by_location)`
unfoldable pub by_location : {A : Type 0} → List (Located A) → List A
unfolding compare_locations
by_location {A} items =
    map (λ (item : Located A). item.1)
      (sort_by (λ (x y : Located A). compare_locations x.0 y.0) items)

-- `import_index`: of two imports of one name, the later counts.
unfoldable pub index_imports : List (String × String) → List ImportedName → List (String × String)
index_imports index [] = index
index_imports index (entry ∷ entries) =
    index_imports (put entry.local_name entry.qualified_name index) entries

unfoldable pub finished : String → Builder → ParsedFile
unfolding by_location index_imports
finished path b = record {
  path = path;
  module_path = module_path_for (pure_parts path);
  import_index = index_imports [] (by_location b.imports);
  symbols = by_location b.symbols;
  calls = by_location b.calls;
  names = by_location b.names;
  assignments = by_location b.assignments;
  annotations = by_location b.annotations;
  parsed = true;
}

-- `_Builder.build`
unfoldable pub build : String → Node → Option ParsedFile
build path tree = do
  b ←
      walk path (size tree) (record { node = tree; parent = none; scope = module_scope } ∷ [])
        empty_builder
  some (finished path b)

-- `_failed`
unfoldable pub failed : String → ParsedFile
failed path = record {
  path = path;
  module_path = module_path_for (pure_parts path);
  import_index = [];
  symbols = [];
  calls = [];
  names = [];
  assignments = [];
  annotations = [];
  parsed = false;
}

-- `parse`; `tree` is what `ast.parse` gives, none if it raises.
unfoldable pub parse : String → Option Node → Option ParsedFile
parse path none = some (failed path)
parse path (some tree) = build path tree
