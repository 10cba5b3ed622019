-- ===== src/Engine/Parser/Tests.antt =====
-- The parser at a small tree:
--     import hashlib as h
--     class A:
--         def f(self, key: bytes): return h.md5(key)
use cryptiq.Shared.{
  ℕ, ◌+◌, String, Option, none, some, List, [], ◌∷◌, map, ◌==◌, string_eq, Bool, true, false,
  if◌then◌else◌, ◌≡◌, refl,
}
use cryptiq.Shared.Dict.{put}
use cryptiq.Shared.Sort.{sort_by, insert_by}
use cryptiq.Shared.Text.{ends_with}
use cryptiq.Shared.Parts.{split, join, format}
use cryptiq.Shared.Names.{last_dot, suffix, stem, last_part}
use cryptiq.Ingestion.Paths.{pure_parts, visible, root_of}
use cryptiq.Engine.Resolution.Index.{is_identifier, all_word, is_letter}
use cryptiq.Engine.Parsed.{
  SourceLocation, NameContext, Symbol, Call, Annotation, ParsedFile, attribute_chain,
}
use cryptiq.Engine.Parser.{
  Node, nil, cons, absent, present, import_names, function_def, class_def, call, attribute, name,
  arg, other, constant, text, one, append, children, expr_of, exprs_of,
}
use cryptiq.Engine.Parser.Records.{
  qualify, entering_function, entering_class, scope_within, all_but_last, module_path_for,
  join_module, constant_of,
}
use cryptiq.Engine.Parser.Recorder.{
  import_binding, record_import, parameter_names, record_function, record_class, build_annotation,
  positional, by_keyword, build_call, record_attribute,
}
use cryptiq.Engine.Parser.Walk.{
  record_kind, record_node, reversed, push_all, walk, size, size_all, size_maybe,
}
use cryptiq.Engine.Parser.File.{
  compare_locations, by_location, index_imports, finished, build, parse, failed,
}
use mathlib.Core.List.{Perm}
use cryptiq.Ingestion.Discovery.{DiscoveredFile}
use cryptiq.Engine.Parser.Batch.{parse_all, compare_file_paths}
use cryptiq.Engine.Parser.Batched.{visited, visited_files, parse_all-visits}

program : Unit {0}
unfolding put sort_by insert_by ends_with split join format last_dot suffix stem last_part
    pure_parts visible root_of is_identifier all_word is_letter attribute_chain append children
    expr_of exprs_of qualify entering_function entering_class scope_within all_but_last
    module_path_for join_module constant_of import_binding record_import parameter_names
    record_function record_class build_annotation positional by_keyword build_call record_attribute
    record_kind record_node reversed push_all walk size size_all size_maybe compare_locations
    by_location index_imports finished build parse failed
program = tt

abbrev at : ℕ → ℕ → SourceLocation
at line column = record {
  start_line = line;
  end_line = line;
  start_column = column;
  end_column = column + 1;
}

abbrev load_name : ℕ → String → Node
load_name column id = name (at 4 column) id NameContext.load

abbrev key_parameter : Node
key_parameter = arg (at 3 16) "key" (present (name (at 3 21) "bytes" NameContext.load))

abbrev md5_call : Node
md5_call =
    call (at 4 15) (attribute (at 4 15) (load_name 15 "h") "md5") (one (load_name 21 "key")) nil

abbrev method : Node
method =
    function_def (at 3 4) "f"
      (other (at 0 0) (cons (arg (at 3 10) "self" absent) (one key_parameter)))
      (one (other (at 4 8) (one md5_call))) nil absent nil

abbrev small_tree : Node
small_tree = other (at 0 0) (
    cons (import_names (at 1 0) (record { name = "hashlib"; asname = some "h" } ∷ []))
      (one (class_def (at 2 0) "A" nil nil (one method) nil nil)))

abbrev discovered : String → Bool → DiscoveredFile
discovered path supported = record {
  path = path;
  language = some "python";
  size = 90;
  is_binary = false;
  is_supported = supported;
  skip_reason = none;
}

-- "b.py" cannot be read, and "c.py" is not supported.
abbrev files : List DiscoveredFile
files = discovered "b.py" true ∷ discovered "a.py" true ∷ discovered "c.py" false ∷ []

abbrev read : String → Option String
read path = if path == "a.py" then some "source" else none

abbrev ast_parse : String → Option Node
ast_parse source = some small_tree

parse_all-visits_example :
    (parse_all read ast_parse files ≡ some (visited "a.py" (some small_tree) ∷ failed "b.py" ∷ []))
    × Perm
        (visited "a.py" (some small_tree) ∷ failed "b.py" ∷ [])
        (failed "b.py" ∷ visited "a.py" (some small_tree) ∷ [])
unfolding sort_by insert_by visited_files compare_file_paths finished failed
parse_all-visits_example = parse_all-visits read ast_parse files

abbrev of_file : {A : Type 0} → (ParsedFile → List A) → List A
of_file items = elim (parse "src/a.py" (some small_tree)) [ none ↦ [] | some file ↦ items file ]

symbols : of_file (λ f. map (λ (s : Symbol). s.qualified_name) f.symbols) ≡ "h" ∷ "A" ∷ "A.f" ∷ []
unfolding program
symbols = refl

calls :
    of_file {A = Option (List String) × Option String}
      (λ f. map (λ (c : Call). (c.chain, c.enclosing_function)) f.calls)
    ≡ (some ("h" ∷ "md5" ∷ []), some "A.f") ∷ []
unfolding program
calls = refl

-- The annotation of a parameter stands in the scope of the function.
annotations :
    of_file {A = Option String × (Option (List String) × Option String)} (λ f.
      map
        (λ (a : Annotation). (a.target, (a.annotation_chain, a.enclosing_function)))
        f.annotations)
    ≡ (some "key", (some ("bytes" ∷ []), some "A.f")) ∷ []
unfolding program
annotations = refl

imports : of_file (λ f. f.import_index) ≡ ("h", "hashlib") ∷ []
unfolding program
imports = refl

package_path : module_path_for ("src" ∷ "pkg" ∷ "__init__.py" ∷ []) ≡ some "src.pkg"
unfolding program
package_path = refl

no_module : module_path_for ("src" ∷ "not-a-module.py" ∷ []) ≡ none
unfolding program
no_module = refl

relative : join_module ".." "name" ≡ "..name"
unfolding program
relative = refl

-- A literal of 257 characters is left out, one of 256 is not.
long : constant_of (constant (at 1 0) (text 257 "long")) ≡ none
unfolding program
long = refl

longest : constant_of (constant (at 1 0) (text 256 "longest")) ≡ some "longest"
unfolding program
longest = refl
