-- ===== src/Shared/Names.antt =====
-- The name of a file before and after its last dot: `PurePath.suffix` and `PurePath.stem`.
use Prim.Native.Char.{Char, code}
use Prim.Native.String.{String, ◌++◌}
use mathlib.Core.Bool.{◌||◌}
use mathlib.Core.Option.{Option, none, some}
use mathlib.Core.List.{List, [], ◌∷◌}
use cryptiq.Shared.Tests.{◌==◌, nat_eq, string_eq, if◌then◌else◌}

abbrev pub dotted_before : Char → String → Option (String × String) → Option (String × String)
dotted_before c s (some (front, back)) = some (String.◌∷◌ c front, back)
dotted_before c s none = if code c == 46 then some ("", s) else none

-- The text before the last dot, and the text after it.
unfoldable pub last_dot : String → Option (String × String)
last_dot String.[] = none
last_dot (String.◌∷◌ c s) = dotted_before c s (last_dot s)

-- A dot at the start or at the end of a name starts no suffix.
unfoldable pub suffix : String → String
unfolding last_dot
suffix name = elim (last_dot name) [
  | none ↦ ""
  | some (front, back) ↦ if front == "" || back == "" then "" else "." ++ back
]

unfoldable pub stem : String → String
unfolding last_dot
stem name = elim (last_dot name) [
  | none ↦ name
  | some (front, back) ↦ if front == "" || back == "" then name else front
]

-- `PurePath(*parts).name`
unfoldable pub last_part : List String → String
last_part [] = ""
last_part (part ∷ []) = part
last_part (part ∷ next ∷ parts) = last_part (next ∷ parts)
