-- ===== src/Shared/Parts.antt =====
-- The `str` methods between a text and its parts: `split`, `join`, and the f-string.
pub mod Split
use Prim.Native.Nat.{ℕ}
use Prim.Native.Char.{Char, code}
use Prim.Native.String.{String, ◌++◌}
use mathlib.Core.List.{List, [], ◌∷◌}
use cryptiq.Shared.Tests.{◌==◌, nat_eq, if◌then◌else◌}

-- A character in front of the first part.
abbrev pub push_front : Char → List String → List String
push_front c [] = String.◌∷◌ c "" ∷ []
push_front c (p ∷ ps) = String.◌∷◌ c p ∷ ps

-- `s.split(sep)` at a separator of one character, given by its code.
unfoldable pub split : ℕ → String → List String
split sep String.[] = "" ∷ []
split sep (String.◌∷◌ c s) =
    let rest = split sep s in if code c == sep then "" ∷ rest else push_front c rest

-- `sep.join(parts)`
unfoldable pub join : String → List String → String
join sep [] = ""
join sep (p ∷ []) = p
join sep (p ∷ q ∷ ps) = p ++ (sep ++ join sep (q ∷ ps))

-- An f-string: its parts, one after the other.
unfoldable pub format : List String → String
format [] = ""
format (p ∷ ps) = p ++ format ps

-- `before, _, after = s.partition(sep)`
unfoldable pub partition : ℕ → String → String × String
partition sep String.[] = ("", "")
partition sep (String.◌∷◌ c s) =
    if code c == sep then ("", s) else (String.◌∷◌ c (partition sep s).0, (partition sep s).1)
