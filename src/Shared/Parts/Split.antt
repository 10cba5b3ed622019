-- ===== src/Shared/Parts/Split.antt =====
-- Laws of `split` and `join`.
use Prim.Native.Nat.{ℕ}
use Prim.Native.Char.{Char, code}
use Prim.Native.String
use Prim.Native.String.{String}
use mathlib.Core.Path.{◌≡◌, refl}
use mathlib.Core.Logic.{◌≢◌}
use mathlib.Core.Bool.{false}
use mathlib.Core.List.{List, [], ◌∷◌, ◌++◌}
use native.Mathlib.Omega.{arith}
use text.Mathlib.TextLemmas.{nil-append, cons-append}
use cryptiq.Shared.Tests.{nat_eq, beq_refl}
use cryptiq.Shared.Text.{has_char}
use cryptiq.Shared.Parts.{push_front, split}

split-ne-nil : (sep : ℕ) (s : String) → split sep s ≢ []
unfolding split
split-ne-nil sep String.[] e = cc
split-ne-nil sep (String.◌∷◌ c s) e = ground (arith, split-ne-nil sep s)

-- A text with no separator is one part.
pub split_whole : (sep : ℕ) (t : String) → has_char sep t ≡ false → split sep t ≡ t ∷ []
unfolding split has_char
split_whole sep String.[] h = refl
split_whole sep (String.◌∷◌ c t) h = ground (arith, split_whole sep t)

push_front-append :
    (c : Char) (ps qs : List String) → ps ≢ [] → push_front c (ps ++ qs) ≡ push_front c ps ++ qs
push_front-append c [] qs h = absurd (h refl)
push_front-append c (p ∷ ps) qs h = refl

-- A separator between two texts parts them.
pub split-append :
    (sep : Char) (s t : String)
    → split (code sep) (String.◌++◌ s (String.◌∷◌ sep t)) ≡ split (code sep) s ++ split (code sep) t
unfolding split
split-append sep String.[] t = rw nil-append (ground (arith, beq_refl (code sep)))
split-append sep (String.◌∷◌ c s) t = rw cons-append (
    ground (
      arith,
      split-append sep s t,
      push_front-append c (split (code sep) s) (split (code sep) t),
      split-ne-nil (code sep) s,
    ))
