-- ===== src/Shared/Text.antt =====
-- The `str` methods that the program calls, over the native texts. A letter's case is that of ASCII;
-- white space is what `str.isspace` takes for it.
use Prim.Native.Nat.{ℕ}
use Prim.Native.Char.{Char, code}
use Prim.Native.String.{String, [], ◌∷◌}
use mathlib.Core.Bool.{Bool, true, false, ◌&&◌, ◌||◌}
use mathlib.Core.Option.{Option, none, some}
use cryptiq.Shared.Tests.{leb, ◌==◌, nat_eq, string_eq, if◌then◌else◌}

unfoldable pub is_space : Char → Bool
is_space c =
    let n = code c in
    leb 9 n && leb n 13
    || leb 28 n && leb n 32
    || n == 0x85
    || n == 0xa0
    || n == 0x1680
    || leb 0x2000 n && leb n 0x200a
    || n == 0x2028
    || n == 0x2029
    || n == 0x202f
    || n == 0x205f
    || n == 0x3000

unfoldable pub lstrip : String → String
unfolding is_space
lstrip [] = []
lstrip (c ∷ s) = if is_space c then lstrip s else c ∷ s

-- A character before a text that is stripped at its end.
abbrev pub rstrip_cons : Char → String → String
rstrip_cons c [] = if is_space c then [] else c ∷ []
rstrip_cons c (d ∷ r) = c ∷ d ∷ r

unfoldable pub rstrip : String → String
unfolding is_space
rstrip [] = []
rstrip (c ∷ s) = rstrip_cons c (rstrip s)

-- `s.strip()`
unfoldable pub strip : String → String
unfolding lstrip rstrip
strip s = rstrip (lstrip s)

-- `str.translate` by a table of two texts.
abbrev pub translate_char : String → String → Char → Char
translate_char [] to c = c
translate_char (a ∷ from) [] c = c
translate_char (a ∷ from) (b ∷ to) c = if code a == code c then b else translate_char from to c

abbrev pub map_chars : (Char → Char) → String → String
map_chars f [] = []
map_chars f (c ∷ s) = f c ∷ map_chars f s

-- `s.upper()`
unfoldable pub upper : String → String
upper = map_chars (translate_char "abcdefghijklmnopqrstuvwxyz" "ABCDEFGHIJKLMNOPQRSTUVWXYZ")

-- `s.lower()`
unfoldable pub lower : String → String
lower = map_chars (translate_char "ABCDEFGHIJKLMNOPQRSTUVWXYZ" "abcdefghijklmnopqrstuvwxyz")

-- `chr(n) in s`
unfoldable pub has_char : ℕ → String → Bool
has_char n [] = false
has_char n (c ∷ s) = if code c == n then true else has_char n s

-- `s.removeprefix` where the prefix is there: what follows it.
unfoldable pub strip_prefix : String → String → Option String
strip_prefix [] s = some s
strip_prefix (c ∷ p) [] = none
strip_prefix (c ∷ p) (d ∷ s) = if code c == code d then strip_prefix p s else none

-- `s.endswith(t)`
unfoldable pub ends_with : String → String → Bool
ends_with [] t = t == []
ends_with (c ∷ s) t = if (c ∷ s) == t then true else ends_with s t

-- `needle in s`
unfoldable pub has_text : String → String → Bool
unfolding strip_prefix
has_text needle [] = needle == []
has_text needle (c ∷ s) = elim (strip_prefix needle (c ∷ s)) [
  | none ↦ has_text needle s
  | some _ ↦ true
]

-- `s.replace(chr(n), chr(m))`, the second given by its character.
unfoldable pub replace_char : ℕ → Char → String → String
replace_char n new = map_chars (λ c. if code c == n then new else c)
