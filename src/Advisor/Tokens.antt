-- ===== src/Advisor/Tokens.antt =====
-- `_tokenize` of cryptiq/app/engine/context/extractor.py: the tokens of a text, in the order in which
-- they are found, duplicates included.
use Prim.Native.Char.{Char, code}
use Prim.Native.String.{◌++◌ as join_text}
use cryptiq.Shared.{
  ℕ, String, Bool, true, false, ◌&&◌, ◌||◌, List, [], ◌∷◌, ◌++◌, map, ◌==◌, leb, nat_eq, string_eq,
  if◌then◌else◌,
}
use cryptiq.Shared.Text.{lower}
use cryptiq.Shared.Parts.{split}

abbrev pub underscore : ℕ
underscore = 95

abbrev pub snoc : String → Char → String
snoc s c = join_text s (String.◌∷◌ c "")

-- A word that is complete, if there is one.
abbrev pub before : String → List String → List String
before word words = if word == "" then words else word ∷ words

unfoldable pub is_upper : Char → Bool
is_upper c = leb 65 (code c) && leb (code c) 90

unfoldable pub is_lower : Char → Bool
is_lower c = leb 97 (code c) && leb (code c) 122

unfoldable pub is_digit : Char → Bool
is_digit c = leb 48 (code c) && leb (code c) 57

-- `TOKEN_RE.findall`; `token` is the token that is being read.
unfoldable pub find_tokens : String → String → List String
unfolding is_upper is_lower is_digit
find_tokens token String.[] = before token []
find_tokens token (String.◌∷◌ c s) =
    let longer = find_tokens (snoc token c) s in
    let done = before token (find_tokens "" s) in
    if is_upper c || is_lower c || code c == underscore
    then longer
    else if is_digit c && (if token == "" then false else true)
    then longer
    else done

-- The state of the search for the parts of a camelCase name: a run of capitals before `last`, the
-- last capital of the run, or a part that has its lower letters.
pub data Camel : Type 0 where
  start : Camel
  capitals : String → Char → Camel
  part : String → Camel

-- `re.findall` of the second pattern.
unfoldable pub find_camel : Camel → String → List String
unfolding is_upper is_lower
find_camel start String.[] = []
find_camel (capitals run last) String.[] = snoc run last ∷ []
find_camel (part word) String.[] = word ∷ []
find_camel start (String.◌∷◌ c s) =
    find_camel
      (if is_upper c then capitals "" c else if is_lower c then part (snoc "" c) else start) s
find_camel (capitals run last) (String.◌∷◌ c s) =
    let more = find_camel (capitals (snoc run last) c) s in
    let named = before run (find_camel (part (snoc (snoc "" last) c)) s) in
    let dropped = find_camel start s in
    if is_upper c then more else if is_lower c then named else dropped
find_camel (part word) (String.◌∷◌ c s) =
    let longer = find_camel (part (snoc word c)) s in
    let next = word ∷ find_camel (if is_upper c then capitals "" c else start) s in
    if is_lower c then longer else next

unfoldable pub non_empty : List String → List String
non_empty [] = []
non_empty (word ∷ words) = before word (non_empty words)

-- What the loop adds for one token.
unfoldable pub parts_of_token : String → List String
unfolding non_empty find_camel
parts_of_token token =
    lower token
    ∷ (map lower (non_empty (split underscore token)) ++ map lower (find_camel start token))

unfoldable pub parts_of_tokens : List String → List String
unfolding parts_of_token
parts_of_tokens [] = []
parts_of_tokens (token ∷ tokens) = parts_of_token token ++ parts_of_tokens tokens

unfoldable pub tokenize : String → List String
unfolding find_tokens parts_of_tokens
tokenize text = parts_of_tokens (find_tokens "" text)
