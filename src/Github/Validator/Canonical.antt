-- ===== src/Github/Validator/Canonical.antt =====
-- The canonical URL of a repository: `parse_repository_url` of
-- cryptiq/app/integrations/github/validator.py.
use Prim.Native.Char.{Char, code}
use Prim.Native.String.{◌++◌}
use text.Mathlib.TextLemmas.{nil-append, cons-append}
use cryptiq.Shared.{
  ℕ, String, Bool, true, false, none, some, List, [], ◌∷◌, ◌==◌, string_eq, nat_eq, ◌≡◌, refl, sym,
  ap, subst, ◌∙◌, arith, Bool-cases, inl, inr, ◌⊎◌,
}
use cryptiq.Shared.Text.{ends_with, has_char, lower}
use cryptiq.Shared.Parts.{split}
use cryptiq.Shared.Parts.Split.{split_whole, split-append}
use cryptiq.Ingestion.Validation.{all_chars, in_range, count_chars}
use cryptiq.Ingestion.Source.{RepositoryReference}
use cryptiq.Github.Validator.{
  Result, ok, err, ◌>>=◌, no_port, SplitResult, is_alnum, is_owner_char, is_name_char, is_owner,
  is_name, remove_suffix, segments, owner_and_name, split_repository_path, reference_of,
  parse_parts, check_parts,
}

-- What urlsplit gives for an https URL of the host that has this path and nothing more.
abbrev pub page : String → SplitResult
page path = record {
  scheme = "https";
  username = none;
  password = none;
  port = no_port;
  hostname = some "github.com";
  path = path;
  query = "";
  fragment = "";
}

abbrev pub path_of : RepositoryReference → String
path_of reference = "/" ++ (reference.owner ++ ("/" ++ reference.name))

-- A result that comes after others is theirs to refuse.
bind-ok :
    {A B : Type 0} (m : Result A) (f : A → Result B) (b : B)
    → m >>= f ≡ ok b
    → (a : A) × ((m ≡ ok a) × (f a ≡ ok b))
bind-ok (ok a) f b h = (a, (refl, h))
bind-ok (err e) f b h = cc

all_chars-has_char :
    (test : Char → Bool) (n : ℕ) (s : String)
    → ((c : Char) → test c ≡ true → (code c == n) ≡ false)
    → all_chars test s ≡ true
    → has_char n s ≡ false
unfolding all_chars has_char
all_chars-has_char test n String.[] h all = refl
all_chars-has_char test n (String.◌∷◌ c s) h all =
    ground (arith, h c, all_chars-has_char test n s h)

owner_char-slash : (c : Char) → is_owner_char c ≡ true → (code c == 47) ≡ false
unfolding is_owner_char is_alnum in_range
owner_char-slash c h = ground arith

name_char-slash : (c : Char) → is_name_char c ≡ true → (code c == 47) ≡ false
unfolding is_name_char is_alnum in_range
name_char-slash c h = ground arith

remove_suffix_absent : (suffix s : String) → ends_with s suffix ≡ false → remove_suffix suffix s ≡ s
unfolding remove_suffix ends_with
remove_suffix_absent suffix String.[] h = refl
remove_suffix_absent suffix (String.◌∷◌ c s) h = ground (arith, remove_suffix_absent suffix s)

abbrev slash : Char
slash = "/"

slash-cons : (t : String) → "/" ++ t ≡ String.◌∷◌ slash t
slash-cons t = cons-append slash "" t ∙ ap (λ x. String.◌∷◌ slash x) (nil-append t)

abbrev pub IsValid : RepositoryReference → Type 0
IsValid reference =
    (is_owner reference.owner ≡ true)
    × (is_name reference.name ≡ true)
    × (((reference.name == ".") ≡ false) × ((reference.name == "..") ≡ false))

owner_and_name-IsValid :
    (parts : List String) (owner name : String)
    → owner_and_name parts ≡ ok (owner, name)
    → IsValid (reference_of owner name)
unfolding owner_and_name reference_of
owner_and_name-IsValid [] owner name h = cc
owner_and_name-IsValid (a ∷ []) owner name h = cc
owner_and_name-IsValid (a ∷ b ∷ []) owner name h = ground arith
owner_and_name-IsValid (a ∷ b ∷ c ∷ parts) owner name h = cc

segment_of :
    (test : String → Bool) (s : String) → test "" ≡ false → test s ≡ true → (s == "") ≡ false
segment_of test s h t = elim (Bool-cases (s == "")) [
  | inl e ↦ absurd (cc (h, t, ap test ((string_eq.beq_iff s "").0 e)))
  | inr e ↦ e
]

no_owner : is_owner "" ≡ false
unfolding is_owner all_chars
no_owner = refl

no_name : is_name "" ≡ false
unfolding is_name all_chars count_chars
no_name = refl

owner-has_slash : (s : String) → is_owner s ≡ true → has_char 47 s ≡ false
unfolding is_owner
owner-has_slash s h = all_chars-has_char is_owner_char 47 s owner_char-slash (ground arith)

name-has_slash : (s : String) → is_name s ≡ true → has_char 47 s ≡ false
unfolding is_name
name-has_slash s h = all_chars-has_char is_name_char 47 s name_char-slash (ground arith)

segments-pair :
    (owner name : String)
    → (owner == "") ≡ false
    → (name == "") ≡ false
    → segments ("" ∷ owner ∷ name ∷ []) ≡ owner ∷ name ∷ []
unfolding segments
segments-pair owner name o n = rw (o, n) refl

split-path :
    (owner name : String)
    → is_owner owner ≡ true
    → is_name name ≡ true
    → split 47 ("/" ++ (owner ++ ("/" ++ name))) ≡ "" ∷ owner ∷ name ∷ []
unfolding has_char
split-path owner name o n =
    rw
      (
        slash-cons (owner ++ ("/" ++ name)),
        slash-cons name,
        sym (nil-append (String.◌∷◌ slash (owner ++ String.◌∷◌ slash name))),
        split-append slash "" (owner ++ String.◌∷◌ slash name),
        split-append slash owner name,
        split_whole 47 owner (owner-has_slash owner o),
        split_whole 47 name (name-has_slash name n),
        split_whole 47 "" refl,
      )
      refl

owner_and_name_again :
    (reference : RepositoryReference)
    → IsValid reference
    → ends_with reference.name ".git" ≡ false
    → split_repository_path (path_of reference) ≡ ok (reference.owner, reference.name)
unfolding split_repository_path owner_and_name
owner_and_name_again reference (o, n, (dot, dots)) h =
    let owner = reference.owner in
    let name = reference.name in
    rw
      (
        split-path owner name o n,
        segments-pair owner name (segment_of is_owner owner no_owner o)
            (segment_of is_name name no_name n),
        remove_suffix_absent ".git" name h,
        o,
        n,
        dot,
        dots,
      )
      refl

parse_parts-IsValid :
    (parts : SplitResult) (reference : RepositoryReference)
    → parse_parts parts ≡ ok reference
    → (reference ≡ reference_of reference.owner reference.name) × IsValid reference
unfolding parse_parts reference_of split_repository_path
parse_parts-IsValid parts reference h =
    let then_path = λ (pair : String × String). ok (reference_of pair.0 pair.1) in
    let (_, (_, later)) =
      bind-ok (check_parts parts) (λ _. split_repository_path parts.path >>= then_path) reference
        h in
    let (pair, (path, last)) =
      bind-ok (split_repository_path parts.path) then_path reference later in
    let made : reference_of pair.0 pair.1 ≡ reference = cc in
    subst (λ r. (r ≡ reference_of r.owner r.name) × IsValid r) made
      (refl, owner_and_name-IsValid (segments (split 47 parts.path)) pair.0 pair.1 path)

-- If a URL is accepted, its owner and its name are GitHub's, the name is no dot component, and the
-- canonical URL is made of them. The path of the canonical URL is accepted again and comes to the same
-- reference, unless the name ends in ".git".
pub parse_parts-canonical :
    (parts : SplitResult) (reference : RepositoryReference)
    → parse_parts parts ≡ ok reference
    → (reference ≡ reference_of reference.owner reference.name)
      × (IsValid reference
          × ((ends_with reference.name ".git" ≡ true)
              ⊎ (parse_parts (page (path_of reference)) ≡ ok reference)))
unfolding parse_parts lower check_parts
parse_parts-canonical parts reference h =
    let (same, valid) = parse_parts-IsValid parts reference h in
    (
      same,
      (
        valid,
        elim (Bool-cases (ends_with reference.name ".git")) [
          | inl git ↦ inl git
          | inr git ↦ inr (rw (owner_and_name_again reference valid git) (ap ok (sym same)))
        ],
      ),
    )
